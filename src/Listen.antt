-- ===== src/Listen.antt =====
-- agent/src/listen.rs: `Listen`, where the agent listens, as it is read and printed. Socket addresses
-- are the standard library's: their type, their parser and their printer are arguments.
pub mod Laws
pub mod Socket
pub mod Tests
use Prim.Native.Char.{code}
use Prim.Native.String
use ffmpeg_docker_playground.Base.Text.{split, is_blank, strip_prefix}
use ffmpeg_docker_playground.Base.Text.Split.{◌++ₛ◌}
use ffmpeg_docker_playground.Base.{
  ℕ, Bool, true, false, not, ◌||◌, Option, none, some, List, [], ◌∷◌, String, ◌==◌, nat_eq, Result,
  ok, err, if◌then◌else◌,
}

pub data Listen (Addr : Type 0) : Type 0 where
  tcp : Addr → Listen Addr
  unix : String → Listen Addr

pub data ListenError : Type 0 where
  needs_absolute unsupported invalid_address : ListenError

-- `Path::is_absolute`, on Unix.
abbrev pub is_absolute : String → Bool
is_absolute String.[] = false
is_absolute (String.◌∷◌ c s) = nat_eq (code c) b'/'

-- The components of an absolute path, behind its root.
unfoldable pub components : List String → List String
components [] = []
components (p ∷ ps) = let rest = components ps in if is_blank p || p == "." then rest else p ∷ rest

unfoldable pub last : List String → Option String
last [] = none
last (p ∷ []) = some p
last (p ∷ q ∷ ps) = last (q ∷ ps)

abbrev normal : Option String → Option String
normal none = none
normal (some p) = if p == ".." then none else some p

-- `Path::file_name`, on an absolute path.
unfoldable pub file_name : String → Option String
unfolding split components last
file_name path = normal (last (components (split b'/' path)))

abbrev pub is_none : Option String → Bool
is_none none = true
is_none (some p) = false

module _ {Addr : Type 0} (on_unix : Bool) (parse_addr : String → Option Addr)
    (show_addr : Addr → String) where
  abbrev pub parse_tcp : Option Addr → Result ListenError (Listen Addr)
  parse_tcp none = err invalid_address
  parse_tcp (some a) = ok (tcp a)

  unfoldable pub parse_unix : String → Result ListenError (Listen Addr)
  unfolding file_name
  parse_unix path =
      if not (is_absolute path) || is_none (file_name path)
      then err needs_absolute
      else if not on_unix
      then err unsupported
      else ok (unix path)

  unfoldable pub parse : String → Result ListenError (Listen Addr)
  unfolding strip_prefix parse_unix
  parse value = elim (strip_prefix "unix:" value) [
    | some path ↦ parse_unix path
    | none ↦ parse_tcp (parse_addr value)
  ]

  -- `Display`
  unfoldable pub show : Listen Addr → String
  show (tcp a) = show_addr a
  show (unix path) = "unix:" ++ₛ path
