-- ===== src/Listen/Tests.antt =====
-- A listener on a Unix socket, whose path still has the socket of an earlier process.
use ffmpeg_docker_playground.Base.Text.{strip_prefix, split}
use ffmpeg_docker_playground.Base.{
  ◌≡◌, refl, sym, subst, true, false, none, some, Option, String, ◌==◌, eq_iff, Bool-cases, ok, inl,
  inr, arith, if◌then◌else◌,
}
use ffmpeg_docker_playground.Base.{map, all, List, [], ◌∷◌, Bool, ◌||◌, err}
use ffmpeg_docker_playground.Listen.{
  tcp, Listen, unix, components, last, file_name, parse_unix, parse, show,
}
use ffmpeg_docker_playground.Listen.Laws.{Says, parse-show}
use ffmpeg_docker_playground.Listen.Socket.{socket, Node, System, bind}
use ffmpeg_docker_playground.Listen.Socket.Laws.{IsEnd, bind-IsEnd}

-- The one address that is read.
abbrev parse_addr : String → Option (Unit {0})
parse_addr s = if s == "127.0.0.1:80" then some tt else none

abbrev show_addr : Unit {0} → String
show_addr a = "127.0.0.1:80"

plain : (s : String) (a : Unit {0}) → parse_addr s ≡ some a → strip_prefix "unix:" s ≡ none
unfolding strip_prefix
plain s a h = elim (Bool-cases (s == "127.0.0.1:80")) [
  | inl e ↦ subst (λ t. strip_prefix "unix:" t ≡ none) (sym ((eq_iff s "127.0.0.1:80").0 e)) refl
  | inr e ↦ absurd (ground (arith, e))
]

readable : (a : Unit {0}) → parse_addr (show_addr a) ≡ some a
readable a = refl

abbrev listener : Listen (Unit {0})
listener = unix "/run/a.sock"

reads : parse true parse_addr show_addr "unix:/run/a.sock" ≡ ok listener
unfolding parse strip_prefix parse_unix file_name split components last
reads = refl

parse-show_example :
    Says true parse_addr show_addr "unix:/run/a.sock" listener
    × (parse true parse_addr show_addr (show true parse_addr show_addr listener) ≡ ok listener)
parse-show_example =
    parse-show true parse_addr show_addr plain readable "unix:/run/a.sock" listener reads

abbrev left_behind : Node
left_behind = record { kind = socket false; identity = (1, 7); mode = 0o755 }

abbrev system : System
system = record {
  inspects = true;
  connects = true;
  removes = true;
  binds = true;
  reinspects = true;
  sets_mode = true;
  identity = (1, 8);
  mode = 0o755;
}

bind-IsEnd_example : IsEnd system (some left_behind) (bind system (some left_behind))
bind-IsEnd_example = bind-IsEnd system (some left_behind)

-- The cases of `parses_tcp_and_unix_addresses` in the tests of agent/src/listen.rs, where addresses
-- are read as they stand.
abbrev read_known : String → Option String
read_known s = if s == "127.0.0.1:8080" || s == "[::1]:80" then some s else none

abbrev valid : List String
valid = "127.0.0.1:8080" ∷ "[::1]:80" ∷ "unix:/run/hng-backend/ffmpeg.sock" ∷ []

abbrev invalid : List String
invalid = "" ∷ "8080" ∷ "localhost:8080" ∷ "unix:" ∷ "unix:relative.sock" ∷ "unix:/" ∷ []

abbrev fails : String → Bool
fails text = elim (parse true read_known (λ a. a) text) [ ok l ↦ false | err e ↦ true ]

reads_valid :
    map (parse true read_known (λ a. a)) valid
    ≡ ok (tcp "127.0.0.1:8080")
      ∷ ok (tcp "[::1]:80")
      ∷ ok (unix "/run/hng-backend/ffmpeg.sock")
      ∷ []
unfolding parse strip_prefix parse_unix file_name split components last
reads_valid = refl

refuses_invalid : all fails invalid ≡ true
unfolding parse strip_prefix parse_unix file_name split components last
refuses_invalid = refl

prints : show true read_known (λ a. a) (unix "/run/a.sock") ≡ "unix:/run/a.sock"
unfolding show
prints = refl
