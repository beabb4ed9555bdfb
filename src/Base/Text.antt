-- ===== src/Base/Text.antt =====
-- Rust's `str` methods that the program uses, over native texts. A native text is a list of
-- characters whose `len` counts the bytes of its UTF-8 form, as `str::len` does.
pub mod Split
pub mod Prefix
pub mod Tests
use Prim.Native.Char.{Char, code}
use Prim.Native.Nat.{ℕ, ◌+◌, ◌-◌, ◌*◌, ◌/◌, ◌%◌}
use Prim.Native.String
use Prim.Native.String.{String}
use mathlib.Core.Bool.{Bool, true, false, ◌&&◌, ◌||◌}
use mathlib.Core.Option.{Option, none, some}
use mathlib.Core.List.{List, [], ◌∷◌, ◌++◌}
use text.Mathlib.Text.{◌==◌}
use ffmpeg_docker_playground.Base.Tests.{ltb, leb, nat_eq, in_range, if◌then◌else◌}

-- The UTF-8 form of a code point.
unfoldable pub utf8 : ℕ → List ℕ
utf8 n =
    if ltb n 0x80
    then n ∷ []
    else if ltb n 0x800
    then (0xC0 + n / 64) ∷ (0x80 + n % 64) ∷ []
    else if ltb n 0x10000
    then (0xE0 + n / 4096) ∷ (0x80 + n / 64 % 64) ∷ (0x80 + n % 64) ∷ []
    else (0xF0 + n / 262144) ∷ (0x80 + n / 4096 % 64) ∷ (0x80 + n / 64 % 64) ∷ (0x80 + n % 64) ∷ []

-- `str::as_bytes`
unfoldable pub bytes : String → List ℕ
unfolding utf8
bytes String.[] = []
bytes (String.◌∷◌ c s) = utf8 (code c) ++ bytes s

-- `u8::is_ascii_alphanumeric`
abbrev pub is_ascii_alphanumeric : ℕ → Bool
is_ascii_alphanumeric b = in_range b'0' b'9' b || in_range b'A' b'Z' b || in_range b'a' b'z' b

-- `str::is_empty`
abbrev pub is_blank : String → Bool
is_blank String.[] = true
is_blank (String.◌∷◌ c s) = false

-- The first piece of a split gets one more character.
abbrev extend_head : Char → List String → List String
extend_head c [] = String.◌∷◌ c String.[] ∷ []
extend_head c (p ∷ ps) = String.◌∷◌ c p ∷ ps

-- `str::split` at a separator character.
unfoldable pub split : ℕ → String → List String
split sep String.[] = String.[] ∷ []
split sep (String.◌∷◌ c s) =
    if nat_eq (code c) sep then String.[] ∷ split sep s else extend_head c (split sep s)

abbrev extend_left : Char → Option (String × String) → Option (String × String)
extend_left c none = none
extend_left c (some (a, b)) = some (String.◌∷◌ c a, b)

-- `str::split_once` at a separator character.
unfoldable pub split_once : ℕ → String → Option (String × String)
split_once sep String.[] = none
split_once sep (String.◌∷◌ c s) =
    if nat_eq (code c) sep then some (String.[], s) else extend_left c (split_once sep s)

-- `str::strip_prefix`
unfoldable pub strip_prefix : String → String → Option String
strip_prefix String.[] s = some s
strip_prefix (String.◌∷◌ c p) String.[] = none
strip_prefix (String.◌∷◌ c p) (String.◌∷◌ d s) =
    let rest = strip_prefix p s in if nat_eq (code c) (code d) then rest else none

-- `u8::to_ascii_lowercase`
abbrev pub to_ascii_lowercase : ℕ → ℕ
to_ascii_lowercase b = if in_range b'A' b'Z' b then b + 32 else b

-- `str::eq_ignore_ascii_case`
unfoldable pub eq_ignore_ascii_case : String → String → Bool
eq_ignore_ascii_case String.[] String.[] = true
eq_ignore_ascii_case (String.◌∷◌ c s) (String.◌∷◌ d t) =
    nat_eq (to_ascii_lowercase (code c)) (to_ascii_lowercase (code d)) && eq_ignore_ascii_case s t
eq_ignore_ascii_case _ _ = false

-- `char::is_whitespace`: the code points with the Unicode property White_Space.
abbrev pub is_whitespace : ℕ → Bool
is_whitespace n =
    in_range 9 13 n
    || nat_eq n 32
    || nat_eq n 0x85
    || nat_eq n 0xA0
    || nat_eq n 0x1680
    || in_range 0x2000 0x200A n
    || in_range 0x2028 0x2029 n
    || nat_eq n 0x202F
    || nat_eq n 0x205F
    || nat_eq n 0x3000

-- `str::trim_start`
unfoldable pub trim_start : String → String
trim_start String.[] = String.[]
trim_start (String.◌∷◌ c s) = if is_whitespace (code c) then trim_start s else String.◌∷◌ c s

-- A character in front of a text whose end is trimmed already.
abbrev keep_left : Char → String → String
keep_left c String.[] = if is_whitespace (code c) then String.[] else String.◌∷◌ c String.[]
keep_left c (String.◌∷◌ d s) = String.◌∷◌ c (String.◌∷◌ d s)

-- `str::trim_end`
unfoldable pub trim_end : String → String
trim_end String.[] = String.[]
trim_end (String.◌∷◌ c s) = keep_left c (trim_end s)

-- `str::trim`
unfoldable pub trim : String → String
unfolding trim_start trim_end
trim s = trim_end (trim_start s)

-- `s.chars().any(char::is_control)`: the code points of the general category Cc.
unfoldable pub has_control : String → Bool
has_control String.[] = false
has_control (String.◌∷◌ c s) = ltb (code c) 0x20 || in_range 0x7F 0x9F (code c) || has_control s

-- The digits of a number, the accumulator checked against `u64::MAX` at each digit.
digits_from : ℕ → String → Option ℕ
digits_from acc String.[] = some acc
digits_from acc (String.◌∷◌ c s) =
    let rest = digits_from (acc * 10 + (code c - b'0')) s in
    if in_range b'0' b'9' (code c) && leb (acc * 10 + (code c - b'0')) 18_446_744_073_709_551_615
    then rest
    else none

digits : String → Option ℕ
unfolding digits_from
digits String.[] = none
digits (String.◌∷◌ c s) = digits_from 0 (String.◌∷◌ c s)

-- `str::parse::<u64>`: an optional plus sign, then at least one digit, no overflow.
unfoldable pub parse_u64 : String → Option ℕ
unfolding digits
parse_u64 String.[] = none
parse_u64 (String.◌∷◌ c s) = if nat_eq (code c) b'+' then digits s else digits (String.◌∷◌ c s)
