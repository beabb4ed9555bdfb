-- ===== src/Base/Text/Tests.antt =====
-- Runs of the `str` methods on literals.
use mathlib.Core.Path.{◌≡◌, refl}
use mathlib.Core.Option.{none, some}
use mathlib.Core.Bool.{true}
use mathlib.Core.List.{[], ◌∷◌}
use ffmpeg_docker_playground.Base.Text.{
  bytes, split, split_once, eq_ignore_ascii_case, trim, has_control, parse_u64,
}

split_runs : split b'.' "a.bc..d" ≡ "a" ∷ "bc" ∷ "" ∷ "d" ∷ []
unfolding split
split_runs = refl

split_once_runs : split_once b'=' "k=v=w" ≡ some ("k", "v=w")
unfolding split_once
split_once_runs = refl

trim_runs : trim "  a b\t" ≡ "a b"
unfolding trim
trim_runs = refl

parse_u64_runs :
    (parse_u64 "18446744073709551615" ≡ some 18_446_744_073_709_551_615)
    × (parse_u64 "18446744073709551616" ≡ none)
    × (parse_u64 "+7" ≡ some 7)
    × (parse_u64 "-1" ≡ none)
    × (parse_u64 "+" ≡ none)
unfolding parse_u64
parse_u64_runs = (refl, refl, refl, refl, refl)

other_runs :
    (eq_ignore_ascii_case "Bearer" "bearer" ≡ true)
    × (has_control "a\tb" ≡ true)
    × (bytes "é" ≡ 0xC3 ∷ 0xA9 ∷ [])
unfolding eq_ignore_ascii_case has_control bytes
other_runs = (refl, refl, refl)
