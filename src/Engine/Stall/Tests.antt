-- ===== src/Engine/Stall/Tests.antt =====
-- A directory that holds itself, and a job that falls silent.
use ffmpeg_docker_playground.Base.{
  ℕ, ◌+◌, ◌≤◌, ◌≡◌, refl, true, Option, some, none, List, [], ◌∷◌, String, leb, length, any, suc,
  arith,
}
use ffmpeg_docker_playground.Engine.Stall.{
  scan_limit, directory, file, Entry, Sizes, any_grew, Look, scan, watch,
}
use ffmpeg_docker_playground.Engine.Stall.Walk.{scan_total}
use mathlib.Core.Quot
use ffmpeg_docker_playground.Base.{ap, sym}
use ffmpeg_docker_playground.Engine.Stall.Unordered.{FileMap, Swapped, watch_unordered}
use ffmpeg_docker_playground.Engine.Stall.Laws.{IsQuiet, watch_lem}

abbrev read_dir : String → Option (List Entry)
read_dir path = some (
    record { path = "loop"; kind = directory }
    ∷ record { path = "input"; kind = file (some 7) }
    ∷ [])

scan_total_example :
    (sizes : Sizes) × (scan read_dir (some "job-1") ≡ some sizes) × (length sizes ≤ suc scan_limit)
scan_total_example = scan_total read_dir (some "job-1")

-- The input grows until the look at 100, and stays from then on.
abbrev look_at : ℕ → Look
look_at now = record { now = now; sizes = ("input", 7) ∷ []; touched = none }

abbrev later : List Look
later = look_at 150 ∷ look_at 219 ∷ look_at 221 ∷ []

grows : any_grew (("input", 3) ∷ []) (look_at 100).sizes ≡ true
unfolding any_grew
grows = refl

silent : IsQuiet (look_at 100).sizes later
unfolding any_grew
silent = ((refl, refl, (refl, refl, (refl, refl, tt))))

watch_lem_example :
    watch 120 (("input", 3) ∷ []) 40 (look_at 100 ∷ later)
    ≡ any (λ look. leb (100 + 120) look.now) later
watch_lem_example =
    watch_lem 120 (("input", 3) ∷ []) 40 (look_at 100) later (omega arith) grows silent

-- The same look, with its two files the other way round.
abbrev listed : List (String × ℕ)
listed = ("input", 7) ∷ ("output.mp3", 3) ∷ []

abbrev relisted : List (String × ℕ)
relisted = ("output.mp3", 3) ∷ ("input", 7) ∷ []

same_files : ◌≡◌ {A = FileMap} (Quot.mk listed) (Quot.mk relisted)
same_files = Quot.sound (Swapped.here "input" "output.mp3" 7 3 [] refl)

abbrev with_files : List (String × ℕ) → Look
with_files files = record { now = 300; sizes = files; touched = none }

watch_unordered_example :
    watch 120 listed 40 (with_files relisted ∷ []) ≡ watch 120 relisted 40 (with_files listed ∷ [])
watch_unordered_example =
    watch_unordered 120 listed relisted 40 (with_files relisted ∷ []) (with_files listed ∷ [])
      same_files (ap (λ m. (300, m, none) ∷ []) (sym same_files))
