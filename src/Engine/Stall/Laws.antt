-- ===== src/Engine/Stall/Laws.antt =====
-- When the watchdog ends a job.
use mathlib.Core.Path.{ap₂}
use ffmpeg_docker_playground.Base.{
  ℕ, ◌+◌, ◌-◌, ◌≤◌, ◌≡◌, refl, ◌∙◌, Bool, true, false, ◌||◌, none, List, [], ◌∷◌, leb, any, arith,
  if◌then◌else◌,
}
use ffmpeg_docker_playground.Engine.Stall.{Sizes, any_grew, Look, progress_at, watch}

-- No look finds a file that grew since the look before, and the job touches nothing.
abbrev pub IsQuiet : Sizes → List Look → Type 0
IsQuiet previous [] = Unit
IsQuiet previous (look ∷ looks) =
    (any_grew previous look.sizes ≡ false) × (look.touched ≡ none) × IsQuiet look.sizes looks

age : (timeout now last : ℕ) → 1 ≤ timeout → leb timeout (now - last) ≡ leb (last + timeout) now
age timeout now last h = ground arith

progress_at-quiet :
    (previous : Sizes) (last : ℕ) (look : Look)
    → any_grew previous look.sizes ≡ false
    → look.touched ≡ none
    → progress_at previous last look ≡ last
unfolding progress_at
progress_at-quiet previous last look g t = rw (g, t) refl

progress_at-grew :
    (previous : Sizes) (last : ℕ) (look : Look)
    → any_grew previous look.sizes ≡ true
    → progress_at previous last look ≡ look.now
unfolding progress_at
progress_at-grew previous last look g = rw g refl

or-if : (a b : Bool) → (if a then true else b) ≡ a || b
or-if true b = refl
or-if false b = refl

watch-quiet :
    (timeout : ℕ) (previous : Sizes) (last : ℕ) (looks : List Look)
    → 1 ≤ timeout
    → IsQuiet previous looks
    → watch timeout previous last looks ≡ any (λ look. leb (last + timeout) look.now) looks
unfolding watch
watch-quiet timeout previous last [] h q = refl
watch-quiet timeout previous last (look ∷ looks) h (g, t, q) =
    let same = progress_at-quiet previous last look g t in
    rw same (
      or-if (leb timeout (look.now - last)) _
      ∙ ap₂ (λ a b. a || b) (age timeout look.now last h)
          (watch-quiet timeout look.sizes last looks h q))

-- With a timeout of at least 1, behind a look at which a file has grown, and while no file grows
-- and the job touches nothing, the watchdog ends the job exactly if one of the later looks comes
-- at the timeout or more after that look.
pub watch_lem :
    (timeout : ℕ) (previous : Sizes) (last : ℕ) (look : Look) (looks : List Look)
    → 1 ≤ timeout
    → any_grew previous look.sizes ≡ true
    → IsQuiet look.sizes looks
    → watch timeout previous last (look ∷ looks)
      ≡ any (λ later. leb (look.now + timeout) later.now) looks
unfolding watch
watch_lem timeout previous last look looks h g q =
    let same = progress_at-grew previous last look g in
    let young : leb timeout (look.now - look.now) ≡ false = ground arith in
    rw (same, young) (watch-quiet timeout look.sizes look.now looks h q)
