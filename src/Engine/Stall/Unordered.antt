-- ===== src/Engine/Stall/Unordered.antt =====
-- The sizes that a look finds are a map: the order in which the `HashMap` holds them is forgotten
-- by a quotient.
use mathlib.Core.Quot
use mathlib.Core.Quot.{Quot}
use mathlib.Core.Path.{ap₂}
use native.Mathlib.Nat.{ℕ_set}
use mathlib.Core.Bool.{Bool-set}
use ffmpeg_docker_playground.Base.{
  ℕ, ◌-◌, ◌≡◌, refl, sym, ap, ◌∙◌, Bool, true, false, ◌||◌, Option, List, [], ◌∷◌, String, ◌==◌,
  eq_iff, ltb, leb, map, arith, if◌then◌else◌,
}
use ffmpeg_docker_playground.Engine.Stall.{
  Sizes, size_of, any_grew, Look, touch_of, progress_at, watch,
}

-- Two entries with different paths change places.
pub data Swapped : Sizes → Sizes → Type 0 where
  here :
      (p q : String) (m n : ℕ) (rest : Sizes)
      → p == q ≡ false
      → Swapped ((p, m) ∷ (q, n) ∷ rest) ((q, n) ∷ (p, m) ∷ rest)
  behind :
      (p : String) (m : ℕ) (xs ys : Sizes) → Swapped xs ys → Swapped ((p, m) ∷ xs) ((p, m) ∷ ys)

abbrev pub FileMap : Type 0
FileMap = Quot Swapped

size_of-Swapped :
    (path : String) (xs ys : Sizes) → Swapped xs ys → size_of path xs ≡ size_of path ys
unfolding size_of
size_of-Swapped path _ _ (Swapped.here p q m n rest d) =
    ground (arith, d, eq_iff p path, eq_iff q path, eq_iff p q)
size_of-Swapped path _ _ (Swapped.behind p m xs ys s) =
    ap (λ k. if p == path then m else k) (size_of-Swapped path xs ys s)

abbrev size_in : String → FileMap → ℕ
size_in path = Quot.lift ℕ_set (size_of path) (size_of-Swapped path)

-- `any_grew`, for any way to look up the size before.
unfoldable grew_by : (String → ℕ) → Sizes → Bool
grew_by get [] = false
grew_by get ((path, size) ∷ sizes) = ltb (get path) size || grew_by get sizes

or_swap : (a b c : Bool) → a || (b || c) ≡ b || (a || c)
or_swap true true c = refl
or_swap true false c = refl
or_swap false b c = refl

grew_by-Swapped :
    (get : String → ℕ) (xs ys : Sizes) → Swapped xs ys → grew_by get xs ≡ grew_by get ys
unfolding grew_by
grew_by-Swapped get _ _ (Swapped.here p q m n rest d) =
    or_swap (ltb (get p) m) (ltb (get q) n) (grew_by get rest)
grew_by-Swapped get _ _ (Swapped.behind p m xs ys s) =
    ap (λ b. ltb (get p) m || b) (grew_by-Swapped get xs ys s)

abbrev grew : FileMap → FileMap → Bool
grew previous = Quot.lift Bool-set (grew_by (λ path. size_in path previous)) (grew_by-Swapped _)

any_grew-grew :
    (previous sizes : Sizes) → any_grew previous sizes ≡ grew (Quot.mk previous) (Quot.mk sizes)
unfolding any_grew grew_by
any_grew-grew previous [] = refl
any_grew-grew previous ((path, size) ∷ sizes) =
    ap (λ b. ltb (size_of path previous) size || b) (any_grew-grew previous sizes)

-- A look, without the order of its sizes.
abbrev pub Sight : Type 0
Sight = ℕ × FileMap × Option ℕ

abbrev pub sight : Look → Sight
sight look = (look.now, Quot.mk look.sizes, look.touched)

-- The watchdog on maps.
watch_maps : ℕ → FileMap → ℕ → List Sight → Bool
watch_maps timeout previous last [] = false
watch_maps timeout previous last ((now, sizes, touched) ∷ sights) =
    let at = if grew previous sizes then now else touch_of touched last in
    let more = watch_maps timeout sizes at sights in if leb timeout (now - at) then true else more

watch-watch_maps :
    (timeout : ℕ) (previous : Sizes) (last : ℕ) (looks : List Look)
    → watch timeout previous last looks
      ≡ watch_maps timeout (Quot.mk previous) last (map sight looks)
unfolding watch progress_at watch_maps
watch-watch_maps timeout previous last [] = refl
watch-watch_maps timeout previous last (look ∷ looks) = rw (any_grew-grew previous look.sizes) (
    ap
      (λ b.
        if leb timeout (
          look.now
          - (if grew (Quot.mk previous) (Quot.mk look.sizes)
              then look.now
              else touch_of look.touched last))
        then true
        else b)
      (watch-watch_maps timeout look.sizes _ looks))

-- The watchdog's verdict depends on nothing but the times, the touches and the maps from paths
-- to sizes: two courses of looks that find the same maps, held in whatever order, have the same
-- verdict.
pub watch_unordered :
    (timeout : ℕ) (previous others : Sizes) (last : ℕ) (looks again : List Look)
    → ◌≡◌ {A = FileMap} (Quot.mk previous) (Quot.mk others)
    → ◌≡◌ {A = List Sight} (map sight looks) (map sight again)
    → watch timeout previous last looks ≡ watch timeout others last again
watch_unordered timeout previous others last looks again e f =
    watch-watch_maps timeout previous last looks
    ∙ ap₂ (λ p l. watch_maps timeout p last l) e f
    ∙ sym (watch-watch_maps timeout others last again)
