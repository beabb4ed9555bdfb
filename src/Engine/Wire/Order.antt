-- ===== src/Engine/Wire/Order.antt =====
-- Lists of places: their order, their bound, and how often a place is in one.
use ffmpeg_docker_playground.Base.{
  ℕ, suc, ◌+◌, ◌≤◌, ◌<◌, ◌≡◌, refl, List, [], ◌∷◌, ◌++◌, All, All-append, nat_eq, arith,
  if◌then◌else◌,
}

-- Never back.
abbrev pub IsSorted : List ℕ → Type 0
IsSorted [] = Unit
IsSorted (i ∷ is) = All (λ j. i ≤ j) is × IsSorted is

-- How often a place is in a list.
unfoldable pub copies : ℕ → List ℕ → ℕ
copies i [] = 0
copies i (j ∷ js) = (if nat_eq j i then 1 else 0) + copies i js

All-le-append :
    (i : ℕ) (is : List ℕ) (j : ℕ) → All (λ n. i ≤ n) is → i ≤ j → All (λ n. i ≤ n) (is ++ j ∷ [])
All-le-append i is j h le = All-append (λ n. i ≤ n) is (j ∷ []) h (le, tt)

pub append-IsSorted :
    (is : List ℕ) (j : ℕ) → IsSorted is → All (λ i. i ≤ j) is → IsSorted (is ++ j ∷ [])
append-IsSorted [] j s h = (tt, tt)
append-IsSorted (i ∷ is) j (below, s) (le, h) =
    (All-le-append i is j below le, append-IsSorted is j s h)

pub copies-append :
    (i : ℕ) (is : List ℕ) (j : ℕ) → copies i (is ++ j ∷ []) ≡ copies i is + copies i (j ∷ [])
unfolding copies
copies-append i [] j = omega arith
copies-append i (k ∷ is) j = omega (arith, copies-append i is j)

-- A place beyond the end has no copy.
pub copies_none : (n : ℕ) (is : List ℕ) → All (λ i. i < n) is → copies n is ≡ 0
unfolding copies
copies_none n [] h = refl
copies_none n (i ∷ is) (lt, h) = ground (arith, copies_none n is h)

pub All-weaken : (n m : ℕ) (is : List ℕ) → n ≤ m → All (λ i. i < n) is → All (λ i. i < m) is
All-weaken n m [] le h = tt
All-weaken n m (i ∷ is) le (lt, h) = (omega arith, All-weaken n m is le h)

pub All-before : (n : ℕ) (is : List ℕ) → All (λ i. i < suc n) is → All (λ i. i ≤ n) is
All-before n [] h = tt
All-before n (i ∷ is) (lt, h) = (omega arith, All-before n is h)
