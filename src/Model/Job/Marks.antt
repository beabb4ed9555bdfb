-- ===== src/Model/Job/Marks.antt =====
-- Counts and positions of one argument in a list of arguments.
use native.Mathlib.Nat.{add-zero}
use ffmpeg_docker_playground.Base.{
  ℕ, suc, ◌+◌, ◌-◌, ◌≡◌, refl, ap, ◌≢◌, inl, inr, true, List, [], ◌∷◌, ◌++◌, String, ◌==◌, eq_iff,
  eq_refl, length, arith, All, Bool-cases,
}
use ffmpeg_docker_playground.Model.Job.{positions, count, ends_with, stands_at}

pub count-append : (s : String) (xs ys : List String) → count s (xs ++ ys) ≡ count s xs + count s ys
unfolding count
count-append s [] ys = omega arith
count-append s (x ∷ xs) ys = ground (arith, count-append s xs ys)

pub All-ne_of_count : (s : String) (xs : List String) → count s xs ≡ 0 → All (λ a. a ≢ s) xs
unfolding count
All-ne_of_count s [] h = tt
All-ne_of_count s (x ∷ xs) h =
    ((λ e. ground (arith, (eq_iff x s).1 e)), All-ne_of_count s xs (ground arith))

pub count_of_All-ne : (s : String) (xs : List String) → All (λ a. a ≢ s) xs → count s xs ≡ 0
unfolding count
count_of_All-ne s [] h = refl
count_of_All-ne s (x ∷ xs) (n, h) = ground (arith, eq_iff x s, count_of_All-ne s xs h)

pub positions-append :
    (s : String) (k : ℕ) (xs ys : List String)
    → positions s k (xs ++ ys) ≡ positions s k xs ++ positions s (k + length xs) ys
unfolding positions
positions-append s k [] ys = rw add-zero
positions-append s k (x ∷ xs) ys =
    let shift : k + suc (length xs) ≡ suc k + length xs = omega arith in
    rw shift (ground (arith, positions-append s (suc k) xs ys))

pub positions-none :
    (s : String) (k : ℕ) (args : List String) → positions s k args ≡ [] → count s args ≡ 0
unfolding positions count
positions-none s k [] h = refl
positions-none s k (a ∷ args) h = ground (arith, positions-none s (suc k) args)

pub positions-one :
    (s : String) (k i : ℕ) (args : List String)
    → positions s k args ≡ i ∷ []
    → (pre : List String) × (post : List String) × (args ≡ pre ++ s ∷ post)
      × (i ≡ k + length pre)
      × (count s pre ≡ 0)
      × (count s post ≡ 0)
unfolding positions count
positions-one s k i [] h = cc
positions-one s k i (a ∷ args) h = elim (Bool-cases (a == s)) [
  | inl e ↦ (
    [],
    args,
    ap (λ t. t ∷ args) ((eq_iff a s).0 e),
    ground (arith, e),
    refl,
    positions-none s (suc k) args (ground (arith, e)),
  )
  | inr e ↦
      let (pre, post, whole, index, before, after) =
        positions-one s (suc k) i args (ground (arith, e)) in
      (a ∷ pre, post, ap (λ t. a ∷ t) whole, omega (arith, index), rw e before, after)
]

pub snoc_of_stands_at :
    (s : String) (pre rest : List String)
    → pre ≢ []
    → stands_at s (length pre - 1) (pre ++ rest) ≡ true
    → (before : List String) × (pre ≡ before ++ s ∷ [])
unfolding stands_at
snoc_of_stands_at s [] rest n h = absurd (n refl)
snoc_of_stands_at s (a ∷ []) rest n h = ([], ap (λ t. t ∷ []) ((eq_iff a s).0 h))
snoc_of_stands_at s (a ∷ b ∷ pre) rest n h =
    let less : suc (suc (length pre)) - 1 ≡ suc (suc (length pre) - 1) = omega arith in
    let (before, e) = snoc_of_stands_at s (b ∷ pre) rest (λ e. cc) (rw less at h) in
    (a ∷ before, ap (λ t. a ∷ t) e)

pub snoc_of_ends_with :
    (s a : String) (args : List String)
    → ends_with s (a ∷ args) ≡ true
    → (init : List String) × (a ∷ args ≡ init ++ s ∷ [])
unfolding ends_with
snoc_of_ends_with s a [] h = ([], ap (λ t. t ∷ []) ((eq_iff a s).0 h))
snoc_of_ends_with s a (b ∷ args) h =
    let (init, e) = snoc_of_ends_with s b args h in (a ∷ init, ap (λ t. a ∷ t) e)

pub ends_with-append :
    (s a : String) (xs ys : List String) → ends_with s (xs ++ a ∷ ys) ≡ ends_with s (a ∷ ys)
unfolding ends_with
ends_with-append s a [] ys = refl
ends_with-append s a (x ∷ []) ys = refl
ends_with-append s a (x ∷ y ∷ xs) ys = ends_with-append s a (y ∷ xs) ys

pub stands_at-append :
    (s : String) (xs ys : List String) → stands_at s (length xs) (xs ++ s ∷ ys) ≡ true
unfolding stands_at
stands_at-append s [] ys = eq_refl s
stands_at-append s (x ∷ xs) ys = stands_at-append s xs ys

pub positions_of_count-zero :
    (s : String) (k : ℕ) (args : List String) → count s args ≡ 0 → positions s k args ≡ []
unfolding positions count
positions_of_count-zero s k [] h = refl
positions_of_count-zero s k (a ∷ args) h = ground (arith, positions_of_count-zero s (suc k) args)
