-- ===== src/Intake/Schedule.antt =====
-- Steps of the workers alone: each leaves less to do.
use ffmpeg_docker_playground.Base.{
  ℕ, ◌+◌, ◌*◌, ◌≤◌, ◌<◌, ◌≡◌, refl, ◌≢◌, ◌⊎◌, inl, inr, true, not, ◌&&◌, List, [], ◌∷◌, String,
  nat_eq, is_empty, length, contains, arith, Bool-cases,
}
use ffmpeg_docker_playground.Intake.{
  State, receive, finish, release, leave, Action, admits, finishes, receives, releases, leaves,
  cancels, step,
}
use ffmpeg_docker_playground.Intake.Invariant.{length-remove}

-- The steps of the workers.
abbrev pub IsWork : Action → Type 0
IsWork (admits id) = ⊥
IsWork cancels = ⊥
IsWork (finishes id) = Unit
IsWork receives = Unit
IsWork releases = Unit
IsWork leaves = Unit

-- What the workers have left to do at most.
unfoldable pub to_do : State → ℕ
to_do s = 4 * length s.queue + 3 * length s.running + 2 * s.releasing + s.idle

pub List-cases :
    (xs : List String) → (xs ≡ []) ⊎ ((x : String) × (rest : List String) × (xs ≡ x ∷ rest))
List-cases [] = inl refl
List-cases (x ∷ xs) = inr (x, xs, refl)

-- Steps of the workers, each of which changes something.
pub data IsSchedule : State → List Action → Type 0 where
  over : (s : State) → IsSchedule s []
  step_by :
      (s : State) (a : Action) (actions : List Action)
      → IsWork a
      → step s a ≢ s
      → IsSchedule (step s a) actions
      → IsSchedule s (a ∷ actions)

receive-none : (s : State) → s.queue ≡ [] → receive s ≡ s
unfolding receive
receive-none s e = simp (e, receive)

receive-full :
    (s : State) {id : String} {rest : List String}
    → s.queue ≡ id ∷ rest
    → nat_eq s.idle 0 ≡ true
    → receive s ≡ s
unfolding receive
receive-full s e f = simp (e, f, receive)

receive-less : (s : State) → receive s ≢ s → to_do (receive s) < to_do s
unfolding to_do receive
receive-less s n = elim (List-cases s.queue) [
  | inl e ↦ absurd (n (receive-none s e))
  | inr (id, rest, e) ↦ elim (Bool-cases (nat_eq s.idle 0)) [
    | inl f ↦ absurd (n (receive-full s e f))
    | inr f ↦ ground (arith, e, f)
  ]
]

finish-less : (s : State) (id : String) → finish s id ≢ s → to_do (finish s id) < to_do s
unfolding to_do finish
finish-less s id n = elim (Bool-cases (contains id s.running)) [
  | inr e ↦ absurd (n (rw (e, finish) refl))
  | inl e ↦ ground (arith, e, length-remove id s.running e)
]

release-less : (s : State) → release s ≢ s → to_do (release s) < to_do s
unfolding to_do release
release-less s n = elim (Bool-cases (nat_eq s.releasing 0)) [
  | inl e ↦ absurd (n (rw (e, release) refl))
  | inr e ↦ ground (arith, e)
]

leave-less : (s : State) → leave s ≢ s → to_do (leave s) < to_do s
unfolding to_do leave
leave-less s n = elim (Bool-cases (s.cancelled && is_empty s.queue && not (nat_eq s.idle 0))) [
  | inr e ↦ absurd (n (rw (e, leave) refl))
  | inl e ↦ ground (arith, e)
]

step-less : (s : State) (a : Action) → IsWork a → step s a ≢ s → to_do (step s a) < to_do s
unfolding step
step-less s (admits id) w n = absurd w
step-less s cancels w n = absurd w
step-less s receives w n = receive-less s n
step-less s (finishes id) w n = finish-less s id n
step-less s releases w n = release-less s n
step-less s leaves w n = leave-less s n

pub IsSchedule-bounded :
    (s : State) (actions : List Action) → IsSchedule s actions → length actions ≤ to_do s
IsSchedule-bounded s [] h = omega arith
IsSchedule-bounded s (a ∷ actions) (step_by _ _ _ w n h) =
    omega (arith, step-less s a w n, IsSchedule-bounded (step s a) actions h)
