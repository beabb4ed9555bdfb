-- ===== src/Intake/Shutdown.antt =====
-- The end of the agent: once it is cancelled its workers come to an end, by themselves.
use ffmpeg_docker_playground.Base.{
  ℕ, ◌+◌, ◌*◌, ◌≤◌, ◌<◌, ◌≡◌, refl, ap, ◌∙◌, ◌≢◌, ◌⊎◌, inl, inr, true, List, [], ◌∷◌, String,
  eq_refl, nat_eq, length, contains, arith, Bool-cases,
}
use ffmpeg_docker_playground.Intake.{
  State, initialize, remove, try_send, admit, receive, finish, release, leave, Action, admits,
  finishes, receives, releases, leaves, cancels, step, run,
}
use ffmpeg_docker_playground.Intake.Invariant.{workers, Inv, run-Inv, reachable-Inv}
use ffmpeg_docker_playground.Intake.Replies.{IsDrained, Inv-IsDrained}
use ffmpeg_docker_playground.Intake.Schedule.{
  IsWork, to_do, List-cases, IsSchedule, IsSchedule-bounded,
}

-- Some worker can go on, and there is then less to do.
record Goes (s : State) : Type 0 where
  action : Action
  works : IsWork action
  less : to_do (step s action) < to_do s

pub finishes_less :
    (s : State) (id : String) (rest : List String)
    → s.running ≡ id ∷ rest
    → to_do (step s (finishes id)) < to_do s
unfolding to_do step finish contains remove
finishes_less s id rest e = ground (arith, e, eq_refl id)

pub releases_less : (s : State) → s.releasing ≢ 0 → to_do (step s releases) < to_do s
unfolding to_do step release
releases_less s n = ground arith

pub receives_less :
    (s : State) (id : String) (rest : List String)
    → s.queue ≡ id ∷ rest
    → s.idle ≢ 0
    → to_do (step s receives) < to_do s
unfolding to_do step receive
receives_less s id rest e n = ground (arith, e)

pub leaves_less :
    (s : State) → s.cancelled ≡ true → s.queue ≡ [] → s.idle ≢ 0 → to_do (step s leaves) < to_do s
unfolding to_do step leave
leaves_less s off e n = ground (arith, e, off)

-- No worker waits for another: while one is left, one of them can go on.
some_can_go :
    (concurrency : ℕ) (s : State)
    → 0 < concurrency
    → Inv concurrency s
    → s.cancelled ≡ true
    → workers s ≢ 0
    → Goes s
unfolding workers
some_can_go concurrency s staff v off left = elim (List-cases s.running) [
  | inr (id, rest, e) ↦ record {
    action = finishes id;
    works = tt;
    less = finishes_less s id rest e;
  }
  | inl none_runs ↦ elim (Bool-cases (nat_eq s.releasing 0)) [
    | inr e ↦ record { action = releases; works = tt; less = releases_less s (ground arith) }
    | inl e ↦
        let waits : s.idle ≢ 0 = ground (arith, none_runs, e) in
        elim (List-cases s.queue) [
          | inl empty ↦ record { action = leaves; works = tt; less = leaves_less s off empty waits }
          | inr (id, rest, f) ↦ record {
            action = receives;
            works = tt;
            less = receives_less s id rest f waits;
          }
        ]
  ]
]

admit-cancelled : (s : State) (id : String) → (admit s id).1.cancelled ≡ s.cancelled
unfolding admit try_send
admit-cancelled s id = ground arith

pub step-cancelled : (s : State) (a : Action) → s.cancelled ≡ true → (step s a).cancelled ≡ true
unfolding step receive finish release leave
step-cancelled s (admits id) h = admit-cancelled s id ∙ h
step-cancelled s (finishes id) h = ground (arith, h)
step-cancelled s receives h = ground (arith, h)
step-cancelled s releases h = ground (arith, h)
step-cancelled s leaves h = ground (arith, h)
step-cancelled s cancels h = refl

run-cancelled :
    (s : State) (actions : List Action) → s.cancelled ≡ true → (run s actions).cancelled ≡ true
unfolding run
run-cancelled s [] h = h
run-cancelled s (a ∷ actions) h = run-cancelled (step s a) actions (step-cancelled s a h)

pub to_do-bounded :
    (concurrency : ℕ) (s : State) → Inv concurrency s → to_do s ≤ 4 * s.capacity + concurrency
unfolding to_do workers
to_do-bounded concurrency s v = omega (arith, v.slots, v.staffed)

-- A step of a worker that changes something.
pub record CanGo (s : State) : Type 0 where
  pub action : Action
  pub works : IsWork action
  pub moves : step s action ≢ s

Goes-CanGo : (s : State) → Goes s → CanGo s
Goes-CanGo s g = record {
  action = g.action;
  works = g.works;
  moves = λ e. absurd (omega (arith, g.less, ap to_do e));
}

-- With at least one worker at the start, once the agent is cancelled, steps of the workers that
-- each change something are at most four for each place of the capacity and one for each worker,
-- and behind any of them either a worker can still go on or the agent is drained: no job is
-- queued or running, no id is held and every permit is back.
pub shutdown_ends :
    (concurrency queue : ℕ) (before after : List Action)
    → 0 < concurrency
    → (let s = run (initialize concurrency queue) before in
        s.cancelled ≡ true
        → IsSchedule s after
        → (length after ≤ 4 * s.capacity + concurrency)
          × (CanGo (run s after) ⊎ IsDrained (run s after)))
shutdown_ends concurrency queue before after staff off h =
    let s = run (initialize concurrency queue) before in
    let t = run s after in
    let books = reachable-Inv concurrency queue before in
    let v = run-Inv concurrency s after books in
    (
      omega (arith, IsSchedule-bounded s after h, to_do-bounded concurrency s books),
      elim (Bool-cases (nat_eq (workers t) 0)) [
        | inl gone ↦ inr (Inv-IsDrained concurrency t staff v (ground (arith, gone)))
        | inr left ↦ inl (
            Goes-CanGo t (
              some_can_go concurrency t staff v (run-cancelled s after off) (ground (arith, left))))
      ],
    )
