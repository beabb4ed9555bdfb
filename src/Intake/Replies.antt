-- ===== src/Intake/Replies.antt =====
-- What a client is told, in any state that the agent can reach.
use mathlib.Core.Path.{ap₂}
use ffmpeg_docker_playground.Base.{
  ℕ, ◌+◌, ◌-◌, ◌<◌, ◌≡◌, refl, ap, ◌∙◌, ◌≢◌, ◌⊎◌, inl, inr, true, false, not, ◌||◌, List, [], ◌∷◌,
  ◌++◌, String, nat_eq, leb, length, contains, arith, Bool-cases, if◌then◌else◌,
}
use ffmpeg_docker_playground.Model.Job.{count}
use ffmpeg_docker_playground.Intake.{
  State, initialize, Reply, bad_request, unavailable, conflict, busy, accepted, is_closed, try_send,
  admit, Action, run,
}
use ffmpeg_docker_playground.Intake.Invariant.{
  Inv, workers, reachable-Inv, contains-count, count-pos,
}

-- Jobs whose permits are not back yet.
pub in_flight : State → ℕ
in_flight s = length s.queue + length s.running + s.releasing

-- The answer that the state calls for: nothing is said of the channel.
pub verdict : State → String → Reply
unfolding in_flight
verdict s id =
    if s.cancelled
    then unavailable
    else if not (nat_eq (count id s.queue + count id s.running) 0)
    then conflict
    else if leb s.capacity (in_flight s)
    then busy
    else accepted

pub settle : State → String → Reply → State
settle s id accepted = record s {
  jobs = id ∷ s.jobs;
  permits = s.permits - 1;
  queue = s.queue ++ id ∷ [];
}
settle s id _ = s

pub settle-cases :
    (s : State) (id : String) (reply : Reply)
    → (reply ≡ accepted) ⊎ ((reply ≢ accepted) × (settle s id reply ≡ s))
unfolding settle
settle-cases s id (bad_request message) = inr (λ e. cc, refl)
settle-cases s id unavailable = inr (λ e. cc, refl)
settle-cases s id conflict = inr (λ e. cc, refl)
settle-cases s id busy = inr (λ e. cc, refl)
settle-cases s id accepted = inl refl

contains-eq-count : (id : String) (js : List String) → contains id js ≡ not (nat_eq (count id js) 0)
contains-eq-count id js = elim (Bool-cases (contains id js)) [
  | inl e ↦ e ∙ ground (arith, count-pos id js e)
  | inr e ↦ e ∙ ground (arith, contains-count id js e)
]

module _ (concurrency : ℕ) (s : State) (v : Inv concurrency s) (staff : 0 < concurrency) where
  -- With a free permit the channel has room, and while the agent runs it has a receiver.
  sends :
      (jobs : List String) (permits : ℕ)
      → s.cancelled ≡ false
      → s.permits ≢ 0
      → (is_closed (record s { jobs = jobs; permits = permits }) || leb s.capacity (length s.queue))
        ≡ false
  unfolding is_closed workers
  sends jobs permits on free = ground (arith, v.slots, v.loyal)

  -- In a state that keeps the books, with at least one worker, a request is answered 503 exactly
  -- at shutdown; otherwise 409 exactly if the id is queued or running; otherwise 429 exactly if
  -- the capacity is used up; and otherwise 202. Only an accepted request changes the state, and
  -- it goes to the end of the queue.
  pub admit_lem : (id : String) → admit s id ≡ (verdict s id, settle s id (verdict s id))
  unfolding admit try_send verdict in_flight settle
  admit_lem id =
      let same = contains-eq-count id s.jobs in
      elim (Bool-cases s.cancelled) [
        | inl off ↦ ground (arith, off)
        | inr on ↦ elim (Bool-cases (contains id s.jobs)) [
          | inl known ↦ ground (arith, on, known, same, v.tracked id)
          | inr new ↦ elim (Bool-cases (nat_eq s.permits 0)) [
            | inl used ↦ ground (arith, on, new, used, same, v.tracked id, v.slots)
            | inr free ↦ ground (
              arith,
              on,
              new,
              free,
              same,
              v.tracked id,
              v.slots,
              sends (id ∷ s.jobs) (s.permits - 1) on (ground arith),
            )
          ]
        ]
      ]

-- Nothing is left of any job.
pub record IsDrained (s : State) : Type 0 where
  pub cancelled : s.cancelled ≡ true
  pub queue : s.queue ≡ []
  pub running : s.running ≡ []
  pub permits : s.permits ≡ s.capacity
  pub jobs : (id : String) → count id s.jobs ≡ 0

length-zero : (xs : List String) → length xs ≡ 0 → xs ≡ []
length-zero [] h = refl
length-zero (x ∷ xs) h = absurd (omega arith)

pub Inv-IsDrained :
    (concurrency : ℕ) (s : State)
    → 0 < concurrency
    → Inv concurrency s
    → workers s ≡ 0
    → IsDrained s
unfolding workers count
Inv-IsDrained concurrency s staff v gone =
    let off : (s.cancelled ≡ true) × (s.queue ≡ []) = ground (arith, v.loyal) in
    let idle : s.running ≡ [] = length-zero s.running (omega arith) in
    record {
      cancelled = off.0;
      queue = off.1;
      running = idle;
      permits = omega (arith, v.slots, ap length off.1);
      jobs = λ i. v.tracked i ∙ ap₂ (λ q r. count i q + count i r) off.1 idle;
    }

-- With at least one worker at the start, once no worker is left the agent was shut down, no job
-- is queued or running, no id is held and every permit is back.
pub shutdown-IsDrained :
    (concurrency queue : ℕ) (actions : List Action)
    → 0 < concurrency
    → workers (run (initialize concurrency queue) actions) ≡ 0
    → IsDrained (run (initialize concurrency queue) actions)
shutdown-IsDrained concurrency queue actions staff gone =
    Inv-IsDrained concurrency _ staff (reachable-Inv concurrency queue actions) gone
