-- ===== src/Agent/Seen.antt =====
-- The jobs that are not over see the shutdown of their agent.
use ffmpeg_docker_playground.Base.{
  ℕ, ◌≡◌, refl, sym, ◌∙◌, inl, inr, Bool, true, false, Option, none, some, List, [], ◌∷◌, String,
  Result, Result-cases, Bool-cases, All, arith, zero, suc, subst, nat_eq,
}
use ffmpeg_docker_playground.Model.Types.{Job}
use ffmpeg_docker_playground.Model.Endpoint.{Http}
use ffmpeg_docker_playground.Model.Job.{validate}
use ffmpeg_docker_playground.Intake.{
  State, accepted, try_send, admit, submit, receive, release, leave,
}
use ffmpeg_docker_playground.Intake as Intake
use ffmpeg_docker_playground.Engine.Life.{Poll, select, emit, finish, begin}
use ffmpeg_docker_playground.Engine.Life as Life
use ffmpeg_docker_playground.Engine.Wire.{
  Wire, begin_wire, attempt, beat, conclude, halt, launch, attempts, settles, lives,
}
use ffmpeg_docker_playground.Engine.Wire as Wire
use ffmpeg_docker_playground.Agent.{
  Case, Agent, start_agent, Action, admits, finishes, receives, releases, leaves, cancels, waits,
  works, is_own, is_over, take_case, admits_job, receives_job, finishes_job, act, cancel_all, step,
  run,
}
use ffmpeg_docker_playground.Agent.Cases.{enqueue-All, change-All, Taken, take_case-Taken}

pub submit-cancelled :
    (h : Http) (s : State) (id : String) (job : Job) → (submit h s id job).1.cancelled ≡ s.cancelled
unfolding submit admit try_send
submit-cancelled h s id job = elim (Result-cases (validate h (record job { id = id }))) [
  | inr (bad, e) ↦ rw (e, submit) refl
  | inl (_, e) ↦ rw (e, submit) (ground arith)
]

-- A job is only accepted while the agent runs.
submit-open :
    (h : Http) (s : State) (id : String) (job : Job)
    → (submit h s id job).0 ≡ accepted
    → s.cancelled ≡ false
unfolding submit admit try_send
submit-open h s id job a = elim (Bool-cases s.cancelled) [
  | inr e ↦ e
  | inl e ↦ elim (Result-cases (validate h (record job { id = id }))) [
    | inr (bad, f) ↦ absurd (ground (arith, a, f))
    | inl (_, f) ↦ absurd (ground (arith, a, e, f))
  ]
]

module _ (lossy : List ℕ → String) where
  attempt-cancelled :
      (o : Option (ℕ × ℕ)) (w : Wire) → (attempt o w).life.cancelled ≡ w.life.cancelled
  unfolding attempt
  attempt-cancelled none w = refl
  attempt-cancelled (some (i, zero)) w = refl
  attempt-cancelled (some (i, suc left)) w = refl

  beat-cancelled :
      (c : Case) (o : Option (ℕ × ℕ)) (w : Wire)
      → (beat lossy c.job.callback.retry o w).life.cancelled ≡ w.life.cancelled
  unfolding beat launch emit
  beat-cancelled c none w = ground arith
  beat-cancelled c (some event) w = refl

  halt-cancelled :
      (c : Case) (o : Option (ℕ × ℕ)) (w : Wire)
      → (halt lossy c.job.callback.retry o w).life.cancelled ≡ w.life.cancelled
  unfolding halt Life.step
  halt-cancelled c none w = ground arith
  halt-cancelled c (some event) w = refl

  conclude-cancelled :
      (c : Case) (o : Option (Result String (Unit {0}))) (w : Wire)
      → (conclude lossy c.job.callback.retry o w).life.cancelled ≡ w.life.cancelled
  unfolding conclude launch finish emit
  conclude-cancelled c none w = refl
  conclude-cancelled c (some result) w = refl

  act-cancelled :
      (in_hand : Bool) (x : Wire.Action) (c : Case)
      → (act lossy in_hand x c).wire.life.cancelled ≡ c.wire.life.cancelled
  unfolding act is_own Wire.step Life.step
  act-cancelled in_hand attempts c = attempt-cancelled c.wire.sending c.wire
  act-cancelled in_hand settles c = refl
  act-cancelled in_hand (lives Life.Action.beats) c = beat-cancelled c c.wire.sending c.wire
  act-cancelled in_hand (lives Life.Action.stops) c = halt-cancelled c c.wire.sending c.wire
  act-cancelled in_hand (lives Life.Action.cancels) c = refl
  act-cancelled in_hand (lives (Life.Action.reports r)) c = ground arith
  act-cancelled in_hand (lives (Life.Action.polls p)) c =
      ground (arith, conclude-cancelled c (select c.wire.life.cancelled p) c.wire)

  abbrev pub Sees : Bool → Case → Type 0
  Sees b c = c.wire.life.cancelled ≡ b

  pub record Seen (a : Agent) : Type 0 where
    pub queued : All (Sees a.intake.cancelled) a.queued
    pub running : All (Sees a.intake.cancelled) a.running

  cancel_all-Sees : (cs : List Case) → All (Sees true) (cancel_all lossy cs)
  unfolding cancel_all Wire.step Life.step
  cancel_all-Sees [] = tt
  cancel_all-Sees (c ∷ cs) = (refl, cancel_all-Sees cs)

  All-Sees : {b d : Bool} (cs : List Case) → b ≡ d → All (Sees b) cs → All (Sees d) cs
  All-Sees cs e h = subst (λ b. All (Sees b) cs) e h

  act-Sees :
      (in_hand : Bool) (x : Wire.Action) (b : Bool) (c : Case)
      → Sees b c
      → Sees b (act lossy in_hand x c)
  act-Sees in_hand x b c e = act-cancelled in_hand x c ∙ e

  receive-cancelled : (s : State) → (receive s).cancelled ≡ s.cancelled
  unfolding receive
  receive-cancelled s = ground arith

  finish-cancelled : (s : State) (id : String) → (Intake.finish s id).cancelled ≡ s.cancelled
  unfolding Intake.finish
  finish-cancelled s id = ground arith

  receives_job-Seen : (a : Agent) → Seen a → Seen (receives_job a)
  unfolding receives_job
  receives_job-Seen a v = from a.queued refl v.queued
    where
      from :
          (cs : List Case)
          → a.queued ≡ cs
          → All (Sees a.intake.cancelled) cs
          → Seen (receives_job a)
      from [] e t = rw (e, receives_job) v
      from (c ∷ rest) e (t, ts) = elim (Bool-cases (nat_eq a.intake.idle 0)) [
        | inl none_waits ↦ rw (e, none_waits, receives_job) v
        | inr some_idle ↦
            let same = sym (receive-cancelled a.intake) in
            rw (e, some_idle, receives_job)
              (record {
                queued = All-Sees rest same ts;
                running = All-Sees (c ∷ a.running) same (t, v.running);
              })
      ]

  finishes_job-Seen : (a : Agent) (id : String) → Seen a → Seen (finishes_job a id)
  unfolding finishes_job
  finishes_job-Seen a id v =
      from (take_case id a.running) refl
        (take_case-Taken (Sees a.intake.cancelled) id a.running v.running)
    where
      from :
          (o : Option (Case × List Case))
          → take_case id a.running ≡ o
          → Taken (Sees a.intake.cancelled) id a.running o
          → Seen (finishes_job a id)
      from none e t = rw (e, finishes_job) v
      from (some (c, rest)) e (out, t, ts) = elim (Bool-cases (is_over c.wire)) [
        | inr still ↦ rw (e, still, finishes_job) v
        | inl over ↦
            let same = sym (finish-cancelled a.intake id) in
            rw (e, over, finishes_job)
              (record { queued = All-Sees a.queued same v.queued; running = All-Sees rest same ts })
      ]

  module _ (h : Http) where
    admits_job-Seen : (a : Agent) (id : String) (job : Job) → Seen a → Seen (admits_job h a id job)
    unfolding admits_job begin_wire begin
    admits_job-Seen a id job v =
        let same = sym (submit-cancelled h a.intake id job) in
        record {
          queued =
              enqueue-All (Sees (submit h a.intake id job).1.cancelled) (submit h a.intake id job).0
                _ a.queued (λ e. sym (submit-open h a.intake id job e) ∙ same)
                (All-Sees a.queued same v.queued);
          running = All-Sees a.running same v.running;
        }

    step-Seen : (a : Agent) (x : Action) → Seen a → Seen (step h lossy a x)
    unfolding step release leave
    step-Seen a (admits id job) v = admits_job-Seen a id job v
    step-Seen a (finishes id) v = finishes_job-Seen a id v
    step-Seen a receives v = receives_job-Seen a v
    step-Seen a releases v =
        let same : a.intake.cancelled ≡ (release a.intake).cancelled = ground arith in
        record {
          queued = All-Sees a.queued same v.queued;
          running = All-Sees a.running same v.running;
        }
    step-Seen a leaves v =
        let same : a.intake.cancelled ≡ (leave a.intake).cancelled = ground arith in
        record {
          queued = All-Sees a.queued same v.queued;
          running = All-Sees a.running same v.running;
        }
    step-Seen a cancels v = record {
      queued = cancel_all-Sees a.queued;
      running = cancel_all-Sees a.running;
    }
    step-Seen a (waits n x) v = record {
      queued =
          change-All lossy (Sees a.intake.cancelled) false x (act-Sees false x a.intake.cancelled) n
            a.queued v.queued;
      running = v.running;
    }
    step-Seen a (works n x) v = record {
      queued = v.queued;
      running =
          change-All lossy (Sees a.intake.cancelled) true x (act-Sees true x a.intake.cancelled) n
            a.running v.running;
    }

    pub run-Seen : (a : Agent) (actions : List Action) → Seen a → Seen (run h lossy a actions)
    unfolding run
    run-Seen a [] v = v
    run-Seen a (x ∷ actions) v = run-Seen (step h lossy a x) actions (step-Seen a x v)

    pub start_agent-Seen : (concurrency queue : ℕ) → Seen (start_agent concurrency queue)
    unfolding start_agent
    start_agent-Seen concurrency queue = record { queued = tt; running = tt }
