-- ===== src/Agent.antt =====
-- agent/src/main.rs and agent/src/engine.rs: the jobs of an agent, each with the requests to its
-- callback, under `submit`, the rounds of `worker`, the heartbeats and the shutdown.
pub mod Cases
pub mod Moves
pub mod Invariant
pub mod Seen
pub mod Laws
pub mod Ending
pub mod Tests
use ffmpeg_docker_playground.Base.{
  ℕ, zero, suc, Bool, true, false, not, ◌&&◌, Option, none, some, List, [], ◌∷◌, ◌++◌, String, ◌==◌,
  nat_eq, if◌then◌else◌,
}
use ffmpeg_docker_playground.Model.Types.{Job}
use ffmpeg_docker_playground.Model.Endpoint.{Http}
use ffmpeg_docker_playground.Intake.{
  State, initialize, Reply, bad_request, unavailable, conflict, busy, accepted, submit, receive,
  finish, release, leave,
}
use ffmpeg_docker_playground.Engine.Life as Life
use ffmpeg_docker_playground.Engine.Wire.{Wire, begin_wire, attempts, settles, lives}
use ffmpeg_docker_playground.Engine.Wire as Wire

-- `Accepted`: the job, with its events and the requests to its callback.
pub record Case : Type 0 where
  pub job : Job
  pub wire : Wire

-- The jobs in the channel, oldest first, those in the workers' hands, and those that are over; and
-- what was answered to which id, oldest first.
pub record Agent : Type 0 where
  pub intake : State
  pub queued : List Case
  pub running : List Case
  pub done : List Case
  pub replies : List (String × Reply)

unfoldable pub start_agent : ℕ → ℕ → Agent
start_agent concurrency queue = record {
  intake = initialize concurrency queue;
  queued = [];
  running = [];
  done = [];
  replies = [];
}

-- `waits` is a step of a job in the channel, by its place, and `works` one of a job in the hands
-- of a worker.
pub data Action : Type 0 where
  admits : String → Job → Action
  finishes : String → Action
  receives releases leaves cancels : Action
  waits works : ℕ → Wire.Action → Action

-- A job in the channel has its heartbeat only; the shutdown is that of the agent.
unfoldable pub is_own : Bool → Wire.Action → Bool
is_own in_hand attempts = true
is_own in_hand settles = true
is_own in_hand (lives Life.Action.beats) = true
is_own in_hand (lives Life.Action.stops) = true
is_own in_hand (lives Life.Action.cancels) = false
is_own in_hand (lives (Life.Action.reports r)) = in_hand
is_own in_hand (lives (Life.Action.polls p)) = in_hand

unfoldable pub enqueue : Reply → Case → List Case → List Case
enqueue accepted c cs = cs ++ c ∷ []
enqueue unavailable c cs = cs
enqueue conflict c cs = cs
enqueue busy c cs = cs
enqueue (bad_request message) c cs = cs

abbrev pub put_back : Case → Option (Case × List Case) → Option (Case × List Case)
put_back c none = none
put_back c (some (d, rest)) = some (d, c ∷ rest)

-- The job with the id, and the others.
unfoldable pub take_case : String → List Case → Option (Case × List Case)
take_case id [] = none
take_case id (c ∷ cs) = if c.job.id == id then some (c, cs) else put_back c (take_case id cs)

-- The worker's round has come to its end: the transfer of the last event is over.
unfoldable pub is_over : Wire → Bool
is_over w = w.life.ended && elim w.sending [ none ↦ true | some event ↦ false ]

unfoldable pub admits_job : Http → Agent → String → Job → Agent
unfolding enqueue
admits_job h a id job =
    let (reply, s) = submit h a.intake id job in
    record a {
      intake = s;
      queued =
          enqueue reply (record { job = record job { id = id }; wire = begin_wire id }) a.queued;
      replies = a.replies ++ (id, reply) ∷ [];
    }

-- A waiting worker receives the oldest job.
unfoldable pub receives_job : Agent → Agent
receives_job a = elim a.queued [
  | [] ↦ a
  | c ∷ rest ↦
      if nat_eq a.intake.idle 0
      then a
      else record a { intake = receive a.intake; queued = rest; running = c ∷ a.running }
]

-- The id is free again only behind the transfer of the last event.
unfoldable pub finishes_job : Agent → String → Agent
unfolding take_case is_over
finishes_job a id = elim (take_case id a.running) [
  | none ↦ a
  | some (c, rest) ↦
      if is_over c.wire
      then record a { intake = finish a.intake id; running = rest; done = a.done ++ c ∷ [] }
      else a
]

module _ (lossy : List ℕ → String) where
  unfoldable pub act : Bool → Wire.Action → Case → Case
  unfolding is_own
  act in_hand action c =
      if is_own in_hand action
      then record c { wire = Wire.step lossy c.job.callback.retry c.wire action }
      else c

  unfoldable pub change : Bool → ℕ → Wire.Action → List Case → List Case
  unfolding act
  change in_hand n action [] = []
  change in_hand zero action (c ∷ cs) = act in_hand action c ∷ cs
  change in_hand (suc n) action (c ∷ cs) = c ∷ change in_hand n action cs

  -- `cancel` is one token: every job sees it.
  unfoldable pub cancel_all : List Case → List Case
  cancel_all [] = []
  cancel_all (c ∷ cs) =
      record c { wire = Wire.step lossy c.job.callback.retry c.wire (lives Life.Action.cancels) }
      ∷ cancel_all cs

module _ (h : Http) (lossy : List ℕ → String) where
  unfoldable pub step : Agent → Action → Agent
  unfolding admits_job receives_job finishes_job change cancel_all
  step a (admits id job) = admits_job h a id job
  step a (finishes id) = finishes_job a id
  step a receives = receives_job a
  step a releases = record a { intake = release a.intake }
  step a leaves = record a { intake = leave a.intake }
  step a cancels = record a {
    intake = record a.intake { cancelled = true };
    queued = cancel_all lossy a.queued;
    running = cancel_all lossy a.running;
  }
  step a (waits n action) = record a { queued = change lossy false n action a.queued }
  step a (works n action) = record a { running = change lossy true n action a.running }

  unfoldable pub run : Agent → List Action → Agent
  unfolding step
  run a [] = a
  run a (x ∷ actions) = run (step a x) actions
