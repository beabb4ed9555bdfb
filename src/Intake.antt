-- ===== src/Intake.antt =====
-- agent/src/main.rs: `submit`; agent/src/engine.rs: the slots, the channel and the workers that
-- take jobs from it. The runtime has one thread, so what stands between two awaits is one step.
pub mod Invariant
pub mod Replies
pub mod Held
pub mod Schedule
pub mod Shutdown
pub mod Tests
use ffmpeg_docker_playground.Base.{
  ℕ, zero, suc, ◌+◌, ◌-◌, Bool, true, false, not, ◌&&◌, ◌||◌, List, [], ◌∷◌, ◌++◌, String, ◌==◌,
  ltb, leb, nat_eq, length, is_empty, contains, Result, ok, err, if◌then◌else◌,
}
use ffmpeg_docker_playground.Model.Types.{Job}
use ffmpeg_docker_playground.Model.Endpoint.{Http, Invalid}
use ffmpeg_docker_playground.Model.Job.{validate}

-- The shared state: the ids in flight, the free permits of the semaphore, the channel, oldest
-- first, the jobs in the workers' hands, workers that have let go of a job's id and not yet of its
-- permit, and workers that wait.
pub record State : Type 0 where
  pub capacity : ℕ
  pub cancelled : Bool
  pub jobs : List String
  pub permits : ℕ
  pub queue : List String
  pub running : List String
  pub releasing : ℕ
  pub idle : ℕ

-- `initialize`: as many permits as the channel has places, for `concurrency` workers.
unfoldable pub initialize : ℕ → ℕ → State
initialize concurrency queue = record {
  capacity = concurrency + queue;
  cancelled = false;
  jobs = [];
  permits = concurrency + queue;
  queue = [];
  running = [];
  releasing = 0;
  idle = concurrency;
}

pub data Reply : Type 0 where
  bad_request : Invalid → Reply
  unavailable conflict busy accepted : Reply

-- `HashSet::remove`
unfoldable pub remove : String → List String → List String
remove id [] = []
remove id (j ∷ js) = if j == id then js else j ∷ remove id js

-- The receiver is dropped with the last worker.
unfoldable pub is_closed : State → Bool
is_closed s = nat_eq s.idle 0 && is_empty s.running && nat_eq s.releasing 0

-- `try_send`, with the permit in hand and the id registered; on failure both are given back.
unfoldable pub try_send : State → String → Reply × State
unfolding is_closed remove
try_send s id =
    if is_closed s || leb s.capacity (length s.queue)
    then (unavailable, record s { jobs = remove id s.jobs; permits = s.permits + 1 })
    else (accepted, record s { queue = s.queue ++ id ∷ [] })

-- `submit`, from the validated job on.
unfoldable pub admit : State → String → Reply × State
unfolding try_send
admit s id =
    if s.cancelled
    then (unavailable, s)
    else if contains id s.jobs
    then (conflict, s)
    else if nat_eq s.permits 0
    then (busy, s)
    else try_send (record s { permits = s.permits - 1; jobs = id ∷ s.jobs }) id

unfoldable pub submit : Http → State → String → Job → Reply × State
unfolding admit
submit h s id job = elim (validate h (record job { id = id })) [
  | err message ↦ (bad_request message, s)
  | ok _ ↦ admit s id
]

-- A waiting worker receives the oldest job.
unfoldable pub receive : State → State
receive s = elim s.queue [
  | [] ↦ s
  | id ∷ rest ↦
      if nat_eq s.idle 0
      then s
      else record s { queue = rest; running = id ∷ s.running; idle = s.idle - 1 }
]

-- The end of the worker's round: the id is free again, then the permit.
unfoldable pub finish : State → String → State
unfolding remove
finish s id =
    if contains id s.running
    then record s {
      jobs = remove id s.jobs;
      running = remove id s.running;
      releasing = s.releasing + 1;
    }
    else s

unfoldable pub release : State → State
release s =
    if nat_eq s.releasing 0
    then s
    else record s { permits = s.permits + 1; releasing = s.releasing - 1; idle = s.idle + 1 }

-- `try_recv().ok()` gives nothing: a worker ends once the agent shuts down and the queue is empty.
unfoldable pub leave : State → State
leave s =
    if s.cancelled && is_empty s.queue && not (nat_eq s.idle 0)
    then record s { idle = s.idle - 1 }
    else s

pub data Action : Type 0 where
  admits finishes : String → Action
  receives releases leaves cancels : Action

unfoldable pub step : State → Action → State
step s (admits id) = (admit s id).1
step s (finishes id) = finish s id
step s receives = receive s
step s releases = release s
step s leaves = leave s
step s cancels = record s { cancelled = true }

unfoldable pub run : State → List Action → State
unfolding step
run s [] = s
run s (a ∷ actions) = run (step s a) actions
