-- ===== src/Engine/Life.antt =====
-- agent/src/engine.rs: one job in the hands of `worker` and of its `heartbeat`, with the events that
-- `notify` makes of it. What stands between two awaits is one action.
pub mod Laws
pub mod Truth
pub mod Tests
use ffmpeg_docker_playground.Base.{
  ℕ, Bool, true, false, not, ◌&&◌, ◌||◌, Option, none, some, List, [], ◌∷◌, ◌++◌, String, nat_eq,
  Result, ok, err, if◌then◌else◌,
}
use ffmpeg_docker_playground.Model.Types.{Event}
use ffmpeg_docker_playground.Model.Types as Types
use ffmpeg_docker_playground.Engine.Notify.{Active, next_sequence, event_of}

-- The events so far, oldest first; whether the heartbeat runs, and whether the worker's round is
-- over.
pub record Life : Type 0 where
  pub active : Active
  pub cancelled : Bool
  pub beating : Bool
  pub ended : Bool
  pub sent : List Event

abbrev pub no_outcome : Types.Outcome
no_outcome = record { error = none; ffmpeg_exit_code = none; upload_response = none }

-- The job as `submit` makes it, with its heartbeat.
unfoldable pub begin : String → Life
begin id = record {
  active = record {
    id = id;
    sequence = 0;
    phase = "queued";
    outcome = no_outcome;
    log = [];
    log_tail = [];
  };
  cancelled = false;
  beating = true;
  ended = false;
  sent = [];
}

-- What the branches of the worker's `select!` have to say, in its order, when it is polled: the
-- deadline counts only if there is one.
pub record Poll : Type 0 where
  pub job_timeout : ℕ
  pub elapsed : Bool
  pub stalled : Bool
  pub executed : Option (Result String (Unit {0}))

unfoldable pub select : Bool → Poll → Option (Result String (Unit {0}))
select cancelled p =
    if cancelled
    then some (err "agent shutting down")
    else if not (nat_eq p.job_timeout 0) && p.elapsed
    then some (err "job deadline exceeded")
    else if p.stalled
    then some (err "job progress stalled")
    else p.executed

abbrev pub error_of : Result String (Unit {0}) → Option String
error_of (ok _) = none
error_of (err message) = some message

abbrev pub last_phase : Result String (Unit {0}) → String
last_phase (ok _) = "succeeded"
last_phase (err message) = "failed"

-- `progress.phase` and `progress.outcome.error`
abbrev pub settle : Active → Result String (Unit {0}) → Active
settle a result = record a {
  phase = last_phase result;
  outcome = record a.outcome { error = error_of result };
}

-- What `execute` may write while it runs.
pub record Report : Type 0 where
  pub phase : String
  pub outcome : Types.Outcome
  pub log : List ℕ
  pub log_tail : List ℕ

pub data Action : Type 0 where
  beats stops cancels : Action
  reports : Report → Action
  polls : Poll → Action

module _ (lossy : List ℕ → String) where
  -- `notify`, up to the transfer.
  unfoldable pub emit : Bool → Life → Life
  unfolding event_of next_sequence
  emit terminal s = record s {
    active = next_sequence s.active;
    sent = s.sent ++ event_of lossy s.active terminal ∷ [];
  }

  -- The end of the round: the heartbeat is stopped before the last event is made.
  unfoldable pub finish : Result String (Unit {0}) → Life → Life
  unfolding emit
  finish result s =
      emit true (record s { active = settle s.active result; beating = false; ended = true })

  unfoldable pub step : Life → Action → Life
  unfolding finish select
  step s beats = if s.beating then emit false s else s
  step s stops = if s.cancelled then record s { beating = false } else s
  step s cancels = record s { cancelled = true }
  step s (reports r) = if s.ended then s else record s {
    active = record s.active {
      phase = r.phase;
      outcome = r.outcome;
      log = r.log;
      log_tail = r.log_tail;
    };
  }
  step s (polls p) =
      if s.ended
      then s
      else elim (select s.cancelled p) [ none ↦ s | some result ↦ finish result s ]

  unfoldable pub run : Life → List Action → Life
  unfolding step
  run s [] = s
  run s (a ∷ actions) = run (step s a) actions
