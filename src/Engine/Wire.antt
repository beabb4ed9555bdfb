-- ===== src/Engine/Wire.antt =====
-- agent/src/engine.rs: the requests to the callback of one job, as they leave the agent: `notify`
-- with its attempts under `heartbeat` and `worker`. One event is on its way at a time: the heartbeat
-- waits for its own, and the worker cuts it off before it sends the last.
pub mod Order
pub mod Told
pub mod Laws
pub mod Tests
use ffmpeg_docker_playground.Base.{
  ℕ, zero, suc, ◌-◌, Bool, true, false, Option, none, some, List, [], ◌∷◌, ◌++◌, String, length,
  Result, if◌then◌else◌,
}
use ffmpeg_docker_playground.Model.Types.{Retry}
use ffmpeg_docker_playground.Engine.Notify.{attempts_of}
use ffmpeg_docker_playground.Engine.Life.{Life, Poll, Report, begin, select, emit, finish}
use ffmpeg_docker_playground.Engine.Life as Life

-- The event on its way, by its place among the events of the job, with the attempts that are left;
-- and the places of the events in the requests made so far, oldest first.
pub record Wire : Type 0 where
  pub life : Life
  pub sending : Option (ℕ × ℕ)
  pub requests : List ℕ

unfoldable pub begin_wire : String → Wire
begin_wire id = record { life = begin id; sending = none; requests = [] }

-- `attempts` is one request of the loop in `notify`, and `settles` its `return`: an answer that ends
-- it.
pub data Action : Type 0 where
  attempts settles : Action
  lives : Life.Action → Action

-- One more request, while attempts are left.
unfoldable pub attempt : Option (ℕ × ℕ) → Wire → Wire
attempt none w = w
attempt (some (i, zero)) w = record w { sending = none }
attempt (some (i, suc left)) w = record w {
  sending = some (i, left);
  requests = w.requests ++ i ∷ [];
}

module _ (lossy : List ℕ → String) (retry : Option Retry) where
  -- An event is made, and is on its way.
  unfoldable pub launch : Bool → Life → Wire → Wire
  launch terminal life w = record w {
    life = life;
    sending = some (length w.life.sent, attempts_of terminal retry);
  }

  -- A tick of the heartbeat, which waits for its event first.
  unfoldable pub beat : Option (ℕ × ℕ) → Wire → Wire
  unfolding launch
  beat none w = if w.life.beating then launch false (emit lossy false w.life) w else w
  beat (some busy) w = w

  unfoldable pub conclude : Option (Result String (Unit {0})) → Wire → Wire
  unfolding launch
  conclude none w = w
  conclude (some result) w = launch true (finish lossy result w.life) w

  -- What neither beats nor polls makes no event.
  abbrev pub live : Life.Action → Wire → Wire
  live a w = record w { life = Life.step lossy w.life a }

  -- The heartbeat sees the cancellation behind its event.
  unfoldable pub halt : Option (ℕ × ℕ) → Wire → Wire
  halt none w = live Life.Action.stops w
  halt (some busy) w = w

  unfoldable pub step : Wire → Action → Wire
  unfolding attempt beat conclude halt
  step w attempts = attempt w.sending w
  step w settles = record w { sending = none }
  step w (lives Life.Action.beats) = beat w.sending w
  step w (lives (Life.Action.polls p)) =
      if w.life.ended then w else conclude (select w.life.cancelled p) w
  step w (lives Life.Action.stops) = halt w.sending w
  step w (lives Life.Action.cancels) = live Life.Action.cancels w
  step w (lives (Life.Action.reports r)) = live (Life.Action.reports r) w

  unfoldable pub run : Wire → List Action → Wire
  unfolding step
  run w [] = w
  run w (a ∷ actions) = run (step w a) actions
