-- ===== src/Agent/Ending.antt =====
-- Behind the shutdown, all that was promised comes to its end.
use ffmpeg_docker_playground.Base.{
  ℕ, ◌*◌, ◌≤◌, ◌<◌, ◌≡◌, true, false, none, List, [], ◌∷◌, String, length, All,
}
use ffmpeg_docker_playground.Model.Endpoint.{Http}
use ffmpeg_docker_playground.Intake.{release, leave}
use ffmpeg_docker_playground.Intake as Intake
use ffmpeg_docker_playground.Intake.Invariant.{workers}
use ffmpeg_docker_playground.Intake.Schedule.{to_do}
use ffmpeg_docker_playground.Engine.Life.{Poll}
use ffmpeg_docker_playground.Engine.Life as Life
use ffmpeg_docker_playground.Engine.Wire.{Wire, settles, lives}
use ffmpeg_docker_playground.Engine.Wire as Wire
use ffmpeg_docker_playground.Agent.{
  Case, Agent, Action, admits, cancels, waits, finishes, receives, releases, leaves, works, act,
  run,
}
use ffmpeg_docker_playground.Agent.Seen.{Seen}

-- The worker looks at its `select!` once more.
abbrev look : Poll
look = record { job_timeout = 0; elapsed = false; stalled = false; executed = none }

-- A step of a worker's own: a reception, the return of a permit, its leaving, the end of a round,
-- the end of a transfer, and a look at the `select!` that finds nothing but the shutdown. No
-- request, signal, heartbeat or report comes from elsewhere.
abbrev pub IsWork : Action → Type 0
IsWork (admits id job) = ⊥
IsWork (finishes id) = Unit
IsWork receives = Unit
IsWork releases = Unit
IsWork leaves = Unit
IsWork cancels = ⊥
IsWork (waits n action) = ⊥
IsWork (works n Wire.Action.attempts) = ⊥
IsWork (works n Wire.Action.settles) = Unit
IsWork (works n (Wire.Action.lives Life.Action.beats)) = ⊥
IsWork (works n (Wire.Action.lives Life.Action.stops)) = ⊥
IsWork (works n (Wire.Action.lives Life.Action.cancels)) = ⊥
IsWork (works n (Wire.Action.lives (Life.Action.reports r))) = ⊥
IsWork (works n (Wire.Action.lives (Life.Action.polls p))) =
    (p.elapsed ≡ false) × (p.stalled ≡ false) × (p.executed ≡ none)

-- It sees the shutdown, the transfer of its last event is over, and its round.
abbrev farewell : String → List Action
farewell id = works 0 (lives (Life.Action.polls look)) ∷ works 0 settles ∷ finishes id ∷ []

module _ (h : Http) (lossy : List ℕ → String) where
  looked : Case → Case
  unfolding act
  looked c = act lossy true settles (act lossy true (lives (Life.Action.polls look)) c)

  -- Some steps after which there is less to do.
  record Advance (a : Agent) : Type 0 where
    later : List Action
    work : All IsWork later
    short : length later ≤ 3
    less : to_do (run h lossy a later).intake < to_do a.intake
    cancelled : (run h lossy a later).intake.cancelled ≡ true

  record Ends (n : ℕ) (a : Agent) : Type 0 where
    later : List Action
    work : All IsWork later
    short : length later ≤ 3 * n
    gone : workers (run h lossy a later).intake ≡ 0
