-- ===== src/Agent/Tests.antt =====
-- Two jobs under one worker and a shutdown: the first is ended by a signal while it runs, the second
-- while it waits.
use ffmpeg_docker_playground.Base.{
  ℕ, ◌<◌, ◌≡◌, refl, true, false, none, List, [], ◌∷◌, ◌++◌, String, arith,
}
use ffmpeg_docker_playground.Base.{contains}
use ffmpeg_docker_playground.Base.Text.{bytes}
use ffmpeg_docker_playground.Model.Endpoint.{validate_endpoint}
use ffmpeg_docker_playground.Model.Job.{
  is_bad_extension, is_bad_id, is_oversized, is_command, validate,
}
use ffmpeg_docker_playground.Model.Tests as JobTests
use ffmpeg_docker_playground.Intake.{
  initialize, conflict, accepted, submit, receive, finish, release, leave,
}
use ffmpeg_docker_playground.Intake.Invariant.{workers}
use ffmpeg_docker_playground.Engine.Life.{Poll, emit, select, begin}
use ffmpeg_docker_playground.Engine.Life as Life
use ffmpeg_docker_playground.Engine.Wire as Wire
use ffmpeg_docker_playground.Engine.Wire.{attempts, settles, lives}
use ffmpeg_docker_playground.Agent.{
  Agent, start_agent, Action, admits, finishes, receives, releases, leaves, cancels, waits, works,
  run,
}
use ffmpeg_docker_playground.Base.{true}
use ffmpeg_docker_playground.Agent.Laws.{IsSettled, no_job_is_lost}

abbrev text_of : List ℕ → String
text_of bytes = "text"

abbrev waiting : Poll
waiting = record { job_timeout = 0; elapsed = true; stalled = false; executed = none }

-- The worker sees the shutdown, and its last event is taken at the first attempt.
abbrev ends : String → List Action
ends id =
    works 0 (lives (Life.Action.polls waiting))
    ∷ finishes id
    ∷ works 0 attempts
    ∷ works 0 settles
    ∷ finishes id
    ∷ releases
    ∷ []

abbrev morning : List Action
morning =
    admits "a" JobTests.job
    ∷ admits "b" JobTests.job
    ∷ admits "a" JobTests.job
    ∷ receives
    ∷ works 0 (lives Life.Action.beats)
    ∷ waits 0 (lives (Life.Action.polls waiting))
    ∷ cancels
    ∷ []

abbrev actions : List Action
actions = morning ++ ends "a" ++ receives ∷ (ends "b" ++ leaves ∷ [])

abbrev ended : Agent
ended = run JobTests.http text_of (start_agent 1 2) actions

staffed : 0 < 1
staffed = omega arith

gone : workers ended.intake ≡ 0
unfolding run start_agent initialize submit receive finish release leave workers contains Wire.step
    Life.step Wire.begin_wire Life.begin validate is_bad_id bytes is_bad_extension is_oversized
    is_command validate_endpoint
gone = refl

told : ended.replies ≡ ("a", accepted) ∷ ("b", accepted) ∷ ("a", conflict) ∷ []
unfolding run start_agent initialize submit receive finish release leave contains Wire.step
    Life.step Wire.begin_wire Life.begin validate is_bad_id bytes is_bad_extension is_oversized
    is_command validate_endpoint
told = refl

no_job_is_lost_example : IsSettled JobTests.http ended
no_job_is_lost_example = no_job_is_lost JobTests.http text_of 1 2 actions staffed gone

-- The signal has come; neither of the two jobs has ended.
abbrev busy_agent : Agent
busy_agent = run JobTests.http text_of (start_agent 1 2) morning
