-- ===== src/Engine/Wire/Tests.antt =====
-- A heartbeat tried twice, one that the end of the job cuts off, and the last event.
use ffmpeg_docker_playground.Base.{ℕ, ◌≡◌, refl, true, none, some, List, [], ◌∷◌, String}
use ffmpeg_docker_playground.Model.Types.{Retry}
use ffmpeg_docker_playground.Engine.Life.{Poll}
use ffmpeg_docker_playground.Engine.Life as Life
use ffmpeg_docker_playground.Engine.Wire.{begin_wire, Action, attempts, settles, lives, run}
use ffmpeg_docker_playground.Engine.Wire.Laws.{IsOrdered, run-IsOrdered}

abbrev twice : Retry
twice = record { max_attempts = 2; delay_ms = 10 }

abbrev overdue : Poll
overdue = record { job_timeout = 60; elapsed = true; stalled = true; executed = none }

abbrev actions : List Action
actions =
    lives Life.Action.beats
    ∷ attempts
    ∷ lives Life.Action.beats
    ∷ attempts
    ∷ settles
    ∷ lives Life.Action.beats
    ∷ attempts
    ∷ lives (Life.Action.polls overdue)
    ∷ attempts
    ∷ settles
    ∷ attempts
    ∷ lives Life.Action.beats
    ∷ []

abbrev text_of : List ℕ → String
text_of bytes = "text"

on_the_wire : (run text_of (some twice) (begin_wire "job-1") actions).requests ≡ 0 ∷ 0 ∷ 1 ∷ 2 ∷ []
unfolding run begin_wire Life.begin Life.emit Life.select Life.finish
on_the_wire = refl

run-IsOrdered_example :
    IsOrdered (some twice) "job-1" (run text_of (some twice) (begin_wire "job-1") actions)
run-IsOrdered_example = run-IsOrdered text_of (some twice) "job-1" actions
