-- ===== src/Engine/Life/Tests.antt =====
-- A job that runs, beats twice and fails at its deadline.
use ffmpeg_docker_playground.Engine.Execute.{execute}
use ffmpeg_docker_playground.Engine.Execute.Done.{IsDone}
use ffmpeg_docker_playground.Engine.Execute.Tests.{machine, job, begun, succeeds}
use ffmpeg_docker_playground.Engine.Life.Truth.{Returns, IsHonest, success_is_true}
use ffmpeg_docker_playground.Base.{
  All, Memᴰ, subst, sym, ℕ, ◌≡◌, refl, true, false, some, none, List, [], ◌∷◌, map, String, ok,
}
use ffmpeg_docker_playground.Model.Types.{Event}
use ffmpeg_docker_playground.Engine.Life.{
  Poll, Action, beats, reports, polls, no_outcome, begin, run,
}

abbrev waiting : Poll
waiting = record { job_timeout = 0; elapsed = true; stalled = false; executed = none }

abbrev overdue : Poll
overdue = record { job_timeout = 60; elapsed = true; stalled = true; executed = some (ok tt) }

abbrev actions : List Action
actions =
    beats
    ∷ reports (record { phase = "encoding"; outcome = no_outcome; log = []; log_tail = [] })
    ∷ polls waiting
    ∷ beats
    ∷ polls overdue
    ∷ beats
    ∷ polls overdue
    ∷ []

abbrev text_of : List ℕ → String
text_of bytes = "text"

told :
    map {B = ℕ × String}
      (λ (e : Event). (e.sequence, e.state))
      (run text_of (begin "job-1") actions).sent
    ≡ (0, "queued") ∷ (1, "encoding") ∷ (2, "failed") ∷ []
unfolding run begin
told = refl

-- The worker sees that the execution of Execute/Tests has returned.
abbrev returning : List Action
returning = polls waiting ∷ polls (record waiting { executed = some (ok tt) }) ∷ []

honest : All (IsHonest (execute machine job begun).0) returning
honest = subst (λ r. All (IsHonest r) returning) (sym succeeds) (tt, (Returns.done, tt))

abbrev last : Event
last = record {
  version = 1;
  id = "job-1";
  sequence = 0;
  state = "succeeded";
  terminal = true;
  result = some no_outcome;
  ffmpeg_log = some "text";
  ffmpeg_log_tail = none;
}

last_was_sent : Memᴰ last (run text_of (begin "job-1") returning).sent
unfolding run begin
last_was_sent = Memᴰ.head refl

success_is_true_example : IsDone machine job (execute machine job begun).1
success_is_true_example =
    success_is_true machine job begun text_of "job-1" returning last honest last_was_sent refl refl
