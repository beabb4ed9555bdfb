-- ===== src/Intake/Tests.antt =====
-- An agent with one worker and two waiting places, from its start to its end.
use ffmpeg_docker_playground.Intake.{finish, receive, release}
use ffmpeg_docker_playground.Base.{contains}
use ffmpeg_docker_playground.Intake.Schedule.{IsSchedule}
use ffmpeg_docker_playground.Intake.Shutdown.{CanGo, shutdown_ends}
use ffmpeg_docker_playground.Base.{
  true, ap, ◌≤◌, ◌+◌, ◌*◌, ◌⊎◌, ◌++◌, length, ◌<◌, ◌≡◌, refl, List, [], ◌∷◌, arith,
}
use ffmpeg_docker_playground.Intake.{
  State, initialize, admit, Action, admits, finishes, receives, releases, leaves, cancels, run,
}
use ffmpeg_docker_playground.Intake.Invariant.{Inv, reachable-Inv}
use ffmpeg_docker_playground.Intake.Replies.{verdict, settle, admit_lem, IsDrained}

-- One job runs, one waits, and the first id is asked for again.
abbrev morning : List Action
morning = admits "a" ∷ receives ∷ admits "b" ∷ admits "a" ∷ []

abbrev evening : List Action
evening =
    admits "a" ∷ receives ∷ cancels ∷ admits "b" ∷ leaves ∷ finishes "a" ∷ releases ∷ leaves ∷ []

abbrev busy_state : State
busy_state = run (initialize 1 2) morning

reachable-Inv_example : Inv 1 busy_state
reachable-Inv_example = reachable-Inv 1 2 morning

books : Inv 1 busy_state
books = reachable-Inv 1 2 morning

staffed : 0 < 1
staffed = omega arith

admit_lem_example :
    admit busy_state "b" ≡ (verdict busy_state "b", settle busy_state "b" (verdict busy_state "b"))
admit_lem_example = admit_lem 1 busy_state books staffed "b"

-- The job that runs ends, its permit comes back, and the one that waits is received.
abbrev closing : List Action
closing = cancels ∷ []

abbrev ending : List Action
ending = finishes "a" ∷ releases ∷ receives ∷ []

stopped : (run (initialize 1 2) (morning ++ closing)).cancelled ≡ true
unfolding run initialize admit receive
stopped = refl

going : IsSchedule (run (initialize 1 2) (morning ++ closing)) ending
unfolding run initialize admit receive release finish contains
going =
    IsSchedule.step_by _ (finishes "a") _ tt (λ e. omega (arith, ap (λ (s : State). s.releasing) e))
      (IsSchedule.step_by _ releases _ tt (λ e. omega (arith, ap (λ (s : State). s.releasing) e))
        (IsSchedule.step_by _ receives _ tt (λ e. omega (arith, ap (λ (s : State). s.idle) e))
          (IsSchedule.over _)))

shutdown_ends_example :
    (length ending ≤ 4 * (run (initialize 1 2) (morning ++ closing)).capacity + 1)
    × (CanGo (run (run (initialize 1 2) (morning ++ closing)) ending)
        ⊎ IsDrained (run (run (initialize 1 2) (morning ++ closing)) ending))
shutdown_ends_example = shutdown_ends 1 2 (morning ++ closing) ending staffed stopped going
