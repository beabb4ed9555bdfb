-- ===== src/Intake/Held.antt =====
-- Which ids the agent holds after a step.
use ffmpeg_docker_playground.Base.{
  ◌≡◌, ◌⊎◌, true, List, [], ◌∷◌, String, eq_iff, eq_refl, contains, arith,
}
use ffmpeg_docker_playground.Intake.{State, initialize, remove, try_send, admit, submit, finish}
use ffmpeg_docker_playground.Intake as Intake

contains-remove :
    (id x : String) (xs : List String) → contains id (remove x xs) ≡ true → contains id xs ≡ true
unfolding contains remove
contains-remove id x [] h = h
contains-remove id x (y ∷ xs) h = ground (arith, contains-remove id x xs)

pub contains-admit :
    (s : State) (id new : String)
    → contains id (admit s new).1.jobs ≡ true
    → (contains id s.jobs ≡ true) ⊎ (new ≡ id)
unfolding admit try_send contains remove
contains-admit s id new h = ground (arith, eq_refl new, eq_iff new id)

pub contains-finish :
    (s : State) (id old : String)
    → contains id (finish s old).jobs ≡ true
    → contains id s.jobs ≡ true
unfolding finish
contains-finish s id old h = ground (arith, contains-remove id old s.jobs)

pub receive-jobs : (s : State) → (Intake.receive s).jobs ≡ s.jobs
unfolding Intake.receive
receive-jobs s = ground arith

pub release-jobs : (s : State) → (Intake.release s).jobs ≡ s.jobs
unfolding Intake.release
release-jobs s = ground arith

pub leave-jobs : (s : State) → (Intake.leave s).jobs ≡ s.jobs
unfolding Intake.leave
leave-jobs s = ground arith
