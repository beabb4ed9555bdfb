-- ===== src/Agent/Moves.antt =====
-- How a job moves: from a promise into the channel, to a worker, and out.
use ffmpeg_docker_playground.Base.{
  inl, inr, ok, Result-cases, ◌≡◌, refl, sym, true, false, List, ◌∷◌, ◌++◌, String, nat_eq,
  append-nil, contains, arith,
}
use ffmpeg_docker_playground.Intake.{
  State, Reply, bad_request, unavailable, conflict, busy, accepted, remove, try_send, admit, submit,
  receive, finish,
}
use ffmpeg_docker_playground.Model.Types.{Job}
use ffmpeg_docker_playground.Model.Endpoint.{Http}
use ffmpeg_docker_playground.Model.Job.{validate}
use ffmpeg_docker_playground.Agent.{Case, enqueue}
use ffmpeg_docker_playground.Agent.Cases.{ids, promised_to, ids-append}

-- The channel takes up what is promised.
admit-queue :
    (s : State) (id : String)
    → ((admit s id).1.queue ≡ s.queue ++ promised_to id (admit s id).0)
      × ((admit s id).1.running ≡ s.running)
unfolding admit try_send promised_to
admit-queue s id = (ground (arith, append-nil s.queue), ground arith)

pub submit-queue :
    (h : Http) (s : State) (id : String) (job : Job)
    → ((submit h s id job).1.queue ≡ s.queue ++ promised_to id (submit h s id job).0)
      × ((submit h s id job).1.running ≡ s.running)
unfolding submit promised_to
submit-queue h s id job = elim (Result-cases (validate h (record job { id = id }))) [
  | inr (bad, e) ↦ rw (e, submit) (sym (append-nil s.queue), refl)
  | inl (_, e) ↦ rw (e, submit) (admit-queue s id)
]

-- What is accepted is valid.
pub submit-accepted :
    (h : Http) (s : State) (id : String) (job : Job)
    → (submit h s id job).0 ≡ accepted
    → validate h (record job { id = id }) ≡ ok tt
unfolding submit
submit-accepted h s id job a = elim (Result-cases (validate h (record job { id = id }))) [
  | inl (_, e) ↦ e
  | inr (bad, e) ↦ absurd (ground (arith, a, e))
]

pub ids-enqueue :
    (reply : Reply) (c : Case) (cs : List Case)
    → ids (enqueue reply c cs) ≡ ids cs ++ promised_to c.job.id reply
unfolding enqueue promised_to
ids-enqueue accepted c cs = ids-append cs c
ids-enqueue unavailable c cs = sym (append-nil (ids cs))
ids-enqueue conflict c cs = sym (append-nil (ids cs))
ids-enqueue busy c cs = sym (append-nil (ids cs))
ids-enqueue (bad_request message) c cs = sym (append-nil (ids cs))

pub receive-next :
    (s : State) (id : String) (rest : List String)
    → s.queue ≡ id ∷ rest
    → nat_eq s.idle 0 ≡ false
    → ((receive s).queue ≡ rest) × ((receive s).running ≡ id ∷ s.running)
unfolding receive
receive-next s id rest e some_idle = rw (e, some_idle) (refl, refl)

pub finish-next :
    (s : State) (id : String)
    → contains id s.running ≡ true
    → ((finish s id).queue ≡ s.queue) × ((finish s id).running ≡ remove id s.running)
unfolding finish
finish-next s id e = rw e (refl, refl)
