-- ===== src/Agent/Invariant.antt =====
-- The jobs of the agent are those of its books, and all that was promised is somewhere.
use ffmpeg_docker_playground.Base.{
  ok, if-elim, ℕ, ◌+◌, ◌≡◌, refl, sym, ap, ◌∙◌, inl, inr, Bool, true, false, Option, none, some,
  List, [], ◌∷◌, ◌++◌, String, nat_eq, contains, All, All-append, arith, Bool-cases,
}
use ffmpeg_docker_playground.Model.Types.{Job}
use ffmpeg_docker_playground.Model.Endpoint.{Http}
use ffmpeg_docker_playground.Model.Job.{count, validate}
use ffmpeg_docker_playground.Intake.{
  State, initialize, Reply, bad_request, unavailable, conflict, busy, accepted, remove, submit,
  receive, finish,
}
use ffmpeg_docker_playground.Intake.Invariant.{
  workers, reachable-Inv, receive-Inv, finish-Inv, release-Inv, leave-Inv, cancel-Inv, submit-Inv,
  count-remove,
}
use ffmpeg_docker_playground.Intake.Invariant as Books
use ffmpeg_docker_playground.Intake as Intake
use ffmpeg_docker_playground.Engine.Life as Life
use ffmpeg_docker_playground.Engine.Wire.{Wire, begin_wire, lives}
use ffmpeg_docker_playground.Engine.Wire as Wire
use ffmpeg_docker_playground.Engine.Wire.Laws.{Told, begin_wire-Told, step-Told}
use ffmpeg_docker_playground.Agent.{
  Case, Agent, start_agent, Action, admits, finishes, receives, releases, leaves, cancels, waits,
  works, take_case, is_over, admits_job, receives_job, finishes_job, act, cancel_all, step, run,
}
use ffmpeg_docker_playground.Agent.Cases.{
  ids, promised_to, promised, count-append, count-promised-append, ids-append, Taken,
  take_case-Taken, enqueue-All, ids-change, change-All, ids-cancel_all,
}
use ffmpeg_docker_playground.Agent.Moves.{
  submit-queue, submit-accepted, ids-enqueue, receive-next, finish-next,
}

-- The last event of the job is made, and its transfer over.
abbrev pub IsOver : Case → Type 0
IsOver c = is_over c.wire ≡ true

module _ (h : Http) (lossy : List ℕ → String) (concurrency : ℕ) where
  abbrev pub IsTold : Case → Type 0
  IsTold c = (validate h c.job ≡ ok tt) × Told lossy c.job.callback.retry c.job.id c.wire

  pub record Inv (a : Agent) : Type 0 where
    pub books : Books.Inv concurrency a.intake
    pub queue : ids a.queued ≡ a.intake.queue
    pub hands : ids a.running ≡ a.intake.running
    pub queued : All IsTold a.queued
    pub running : All IsTold a.running
    pub done : All IsTold a.done
    pub over : All IsOver a.done
    pub kept :
        (id : String)
        → count id (promised a.replies)
          ≡ count id (ids a.queued) + count id (ids a.running) + count id (ids a.done)

  act-IsTold :
      (in_hand : Bool) (x : Wire.Action) (c : Case) → IsTold c → IsTold (act lossy in_hand x c)
  unfolding act
  act-IsTold in_hand x c (valid, t) =
      if-elim IsTold _ _ _ (λ _. (valid, step-Told lossy c.job.callback.retry c.job.id c.wire x t))
        (λ _. (valid, t))

  cancel_all-IsTold : (cs : List Case) → All IsTold cs → All IsTold (cancel_all lossy cs)
  unfolding cancel_all
  cancel_all-IsTold [] t = tt
  cancel_all-IsTold (c ∷ cs) ((valid, t), ts) = (
    (valid, step-Told lossy c.job.callback.retry c.job.id c.wire (lives Life.Action.cancels) t),
    cancel_all-IsTold cs ts,
  )

  admits_job-Inv : (a : Agent) (id : String) (job : Job) → Inv a → Inv (admits_job h a id job)
  unfolding admits_job
  admits_job-Inv a id job v =
      let c : Case = record { job = record job { id = id }; wire = begin_wire id } in
      let reply = (submit h a.intake id job).0 in
      let (queue, hands) = submit-queue h a.intake id job in
      let joined = ids-enqueue reply c a.queued in
      record {
        books = submit-Inv h concurrency a.intake id job v.books;
        queue = joined ∙ ap (λ q. q ++ promised_to id reply) v.queue ∙ sym queue;
        hands = v.hands ∙ sym hands;
        queued =
            enqueue-All IsTold reply c a.queued
              (λ e.
                (submit-accepted h a.intake id job e, begin_wire-Told lossy job.callback.retry id))
              v.queued;
        running = v.running;
        done = v.done;
        over = v.over;
        kept = λ i. omega (
          arith,
          v.kept i,
          count-promised-append i a.replies id reply,
          ap (count i) joined,
          count-append i (ids a.queued) (promised_to id reply),
        );
      }

  receives_job-Inv : (a : Agent) → Inv a → Inv (receives_job a)
  unfolding receives_job ids count
  receives_job-Inv a v = from a.queued refl v.queued
    where
      from : (cs : List Case) → a.queued ≡ cs → All IsTold cs → Inv (receives_job a)
      from [] e t = rw (e, receives_job) v
      from (c ∷ rest) e (t, ts) = elim (Bool-cases (nat_eq a.intake.idle 0)) [
        | inl none_waits ↦ rw (e, none_waits, receives_job) v
        | inr some_idle ↦
            let front : ids (c ∷ rest) ≡ a.intake.queue = ap ids (sym e) ∙ v.queue in
            let (queue, hands) = receive-next a.intake c.job.id (ids rest) (sym front) some_idle in
            let kept : (i : String)
                → count i (promised a.replies)
                  ≡ count i (ids rest) + count i (ids (c ∷ a.running)) + count i (ids a.done) =
              λ i. ground (arith, v.kept i, e) in
            rw (e, some_idle, receives_job)
              (record {
                books = receive-Inv concurrency v.books;
                queue = sym queue;
                hands = ap (λ is. c.job.id ∷ is) v.hands ∙ sym hands;
                queued = ts;
                running = (t, v.running);
                done = v.done;
                over = v.over;
                kept = kept;
              })
      ]

  finishes_job-Inv : (a : Agent) (id : String) → Inv a → Inv (finishes_job a id)
  unfolding finishes_job count
  finishes_job-Inv a id v =
      from (take_case id a.running) refl (take_case-Taken IsTold id a.running v.running)
    where
      from :
          (o : Option (Case × List Case))
          → take_case id a.running ≡ o
          → Taken IsTold id a.running o
          → Inv (finishes_job a id)
      from none e t = rw (e, finishes_job) v
      from (some (c, rest)) e (out, t, ts) = elim (Bool-cases (is_over c.wire)) [
        | inr still ↦ rw (e, still, finishes_job) v
        | inl over ↦
            let held = ap (contains id) (sym v.hands) ∙ out.held in
            let (queue, hands) = finish-next a.intake id held in
            rw (e, over, finishes_job)
              (record {
                books = finish-Inv concurrency v.books id;
                queue = v.queue ∙ sym queue;
                hands = out.left ∙ ap (remove id) v.hands ∙ sym hands;
                queued = v.queued;
                running = ts;
                done = All-append IsTold a.done (c ∷ []) v.done (t, tt);
                over = All-append IsOver a.done (c ∷ []) v.over (over, tt);
                kept = λ i. omega (
                  arith,
                  v.kept i,
                  count-remove i id (ids a.running) out.held,
                  ap (count i) out.left,
                  ap (λ j. count i (j ∷ [])) out.same_id,
                  ap (count i) (ids-append a.done c),
                  count-append i (ids a.done) (c.job.id ∷ []),
                );
              })
      ]

  step-Inv : (a : Agent) (x : Action) → Inv a → Inv (step h lossy a x)
  unfolding step Intake.release Intake.leave
  step-Inv a (admits id job) v = admits_job-Inv a id job v
  step-Inv a (finishes id) v = finishes_job-Inv a id v
  step-Inv a receives v = receives_job-Inv a v
  step-Inv a releases v = record {
    books = release-Inv concurrency v.books;
    queue = v.queue ∙ ground arith;
    hands = v.hands ∙ ground arith;
    queued = v.queued;
    running = v.running;
    done = v.done;
    over = v.over;
    kept = v.kept;
  }
  step-Inv a leaves v = record {
    books = leave-Inv concurrency v.books;
    queue = v.queue ∙ ground arith;
    hands = v.hands ∙ ground arith;
    queued = v.queued;
    running = v.running;
    done = v.done;
    over = v.over;
    kept = v.kept;
  }
  step-Inv a cancels v = record {
    books = cancel-Inv concurrency v.books;
    queue = ids-cancel_all lossy a.queued ∙ v.queue;
    hands = ids-cancel_all lossy a.running ∙ v.hands;
    queued = cancel_all-IsTold a.queued v.queued;
    running = cancel_all-IsTold a.running v.running;
    done = v.done;
    over = v.over;
    kept = λ i. rw (ids-cancel_all lossy a.queued, ids-cancel_all lossy a.running) (v.kept i);
  }
  step-Inv a (waits n x) v = record {
    books = v.books;
    queue = ids-change lossy false n x a.queued ∙ v.queue;
    hands = v.hands;
    queued = change-All lossy IsTold false x (act-IsTold false x) n a.queued v.queued;
    running = v.running;
    done = v.done;
    over = v.over;
    kept = λ i. rw (ids-change lossy false n x a.queued) (v.kept i);
  }
  step-Inv a (works n x) v = record {
    books = v.books;
    queue = v.queue;
    hands = ids-change lossy true n x a.running ∙ v.hands;
    queued = v.queued;
    running = change-All lossy IsTold true x (act-IsTold true x) n a.running v.running;
    done = v.done;
    over = v.over;
    kept = λ i. rw (ids-change lossy true n x a.running) (v.kept i);
  }

  pub run-Inv : (a : Agent) (actions : List Action) → Inv a → Inv (run h lossy a actions)
  unfolding run
  run-Inv a [] v = v
  run-Inv a (x ∷ actions) v = run-Inv (step h lossy a x) actions (step-Inv a x v)

  pub start_agent-Inv : (queue : ℕ) → Inv (start_agent concurrency queue)
  unfolding start_agent initialize ids promised count Intake.run
  start_agent-Inv queue = record {
    books = reachable-Inv concurrency queue [];
    queue = refl;
    hands = refl;
    queued = tt;
    running = tt;
    done = tt;
    over = tt;
    kept = λ i. omega arith;
  }
