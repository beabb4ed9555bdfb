-- ===== src/Agent/Laws.antt =====
-- What becomes of the jobs that an agent has taken.
use ffmpeg_docker_playground.Base.{
  ok, ℕ, ◌<◌, ◌≡◌, refl, ap, ◌∙◌, subst, true, List, [], ◌∷◌, String, All, arith,
}
use ffmpeg_docker_playground.Model.Job.{count, validate}
use ffmpeg_docker_playground.Model.Endpoint.{Http}
use ffmpeg_docker_playground.Intake.Invariant.{workers}
use ffmpeg_docker_playground.Intake.Replies.{Inv-IsDrained}
use ffmpeg_docker_playground.Engine.Life.Laws.{IsConversation}
use ffmpeg_docker_playground.Engine.Wire.Laws.{IsOrdered, Told-IsOrdered}
use ffmpeg_docker_playground.Agent.{Case, Agent, start_agent, Action, is_over, run}
use ffmpeg_docker_playground.Agent.Cases.{ids, promised}
use ffmpeg_docker_playground.Agent.Invariant.{IsTold, IsOver, run-Inv, start_agent-Inv}

no_ids : (cs : List Case) → ids cs ≡ [] → cs ≡ []
unfolding ids
no_ids [] e = refl
no_ids (c ∷ cs) e = cc

-- The callback has been told all of it: the last event is made, and its transfer over.
pub record IsComplete (h : Http) (c : Case) : Type 0 where
  pub valid : validate h c.job ≡ ok tt
  pub over : is_over c.wire ≡ true
  pub ordered : IsOrdered c.job.callback.retry c.job.id c.wire
  pub conversation : IsConversation c.job.id true c.wire.life.sent

-- Every promise has been kept.
pub record IsSettled (h : Http) (a : Agent) : Type 0 where
  pub none_queued : a.queued ≡ []
  pub none_running : a.running ≡ []
  pub complete : All (IsComplete h) a.done
  pub everyone : (id : String) → count id (promised a.replies) ≡ count id (ids a.done)

module _ (h : Http) (lossy : List ℕ → String) (concurrency : ℕ) where
  all-IsComplete :
      (cs : List Case) → All (IsTold h lossy concurrency) cs → All IsOver cs → All (IsComplete h) cs
  unfolding is_over
  all-IsComplete [] t k = tt
  all-IsComplete (c ∷ cs) ((valid, t), ts) (k, ks) =
      let o = Told-IsOrdered lossy c.job.callback.retry c.job.id c.wire t in
      let ended : c.wire.life.ended ≡ true = ground (arith, k) in
      (
        record {
          valid = valid;
          over = k;
          ordered = o;
          conversation =
              subst (λ b. IsConversation c.job.id b c.wire.life.sent) ended o.conversation;
        },
        all-IsComplete cs ts ks,
      )

-- Whatever requests, workers, heartbeats and the shutdown do, and in whatever order, with at
-- least one worker at the start, once no worker is left no job is queued or running, and the
-- jobs that are over are, counted by id, those that were answered 202; each of them has passed
-- validation, its last event is terminal and its transfer is over, and the requests to its
-- callback went out in the order of its events.
pub no_job_is_lost :
    (h : Http) (lossy : List ℕ → String) (concurrency queue : ℕ) (actions : List Action)
    → 0 < concurrency
    → workers (run h lossy (start_agent concurrency queue) actions).intake ≡ 0
    → IsSettled h (run h lossy (start_agent concurrency queue) actions)
unfolding ids count
no_job_is_lost h lossy concurrency queue actions staff gone =
    let a = run h lossy (start_agent concurrency queue) actions in
    let v =
      run-Inv h lossy concurrency (start_agent concurrency queue) actions
        (start_agent-Inv h lossy concurrency queue) in
    let drained = Inv-IsDrained concurrency a.intake staff v.books gone in
    let queued = no_ids a.queued (v.queue ∙ drained.queue) in
    let running = no_ids a.running (v.hands ∙ drained.running) in
    record {
      none_queued = queued;
      none_running = running;
      complete = all-IsComplete h lossy concurrency a.done v.done v.over;
      everyone = λ i. omega (
        arith,
        v.kept i,
        ap (λ cs. count i (ids cs)) queued,
        ap (λ cs. count i (ids cs)) running,
      );
    }
