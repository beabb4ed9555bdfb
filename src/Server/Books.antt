-- ===== src/Server/Books.antt =====
-- The books of the agent under requests that arrive and are answered at any time.
use ffmpeg_docker_playground.Base.{
  ℕ, inl, inr, Option, none, some, List, [], ◌∷◌, String, Option-cases,
}
use ffmpeg_docker_playground.Auth.Jwt.Types.{Codec}
use ffmpeg_docker_playground.Auth.Jwks.Types.{KeyCodec}
use ffmpeg_docker_playground.Auth.Access.{Authenticator}
use ffmpeg_docker_playground.Model.Endpoint.{Http}
use ffmpeg_docker_playground.Intake.{State, initialize, remove, try_send, admit, submit, finish}
use ffmpeg_docker_playground.Intake as Intake
use ffmpeg_docker_playground.Intake.Invariant.{Inv, submit-Inv}
use ffmpeg_docker_playground.Intake.Invariant as Invariant
use ffmpeg_docker_playground.Server.{
  Server, begin, Request, Axum, extract, respond, answer, pick, Action, arrives, answers, finishes,
  receives, releases, leaves, cancels, step, run,
}
use ffmpeg_docker_playground.Server.Jobs.{Route-cases}

module _ (x : Codec) (k : KeyCodec) (to_str : List ℕ → Option String) (h : Http) (axum : Axum) where
  respond-Inv :
      (concurrency : ℕ) (s : State) (r : Request)
      → Inv concurrency s
      → Inv concurrency (respond x k to_str h axum s r).1
  unfolding respond
  respond-Inv c s r v = elim (Route-cases (axum.route r.method r.path)) [
    | inr (inl e) ↦ rw (e, respond) v
    | inr (inr e) ↦ rw (e, respond) v
    | inl (new, e) ↦ elim (Option-cases (extract x k to_str h axum r)) [
      | inl n ↦ rw (e, n, respond) v
      | inr (job, f) ↦ rw (e, f, respond) (submit-Inv h c s new job v)
    ]
  ]

  answer-Inv :
      (concurrency : ℕ) (s : Server) (o : Option (Request × List Request))
      → Inv concurrency s.intake
      → Inv concurrency (answer x k to_str h axum s o).intake
  unfolding answer
  answer-Inv c s none v = v
  answer-Inv c s (some (r, rest)) v = respond-Inv c s.intake r v

  pub step-Inv :
      (concurrency : ℕ) (s : Server) (a : Action)
      → Inv concurrency s.intake
      → Inv concurrency (step x k to_str h axum s a).intake
  unfolding step Intake.step
  step-Inv c s (arrives v) b = b
  step-Inv c s (answers n) b = answer-Inv c s (pick n s.waiting) b
  step-Inv c s (finishes id) b = Invariant.step-Inv c s.intake (Intake.Action.finishes id) b
  step-Inv c s receives b = Invariant.step-Inv c s.intake Intake.Action.receives b
  step-Inv c s releases b = Invariant.step-Inv c s.intake Intake.Action.releases b
  step-Inv c s leaves b = Invariant.step-Inv c s.intake Intake.Action.leaves b
  step-Inv c s cancels b = Invariant.step-Inv c s.intake Intake.Action.cancels b

  pub run-Inv :
      (concurrency : ℕ) (s : Server) (actions : List Action)
      → Inv concurrency s.intake
      → Inv concurrency (run x k to_str h axum s actions).intake
  unfolding run
  run-Inv c s [] v = v
  run-Inv c s (a ∷ actions) v = run-Inv c (step x k to_str h axum s a) actions (step-Inv c s a v)

  pub begun-Inv :
      (auth : Authenticator) (concurrency queue : ℕ) (actions : List Action)
      → Inv concurrency (run x k to_str h axum (begin auth concurrency queue) actions).intake
  unfolding begin Intake.initialize Intake.run
  begun-Inv auth c q actions = run-Inv c (begin auth c q) actions (Invariant.reachable-Inv c q [])
