-- ===== src/Server/Provenance.antt =====
-- Where the jobs of the agent come from.
use mathlib.Core.Bool.{false≢true}
use ffmpeg_docker_playground.Base.{
  ℕ, zero, suc, ◌+◌, ◌≤◌, ◌≡◌, refl, sym, ap, ◌∙◌, ◌⊎◌, inl, inr, subst, true, Option, none, some,
  List, [], ◌∷◌, String, contains, All, Result, ok, err, Result-cases, Option-cases, arith,
}
use ffmpeg_docker_playground.Auth.Rejection.{Rejection}
use ffmpeg_docker_playground.Auth.Jwt.Types.{Codec}
use ffmpeg_docker_playground.Auth.Jwks.Types.{KeyCodec}
use ffmpeg_docker_playground.Auth.Access.{Authenticator, Principal}
use ffmpeg_docker_playground.Model.Types.{Job}
use ffmpeg_docker_playground.Model.Endpoint.{Http}
use ffmpeg_docker_playground.Model.Job.{count, validate}
use ffmpeg_docker_playground.Model.Job.Laws.{IsAcceptable, validate_iff}
use ffmpeg_docker_playground.Intake.{State, initialize, remove, try_send, admit, submit, finish}
use ffmpeg_docker_playground.Intake as Intake
use ffmpeg_docker_playground.Intake.Held.{
  contains-admit, contains-finish, receive-jobs, release-jobs, leave-jobs,
}
use ffmpeg_docker_playground.Intake.Invariant.{contains_of_count}
use ffmpeg_docker_playground.Server.{
  Server, begin, to_job, Request, Axum, Visit, extract, respond, check, admitted, answer, pick,
  put_back, Action, arrives, answers, finishes, receives, releases, leaves, cancels, step, run,
}
use ffmpeg_docker_playground.Server.Books.{begun-Inv}
use ffmpeg_docker_playground.Server.Replies.{IsLetIn, check_iff}
use ffmpeg_docker_playground.Server.Jobs.{extract_sound, IsJob, Route-cases}

module _ (P : Request → Type 0) where
  abbrev pub Held : Option (Request × List Request) → Type 0
  Held none = Unit
  Held (some (r, rest)) = P r × All P rest

  put_back-Held :
      (r : Request) (o : Option (Request × List Request)) → P r → Held o → Held (put_back r o)
  put_back-Held r none p h = tt
  put_back-Held r (some (t, rest)) p h = (h.0, (p, h.1))

  pick-Held : (n : ℕ) (rs : List Request) → All P rs → Held (pick n rs)
  unfolding pick
  pick-Held n [] h = tt
  pick-Held zero (r ∷ rs) h = h
  pick-Held (suc n) (r ∷ rs) h = put_back-Held r (pick n rs) h.0 (pick-Held n rs h.1)

module _ (x : Codec) (k : KeyCodec) (to_str : List ℕ → Option String) (h : Http) (axum : Axum) where
  -- The layer has let this request through, with what it knew when the request came.
  pub data WasLetIn (r : Request) : Server → List Action → Type 0 where
    here :
        (s : Server) (v : Visit) (actions : List Action)
        → v.request ≡ r
        → IsLetIn x k to_str h axum s.auth v
        → WasLetIn r s (arrives v ∷ actions)
    later :
        (s : Server) (a : Action) (actions : List Action)
        → WasLetIn r (step x k to_str h axum s a) actions
        → WasLetIn r s (a ∷ actions)

  -- A request of the kind stands behind every id that is held.
  record Backed (P : Request → Type 0) (s : Server) : Type 1 where
    waits : All P s.waiting
    held :
        (id : String)
        → contains id s.intake.jobs ≡ true
        → (r : Request) × P r × IsJob x k to_str h axum r id

  submit-held :
      (s : State) (id new : String) (job : Job)
      → contains id (submit h s new job).1.jobs ≡ true
      → (contains id s.jobs ≡ true) ⊎ ((new ≡ id) × (validate h (record job { id = new }) ≡ ok tt))
  unfolding submit
  submit-held s id new job c = elim (Result-cases (validate h (record job { id = new }))) [
    | inr (bad, e) ↦ inl (rw (e, submit) at c)
    | inl (_, e) ↦ elim (contains-admit s id new (rw (e, submit) at c)) [
      | inl old ↦ inl old
      | inr same ↦ inr (same, e)
    ]
  ]

  respond-held :
      (s : State) (r : Request) (id : String)
      → contains id (respond x k to_str h axum s r).1.jobs ≡ true
      → (contains id s.jobs ≡ true) ⊎ IsJob x k to_str h axum r id
  unfolding respond
  respond-held s r id c = elim (Route-cases (axum.route r.method r.path)) [
    | inr (inl e) ↦ inl (rw (e, respond) at c)
    | inr (inr e) ↦ inl (rw (e, respond) at c)
    | inl (new, e) ↦ elim (Option-cases (extract x k to_str h axum r)) [
      | inl n ↦ inl (rw (e, n, respond) at c)
      | inr (job, f) ↦ elim (submit-held s id new job (rw (e, f, respond) at c)) [
        | inl old ↦ inl old
        | inr (same, valid) ↦ inr (record {
          routed = e ∙ ap to_job same;
          job = job;
          fits = (extract_sound x k to_str h axum r job f).0;
          read = (extract_sound x k to_str h axum r job f).1;
          acceptable =
              subst (λ i. IsAcceptable h (record job { id = i })) same
                ((validate_iff h (record job { id = new })).0 valid);
        })
      ]
    ]
  ]

  answer-Backed :
      (P : Request → Type 0) (s : Server) (o : Option (Request × List Request))
      → Backed P s
      → Held P o
      → Backed P (answer x k to_str h axum s o)
  unfolding answer
  answer-Backed P s none v w = v
  answer-Backed P s (some (r, rest)) v (p, ps) = record {
    waits = ps;
    held = λ id c. elim (respond-held s.intake r id c) [
      | inl old ↦ v.held id old
      | inr job ↦ (r, p, job)
    ];
  }

  step-Backed :
      (P : Request → Type 0) (s : Server) (a : Action)
      → Backed P s
      → ((v : Visit) → a ≡ arrives v → IsLetIn x k to_str h axum s.auth v → P v.request)
      → Backed P (step x k to_str h axum s a)
  unfolding step
  step-Backed P s (arrives u) v e = record {
    waits = admitted-All (check x k to_str h axum s.auth u).0 refl;
    held = v.held;
  }
    where
      admitted-All :
          (o : Result Rejection Principal)
          → (check x k to_str h axum s.auth u).0 ≡ o
          → All P (admitted o u.request s.waiting)
      admitted-All (err rejection) q = v.waits
      admitted-All (ok p) q = (
        e u refl
            (record { principal = p; permitted = (check_iff x k to_str h axum s.auth u p).0 q }),
        v.waits,
      )
  step-Backed P s (answers n) v e =
      answer-Backed P s (pick n s.waiting) v (pick-Held P n s.waiting v.waits)
  step-Backed P s (finishes old) v e = record {
    waits = v.waits;
    held = λ id c. v.held id (contains-finish s.intake id old c);
  }
  step-Backed P s receives v e = record {
    waits = v.waits;
    held = λ id c. v.held id (rw (receive-jobs s.intake) at c);
  }
  step-Backed P s releases v e = record {
    waits = v.waits;
    held = λ id c. v.held id (rw (release-jobs s.intake) at c);
  }
  step-Backed P s leaves v e = record {
    waits = v.waits;
    held = λ id c. v.held id (rw (leave-jobs s.intake) at c);
  }
  step-Backed P s cancels v e = record { waits = v.waits; held = v.held }

  All-map :
      (P Q : Request → Type 0) (rs : List Request)
      → ((r : Request) → P r → Q r)
      → All P rs
      → All Q rs
  All-map P Q [] f ps = tt
  All-map P Q (r ∷ rs) f (p, ps) = (f r p, All-map P Q rs f ps)

  Backed-map :
      (P Q : Request → Type 0) (s : Server) → ((r : Request) → P r → Q r) → Backed P s → Backed Q s
  Backed-map P Q s f b = record {
    waits = All-map P Q s.waiting f b.waits;
    held = λ id c. let (r, p, job) = b.held id c in (r, f r p, job);
  }

  run-Backed :
      (P : Request → Type 0) (s : Server) (actions : List Action)
      → Backed P s
      → Backed (λ r. P r ⊎ WasLetIn r s actions) (run x k to_str h axum s actions)
  unfolding run
  run-Backed P s [] b = Backed-map P (λ r. P r ⊎ WasLetIn r s []) s (λ r p. inl p) b
  run-Backed P s (a ∷ actions) b =
      let Q : Request → Type 0 = λ r. P r ⊎ WasLetIn r s (a ∷ actions) in
      let t = step x k to_str h axum s a in
      let now = step-Backed Q s a (Backed-map P Q s (λ r p. inl p) b) (λ v same let_in. inr (
        subst (λ c. WasLetIn v.request s (c ∷ actions)) (sym same)
          (WasLetIn.here s v actions refl let_in))) in
      Backed-map (λ r. Q r ⊎ WasLetIn r t actions) Q (run x k to_str h axum t actions)
        (λ r o. elim o [ inl q ↦ q | inr w ↦ inr (WasLetIn.later s a actions w) ])
        (run-Backed Q t actions now)

  -- Whatever requests, workers and the shutdown do from the start on, and in whatever order,
  -- behind every job that is queued or running stands a request that was sent to its id, that
  -- the authenticator let in when it came, and whose body is a job that passes validation.
  pub jobs_were_let_in :
      (auth : Authenticator) (concurrency queue : ℕ) (actions : List Action) (id : String)
      → let s = run x k to_str h axum (begin auth concurrency queue) actions in
        1 ≤ count id s.intake.queue + count id s.intake.running
        → (r : Request) × WasLetIn r (begin auth concurrency queue) actions
          × IsJob x k to_str h axum r id
  unfolding begin Intake.initialize contains
  jobs_were_let_in auth concurrency queue actions id flies =
      let s = run x k to_str h axum (begin auth concurrency queue) actions in
      let books = begun-Inv x k to_str h axum auth concurrency queue actions in
      let b =
        run-Backed (λ r. ⊥) (begin auth concurrency queue) actions
          (record { waits = tt; held = λ i c. absurd (false≢true c) }) in
      let (r, o, job) =
        b.held id (contains_of_count id s.intake.jobs (omega (arith, books.tracked id, flies))) in
      (r, elim o [ inl none_yet ↦ absurd none_yet | inr w ↦ w ], job)
