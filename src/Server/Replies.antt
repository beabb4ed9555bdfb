-- ===== src/Server/Replies.antt =====
-- Which requests become jobs, from the headers to the queue.
use mathlib.Core.Path.{ap₂}
use ffmpeg_docker_playground.Base.{
  ℕ, ◌<◌, ◌≡◌, refl, sym, ap, ◌∙◌, ◌↔◌, ◌⊎◌, subst, Option, none, some, List, String, ok, inl, inr,
  Result-cases, Option-cases,
}
use ffmpeg_docker_playground.Auth.Jwt.Types.{Codec}
use ffmpeg_docker_playground.Auth.Jwks.Types.{KeyCodec}
use ffmpeg_docker_playground.Auth.Access.{Authenticator, Principal}
use ffmpeg_docker_playground.Auth.Access.Laws.{Permits, authenticate_iff}
use ffmpeg_docker_playground.Model.Types.{Job}
use ffmpeg_docker_playground.Model.Endpoint.{Http}
use ffmpeg_docker_playground.Model.Job.{validate}
use ffmpeg_docker_playground.Model.Job.Laws.{IsAcceptable, validate_iff}
use ffmpeg_docker_playground.Intake.{State, Reply, accepted, bad_request, submit}
use ffmpeg_docker_playground.Intake.Invariant.{Inv}
use ffmpeg_docker_playground.Intake.Replies.{verdict, settle, settle-cases, admit_lem}
use ffmpeg_docker_playground.Server.{
  Route, to_job, to_health, Request, Axum, Response, unauthorized, healthy, extractor, fallback,
  submitted, Visit, now_of, extract, respond, check, handle,
}
use ffmpeg_docker_playground.Server.Jobs.{
  Route-cases, none-some, extract_sound, extract_complete, IsJob,
}

module _ (x : Codec) (k : KeyCodec) (to_str : List ℕ → Option String) (h : Http) (axum : Axum) where
  -- Whom the authenticator lets in.
  pub record IsLetIn (auth : Authenticator) (v : Visit) : Type 0 where
    pub principal : Principal
    pub permitted :
        Permits x k to_str v.instant v.disk v.request.authorization (now_of v.clock) auth principal

  pub check_iff :
      (auth : Authenticator) (v : Visit) (p : Principal)
      → ((check x k to_str h axum auth v).0 ≡ ok p)
        ↔ Permits x k to_str v.instant v.disk v.request.authorization (now_of v.clock) auth p
  unfolding check
  check_iff auth v p =
      authenticate_iff x k to_str v.instant v.disk v.request.authorization (now_of v.clock) auth p

  -- The job is valid, and the agent has room for it.
  pub record IsFree (s : State) (r : Request) : Type 0 where
    pub id : String
    pub job : IsJob x k to_str h axum r id
    pub free : verdict s id ≡ accepted

  pub record IsTaken (auth : Authenticator) (v : Visit) (s : State) : Type 0 where
    pub let_in : IsLetIn auth v
    pub fits : IsFree s v.request

  module _ (concurrency : ℕ) (s : State) (books : Inv concurrency s) (staff : 0 < concurrency) where
    Says : Response × State → Request → Type 0
    Says o r = ((o.0 ≡ submitted accepted) ↔ IsFree s r) × ((o.1 ≡ s) ⊎ IsFree s r)

    submit_lem :
        (id : String) (job : Job)
        → validate h (record job { id = id }) ≡ ok tt
        → submit h s id job ≡ (verdict s id, settle s id (verdict s id))
    unfolding submit
    submit_lem id job e = rw (e, submit) (admit_lem concurrency s books staff id)

    quiet :
        (o : Response × State) (r : Request)
        → o.1 ≡ s
        → (o.0 ≡ submitted accepted → ⊥)
        → (IsFree s r → ⊥)
        → Says o r
    unfolding Says
    quiet o r same n m = ((λ e. absurd (n e), λ f. absurd (m f)), inl same)

    -- What stands in the way of a job.
    not_routed :
        (r : Request) (route : Route)
        → axum.route r.method r.path ≡ route
        → ((id : String) → route ≡ to_job id → ⊥)
        → IsFree s r
        → ⊥
    not_routed r route e n f = n f.id (sym e ∙ f.job.routed)

    not_read : (r : Request) → extract x k to_str h axum r ≡ none → IsFree s r → ⊥
    not_read r e f =
        let read = extract_complete x k to_str h axum r f.job.job f.job.fits f.job.read in
        none-some (sym e ∙ read)

    to_job-inj : {a b : String} → to_job a ≡ to_job b → a ≡ b
    to_job-inj e = cc

    -- The one job that a request asks for.
    pinned :
        (r : Request) (id : String) (job : Job)
        → axum.route r.method r.path ≡ to_job id
        → extract x k to_str h axum r ≡ some job
        → IsFree s r
        → (validate h (record job { id = id }) ≡ ok tt) × (verdict s id ≡ accepted)
    pinned r id job e f free =
        let same_id : free.id ≡ id = to_job-inj (sym free.job.routed ∙ e) in
        let same_job : free.job.job ≡ job =
          let read =
            extract_complete x k to_str h axum r free.job.job free.job.fits free.job.read in
          cc in
        let same : record free.job.job { id = free.id } ≡ record job { id = id } =
          ap₂ (λ (j : Job) (i : String). record j { id = i }) same_job same_id in
        (
          (validate_iff h (record job { id = id })).1
              (subst (λ j. IsAcceptable h j) same free.job.acceptable),
          subst (λ i. verdict s i ≡ accepted) same_id free.free,
        )

    submitted-inj : {a b : Reply} → submitted a ≡ submitted b → a ≡ b
    submitted-inj e = cc

    submit-Says :
        (r : Request) (id : String) (job : Job)
        → axum.route r.method r.path ≡ to_job id
        → extract x k to_str h axum r ≡ some job
        → Says (submitted (submit h s id job).0, (submit h s id job).1) r
    unfolding Says submit
    submit-Says r id job e f = elim (Result-cases (validate h (record job { id = id }))) [
      | inr (bad, g) ↦
          let whole : submit h s id job ≡ (bad_request bad, s) = rw (g, submit) refl in
          subst (λ (o : Reply × State). Says (submitted o.0, o.1) r) (sym whole)
            (quiet (submitted (bad_request bad), s) r refl (λ a. cc)
              (λ free. let (valid, _) = pinned r id job e f free in cc))
      | inl (_, g) ↦
          let whole = submit_lem id job g in
          subst (λ (o : Reply × State). Says (submitted o.0, o.1) r) (sym whole)
            (elim (settle-cases s id (verdict s id)) [
              | inr (n, kept) ↦
                  quiet (submitted (verdict s id), settle s id (verdict s id)) r kept
                    (λ a. n (submitted-inj a)) (λ free. n (pinned r id job e f free).1)
              | inl taken ↦
                  let free : IsFree s r = record {
                    id = id;
                    job = record {
                      routed = e;
                      job = job;
                      fits = (extract_sound x k to_str h axum r job f).0;
                      read = (extract_sound x k to_str h axum r job f).1;
                      acceptable = (validate_iff h (record job { id = id })).0 g;
                    };
                    free = taken;
                  } in
                  ((λ a. free, λ a. ap submitted taken), inr free)
            ])
    ]

    respond_lem : (r : Request) → Says (respond x k to_str h axum s r) r
    unfolding respond
    respond_lem r = elim (Route-cases (axum.route r.method r.path)) [
      | inr (inl e) ↦
          let whole : respond x k to_str h axum s r ≡ (healthy, s) = rw (e, respond) refl in
          subst (λ o. Says o r) (sym whole)
            (quiet (healthy, s) r refl (λ a. cc) (not_routed r to_health e (λ id a. cc)))
      | inr (inr e) ↦
          let whole : respond x k to_str h axum s r ≡ (fallback, s) = rw (e, respond) refl in
          subst (λ o. Says o r) (sym whole)
            (quiet (fallback, s) r refl (λ a. cc) (not_routed r Route.other e (λ id a. cc)))
      | inl (id, e) ↦ elim (Option-cases (extract x k to_str h axum r)) [
        | inl n ↦
            let whole : respond x k to_str h axum s r ≡ (extractor, s) = rw (e, n, respond) refl in
            subst (λ o. Says o r) (sym whole) (quiet (extractor, s) r refl (λ a. cc) (not_read r n))
        | inr (job, f) ↦
            let whole : respond x k to_str h axum s r
                ≡ (submitted (submit h s id job).0, (submit h s id job).1) =
              rw (e, f, respond) refl in
            subst (λ o. Says o r) (sym whole) (submit-Says r id job e f)
      ]
    ]

    -- In a state that keeps the books, with at least one worker, a request is answered 202
    -- exactly if the authenticator lets it in, it is sent to the id of a job, its body is within
    -- the limit and is a job that passes validation under that id, and the agent runs with room
    -- for it and does not have the id in flight; no other request changes the state.
    pub handle_lem :
        (auth : Authenticator) (v : Visit)
        → (((handle x k to_str h axum auth v s).0 ≡ submitted accepted) ↔ IsTaken auth v s)
          × (((handle x k to_str h axum auth v s).1 ≡ s) ⊎ IsTaken auth v s)
    unfolding handle Says
    handle_lem auth v = elim (Result-cases (check x k to_str h axum auth v).0) [
      | inr (rejection, e) ↦
          rw (e, handle)
            (
              (
                λ a. absurd (let b : unauthorized ≡ submitted accepted = a in cc),
                λ t.
                    absurd (
                      let let_in = (check_iff auth v t.let_in.principal).1 t.let_in.permitted in
                      cc),
              ),
              inl refl,
            )
      | inl (p, e) ↦
          let let_in : IsLetIn auth v = record {
            principal = p;
            permitted = (check_iff auth v p).0 e;
          } in
          let (reply, state) = respond_lem v.request in
          rw (e, handle)
            (
              (λ a. record { let_in = let_in; fits = reply.0 a }, λ t. reply.1 t.fits),
              elim state [
                | inl kept ↦ inl kept
                | inr fits ↦ inr (record { let_in = let_in; fits = fits })
              ],
            )
    ]
