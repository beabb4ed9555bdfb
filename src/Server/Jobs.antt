-- ===== src/Server/Jobs.antt =====
-- When a request asks for a job that is one.
use ffmpeg_docker_playground.Base.{
  ◌≤◌, length, ltb, ltb-false→le, le→ltb-false, Bool-cases, ℕ, ◌≡◌, refl, ◌⊎◌, Option, none, some,
  List, String, inl, inr,
}
use ffmpeg_docker_playground.Auth.Jwt.Types.{Codec}
use ffmpeg_docker_playground.Auth.Jwks.Types.{KeyCodec}
use ffmpeg_docker_playground.Model.Types.{Job}
use ffmpeg_docker_playground.Model.Endpoint.{Http}
use ffmpeg_docker_playground.Model.Job.Laws.{IsAcceptable}
use ffmpeg_docker_playground.Server.{Route, to_job, to_health, Request, Axum, extract, body_limit}

pub Route-cases :
    (r : Route) → ((id : String) × (r ≡ to_job id)) ⊎ ((r ≡ to_health) ⊎ (r ≡ Route.other))
Route-cases (to_job id) = inl (id, refl)
Route-cases to_health = inr (inl refl)
Route-cases Route.other = inr (inr refl)

pub none-some : {job : Job} → none ≡ some job → ⊥
none-some e = cc

module _ (x : Codec) (k : KeyCodec) (to_str : List ℕ → Option String) (h : Http) (axum : Axum) where
  pub extract_sound :
      (r : Request) (job : Job)
      → extract x k to_str h axum r ≡ some job
      → (length r.body ≤ body_limit) × (axum.json r.content_type r.body ≡ some job)
  unfolding extract
  extract_sound r job e = elim (Bool-cases (ltb body_limit (length r.body))) [
    | inl long ↦ absurd (none-some (rw (long, extract) at e))
    | inr short ↦ (ltb-false→le body_limit (length r.body) short, rw (short, extract) at e)
  ]

  pub extract_complete :
      (r : Request) (job : Job)
      → length r.body ≤ body_limit
      → axum.json r.content_type r.body ≡ some job
      → extract x k to_str h axum r ≡ some job
  unfolding extract
  extract_complete r job short e =
      rw (le→ltb-false body_limit (length r.body) short, e, extract) refl

  -- A request to submit a job that is one.
  pub record IsJob (r : Request) (id : String) : Type 0 where
    pub routed : axum.route r.method r.path ≡ to_job id
    pub job : Job
    pub fits : length r.body ≤ body_limit
    pub read : axum.json r.content_type r.body ≡ some job
    pub acceptable : IsAcceptable h (record job { id = id })
