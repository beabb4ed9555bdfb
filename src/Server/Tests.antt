-- ===== src/Server/Tests.antt =====
-- A request with a token that becomes a job, and one without.
use ffmpeg_docker_playground.Base.Text.{bytes, split_once, eq_ignore_ascii_case}
use ffmpeg_docker_playground.Base.Words.{saturating_add}
use ffmpeg_docker_playground.Base.{contains}
use ffmpeg_docker_playground.Auth.Bearer.{bearer}
use ffmpeg_docker_playground.Auth.Access.{authenticate}
use ffmpeg_docker_playground.Auth.Jwt.Verify.{verify}
use ffmpeg_docker_playground.Auth.Jwt.Claims.{check_claims, audience_matches, is_refused}
use ffmpeg_docker_playground.Auth.Jwks.Store.{key, is_stale, find_loaded}
use ffmpeg_docker_playground.Model.Job.{
  validate, is_bad_id, is_bad_extension, is_oversized, is_command,
}
use ffmpeg_docker_playground.Model.Endpoint.{validate_endpoint}
use ffmpeg_docker_playground.Auth.Jwt.Types.{Codec}
use ffmpeg_docker_playground.Base.{
  true, nat_eq, length, ℕ, ◌+◌, ◌≤◌, ◌≡◌, refl, Option, some, none, List, [], ◌∷◌, String, ◌==◌,
  arith, if◌then◌else◌,
}
use ffmpeg_docker_playground.Auth.Access.{Authenticator, jwt}
use ffmpeg_docker_playground.Auth.Jwt.Tests as TokenTests
use ffmpeg_docker_playground.Auth.Jwks.Tests as KeyTests
use ffmpeg_docker_playground.Auth.Tests as AuthTests
use ffmpeg_docker_playground.Model.Tests as JobTests
use ffmpeg_docker_playground.Model.Job.{count}
use ffmpeg_docker_playground.Intake.{State, initialize, accepted}
use ffmpeg_docker_playground.Intake as Intake
use ffmpeg_docker_playground.Server.{
  to_job, other, Request, Axum, begin, Visit, Action, arrives, answers, receives, run,
}
use ffmpeg_docker_playground.Server.Jobs.{IsJob}
use ffmpeg_docker_playground.Server.Provenance.{WasLetIn, jobs_were_let_in}

-- The token's key is in the file.
abbrev pub codec : Codec
codec = record TokenTests.codec {
  header_of = λ bytes. some (record { alg = "ES256"; kid = some "old"; typ = some "at+jwt" });
  check_signature = λ key message signature. true;
}

abbrev pub text_of : List ℕ → Option String
text_of value = if nat_eq (length value) 16 then some "bearer h.p.fives" else none

abbrev pub axum : Axum
axum = record {
  route = λ method path. if path == "/v1/jobs/job-1" then to_job "job-1" else other;
  json = λ content_type body. some JobTests.job;
}

abbrev request : Request
request = record {
  authorization = bytes "bearer h.p.fives" ∷ [];
  method = "PUT";
  path = "/v1/jobs/job-1";
  content_type = none;
  body = b'{' ∷ b'}' ∷ [];
}

abbrev pub visit : Visit
visit = record { instant = 12; disk = KeyTests.disk_one; clock = some 100; request = request }

abbrev auth : Authenticator
auth = jwt AuthTests.verifier

abbrev pub actions : List Action
actions =
    arrives (record visit { request = record request { authorization = [] } })
    ∷ arrives visit
    ∷ answers 1
    ∷ answers 0
    ∷ receives
    ∷ []

runs :
    (run codec KeyTests.codec text_of JobTests.http axum (begin auth 1 1) actions).intake.running
    ≡ "job-1" ∷ []
unfolding run begin initialize Intake.receive Intake.submit authenticate bearer bytes split_once
    eq_ignore_ascii_case verify key is_stale find_loaded check_claims saturating_add
    audience_matches is_refused contains validate is_bad_id is_bad_extension is_oversized is_command
    validate_endpoint
runs = refl

flies :
    let s = run codec KeyTests.codec text_of JobTests.http axum (begin auth 1 1) actions in
    1 ≤ count "job-1" s.intake.queue + count "job-1" s.intake.running
unfolding count
flies = rw runs (omega arith)

jobs_were_let_in_example :
    (r : Request) × WasLetIn codec KeyTests.codec text_of JobTests.http axum r
      (begin auth 1 1)
      actions
    × IsJob codec KeyTests.codec text_of JobTests.http axum r "job-1"
jobs_were_let_in_example =
    jobs_were_let_in codec KeyTests.codec text_of JobTests.http axum auth 1 1 actions "job-1" flies
