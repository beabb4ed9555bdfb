-- ===== src/Auth/Jwt/Verify.antt =====
-- agent/src/auth/jwt.rs: `verify`, the whole decision on one token.
pub mod Laws
pub mod Signed
use ffmpeg_docker_playground.Base.Text.{bytes}
use ffmpeg_docker_playground.Base.{
  ℕ, Bool, not, Option, none, some, String, ◌==◌, Result, ok, ◌>>=◌, ◌>>◌, reject_if, or_err,
}
use ffmpeg_docker_playground.Auth.Rejection.{
  Rejection, invalid_header, unsupported_algorithm, missing_kid, type_mismatch, bad_signature,
  invalid_claims,
}
use ffmpeg_docker_playground.Auth.Jwt.Types.{Policy, Header, Verified, VerifyingKey, Codec}
use ffmpeg_docker_playground.Auth.Jwt.Claims.{non_empty, differs, check_claims}
use ffmpeg_docker_playground.Auth.Jwt.Compact.{Parts, parse_token}

-- The algorithm is fixed, a key id is required, and so is the `typ` that the policy names.
pub select_kid : Policy → Header → Result Rejection String
select_kid policy header = do
  reject_if (not (header.alg == "ES256")) unsupported_algorithm
  kid ← or_err (non_empty header.kid) missing_kid
  reject_if (differs policy.typ header.typ) type_mismatch
  ok kid

module _ (x : Codec) where
  pub check_signed : Policy → ℕ → Parts → VerifyingKey → Result Rejection Verified
  check_signed policy now parts key = do
    reject_if (not (x.check_signature key.sec1 (bytes parts.signing_input) parts.signature))
        bad_signature
    claims ← or_err (x.claims_of parts.payload) invalid_claims
    check_claims policy now claims

  pub verify_parts :
      Policy → ℕ → (String → Result Rejection VerifyingKey) → Parts → Result Rejection Verified
  unfolding select_kid check_signed
  verify_parts policy now find_key parts = do
    header ← or_err (x.header_of parts.header) invalid_header
    kid ← select_kid policy header
    key ← find_key kid
    check_signed policy now parts key

  unfoldable pub verify :
      Policy → String → ℕ → (String → Result Rejection VerifyingKey) → Result Rejection Verified
  unfolding verify_parts parse_token
  verify policy token now find_key = do
    parts ← parse_token x token
    verify_parts policy now find_key parts
