-- ===== src/Auth/Jwt/Verify/Signed.antt =====
-- agent/src/auth/jwt.rs: only signed content is parsed past the signature check.
use mathlib.Core.Bool.{false≢true}
use ffmpeg_docker_playground.Base.Text.{bytes}
use ffmpeg_docker_playground.Base.{
  ℕ, ◌≡◌, sym, ◌∙◌, Bool, true, false, Option, String, Result, ok, err, or_err, arith, >>=-eq-err,
  inl, inr,
}
use ffmpeg_docker_playground.Auth.Rejection.{
  Rejection, invalid_header, invalid_claims, missing_claim, invalid_times, expired,
  issued_in_future, not_yet_valid, lifetime_too_long, wrong_issuer, wrong_audience,
  subject_not_allowed,
}
use ffmpeg_docker_playground.Auth.Jwt.Types.{Policy, Header, VerifyingKey, Codec}
use ffmpeg_docker_playground.Auth.Jwt.Compact.{Parts, IsCompact, parse_token, parse_token_iff}
use ffmpeg_docker_playground.Auth.Jwt.Verify.{select_kid, check_signed, verify_parts, verify}

-- The rejections that the source issues after the signature check.
unfoldable pub reads_claims : Rejection → Bool
reads_claims invalid_claims = true
reads_claims (missing_claim name) = true
reads_claims invalid_times = true
reads_claims expired = true
reads_claims issued_in_future = true
reads_claims not_yet_valid = true
reads_claims lifetime_too_long = true
reads_claims wrong_issuer = true
reads_claims wrong_audience = true
reads_claims subject_not_allowed = true
reads_claims _ = false

parse_token-early :
    (x : Codec) (token : String) (r : Rejection)
    → parse_token x token ≡ err r
    → reads_claims r ≡ false
unfolding parse_token reads_claims
parse_token-early x token r h = ground arith

select_kid-early :
    (policy : Policy) (header : Header) (r : Rejection)
    → select_kid policy header ≡ err r
    → reads_claims r ≡ false
unfolding select_kid reads_claims
select_kid-early policy header r h = ground arith

check_signed-late :
    (x : Codec) (policy : Policy) (now : ℕ) (parts : Parts) (key : VerifyingKey) (r : Rejection)
    → check_signed x policy now parts key ≡ err r
    → reads_claims r ≡ true
    → x.check_signature key.sec1 (bytes parts.signing_input) parts.signature ≡ true
unfolding check_signed reads_claims
check_signed-late x policy now parts key r h late = ground arith

invalid_header-early :
    (o : Option Header) (r : Rejection) → or_err o invalid_header ≡ err r → reads_claims r ≡ false
unfolding reads_claims
invalid_header-early o r h = ground arith

module _ (x : Codec) (policy : Policy) (now : ℕ)
    (find_key : String → Result Rejection VerifyingKey) where
  pub record IsSigned (token : String) : Type 0 where
    pub parts : Parts
    pub compact : IsCompact x token parts
    pub kid : String
    pub key : VerifyingKey
    pub known : find_key kid ≡ ok key
    pub signed : x.check_signature key.sec1 (bytes parts.signing_input) parts.signature ≡ true

  -- If no refusal of the key lookup is about claims, a refusal about the claims, their times or
  -- their parties is only given for a token whose signature a key of the set confirms.
  pub claims_need_signature :
      (token : String) (r : Rejection)
      → ((kid : String) (s : Rejection) → find_key kid ≡ err s → reads_claims s ≡ false)
      → verify x policy token now find_key ≡ err r
      → reads_claims r ≡ true
      → IsSigned token
  unfolding verify verify_parts check_signed
  claims_need_signature token r keys h late = elim (>>=-eq-err (parse_token x token) _ h) [
    | inl e ↦ absurd_by (parse_token-early x token r e)
    | inr (parts, p, h1) ↦
        elim (>>=-eq-err (or_err (x.header_of parts.header) invalid_header) _ h1) [
          | inl e ↦ absurd_by (invalid_header-early (x.header_of parts.header) r e)
          | inr (header, _, h2) ↦ elim (>>=-eq-err (select_kid policy header) _ h2) [
            | inl e ↦ absurd_by (select_kid-early policy header r e)
            | inr (kid, _, h3) ↦ elim (>>=-eq-err (find_key kid) _ h3) [
              | inl e ↦ absurd_by (keys kid r e)
              | inr (key, k, h4) ↦ record {
                parts = parts;
                compact = (parse_token_iff x token parts).0 p;
                kid = kid;
                key = key;
                known = k;
                signed = check_signed-late x policy now parts key r h4 late;
              }
            ]
          ]
        ]
  ]
    where
      absurd_by : reads_claims r ≡ false → IsSigned token
      absurd_by e = absurd (false≢true (sym e ∙ late))
