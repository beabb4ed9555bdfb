-- ===== src/Auth/Jwt/Claims.antt =====
-- agent/src/auth/jwt.rs: the checks of `verify` on the claims of a token whose signature is good.
pub mod Laws
use ffmpeg_docker_playground.Base.Words.{saturating_add}
use ffmpeg_docker_playground.Base.Text.{is_blank}
use ffmpeg_docker_playground.Base.{
  ℕ, ◌-◌, Bool, true, false, not, Option, none, some, List, String, ◌==◌, ltb, leb, contains,
  Result, ok, ◌>>=◌, ◌>>◌, reject_if, or_err,
}
use ffmpeg_docker_playground.Auth.Rejection.{
  Rejection, missing_claim, invalid_times, expired, issued_in_future, not_yet_valid,
  lifetime_too_long, wrong_issuer, wrong_audience, subject_not_allowed,
}
use ffmpeg_docker_playground.Auth.Jwt.Types.{
  clock_skew_secs, Policy, Audience, one, many, Claims, Verified,
}

-- `o.filter(|s| !s.is_empty())`
abbrev pub non_empty : Option String → Option String
non_empty none = none
non_empty (some String.[]) = none
non_empty (some (String.◌∷◌ c s)) = some (String.◌∷◌ c s)

-- `a.as_ref() == Some(s)`
abbrev pub equals : Option String → String → Bool
equals none s = false
equals (some t) s = t == s

-- `if let Some(required) = wanted && given.as_ref() != Some(required)`
abbrev pub differs : Option String → Option String → Bool
differs none given = false
differs (some required) given = not (equals given required)

-- `nbf.is_some_and(|nbf| nbf > limit)`
abbrev pub exceeds : Option ℕ → ℕ → Bool
exceeds none limit = false
exceeds (some n) limit = ltb limit n

unfoldable pub audience_matches : Option Audience → String → Bool
audience_matches none a = false
audience_matches (some (one aud)) a = aud == a
audience_matches (some (many auds)) a = contains a auds

-- `subjects.as_ref().is_some_and(|allowed| !allowed.contains(&subject))`
unfoldable pub is_refused : Option (List String) → String → Bool
is_refused none s = false
is_refused (some allowed) s = not (contains s allowed)

pub check_times : Policy → ℕ → Claims → ℕ → ℕ → Result Rejection (Unit {0})
check_times policy now claims iat exp = do
  reject_if (leb exp iat) invalid_times
  reject_if (leb exp now) expired
  reject_if (ltb (saturating_add now clock_skew_secs) iat) issued_in_future
  reject_if (exceeds claims.nbf (saturating_add now clock_skew_secs)) not_yet_valid
  reject_if (ltb policy.max_lifetime_secs (exp - iat)) lifetime_too_long

pub check_parties : Policy → Claims → String → Result Rejection (Unit {0})
check_parties policy claims subject = do
  reject_if (differs policy.issuer claims.iss) wrong_issuer
  reject_if (not (audience_matches claims.aud policy.audience)) wrong_audience
  reject_if (is_refused policy.subjects subject) subject_not_allowed

-- The end of `verify`, from the parsed claims on.
unfoldable pub check_claims : Policy → ℕ → Claims → Result Rejection Verified
unfolding check_times check_parties
check_claims policy now claims = do
  exp ← or_err claims.exp (missing_claim "exp")
  iat ← or_err claims.iat (missing_claim "iat")
  subject ← or_err (non_empty claims.sub) (missing_claim "sub")
  check_times policy now claims iat exp
  check_parties policy claims subject
  ok (record { subject = subject })
