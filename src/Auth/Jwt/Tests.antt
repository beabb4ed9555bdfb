-- ===== src/Auth/Jwt/Tests.antt =====
-- One token through the verifier, with a toy codec.
use ffmpeg_docker_playground.Base.Words.{saturating_add}
use ffmpeg_docker_playground.Base.{contains}
use ffmpeg_docker_playground.Base.Text.{bytes}
use ffmpeg_docker_playground.Base.{
  ℕ, ◌+◌, ◌<◌, ◌≡◌, refl, ◌↔◌, true, false, Option, none, some, List, [], ◌∷◌, String, ◌==◌, nat_eq,
  length, Result, ok, err, if◌then◌else◌, arith,
}
use ffmpeg_docker_playground.Auth.Rejection.{Rejection, unknown_key, expired}
use ffmpeg_docker_playground.Auth.Jwt.Types.{
  clock_skew_secs, Policy, Header, one, Claims, Verified, VerifyingKey, Codec,
}
use ffmpeg_docker_playground.Auth.Jwt.Claims.{audience_matches, is_refused, check_claims}
use ffmpeg_docker_playground.Auth.Jwt.Verify.{verify}
use ffmpeg_docker_playground.Auth.Jwt.Verify.Laws.{IsAuthentic, verify_iff, replay_window}
use ffmpeg_docker_playground.Auth.Jwt.Verify.Signed.{reads_claims, IsSigned, claims_need_signature}

abbrev header_of_toy : List ℕ → Option Header
header_of_toy [] = none
header_of_toy (b ∷ bs) = some (record { alg = "ES256"; kid = some "k1"; typ = some "at+jwt" })

abbrev claims_of_toy : List ℕ → Option Claims
claims_of_toy [] = none
claims_of_toy (b ∷ bs) = some (record {
  sub = some "alice";
  iss = none;
  aud = some (one "agent");
  exp = some 200;
  iat = some 100;
  nbf = none;
})

-- A signature is good if it is as long as the key and the message together.
abbrev pub codec : Codec
codec = record {
  decode = λ s. some (bytes s);
  header_of = header_of_toy;
  claims_of = claims_of_toy;
  check_signature =
      λ key message signature. nat_eq (length key + length message) (length signature);
}

abbrev pub policy : Policy
policy = record {
  audience = "agent";
  issuer = none;
  typ = some "at+jwt";
  max_lifetime_secs = 300;
  subjects = some ("bob" ∷ "alice" ∷ []);
}

abbrev find_key : String → Result Rejection VerifyingKey
find_key kid =
    if kid == "k1" then ok (record { kid = "k1"; sec1 = 4 ∷ 5 ∷ [] }) else err unknown_key

-- Behind a rotation: the key is of another file, which has one more.
abbrev find_rotated : String → Result Rejection VerifyingKey
find_rotated kid =
    if kid == "k2"
    then ok (record { kid = "k2"; sec1 = 4 ∷ 6 ∷ [] })
    else (if kid == "k1" then ok (record { kid = "k1"; sec1 = 4 ∷ 7 ∷ [] }) else err unknown_key)

abbrev pub token : String
token = "h.p.fives"

abbrev alice : Verified
alice = record { subject = "alice" }

accepted_at_100 : verify codec policy token 100 find_key ≡ ok alice
unfolding verify bytes check_claims saturating_add audience_matches is_refused contains
accepted_at_100 = refl

accepted_at_199 : verify codec policy token 199 find_rotated ≡ ok alice
unfolding verify bytes check_claims saturating_add audience_matches is_refused contains
accepted_at_199 = refl

refused_at_200 : verify codec policy token 200 find_key ≡ err expired
unfolding verify bytes check_claims
refused_at_200 = refl

find_key-early : (kid : String) (s : Rejection) → find_key kid ≡ err s → reads_claims s ≡ false
unfolding reads_claims
find_key-early kid s h = ground arith

verify_iff_example :
    (verify codec policy token 100 find_key ≡ ok alice)
    ↔ IsAuthentic codec policy find_key token 100 alice
verify_iff_example = verify_iff codec policy find_key token 100 alice

replay_window_example : (199 < 100 + clock_skew_secs + 300) × (alice ≡ alice)
replay_window_example =
    replay_window codec policy find_key find_rotated token 100 199 alice alice accepted_at_100
      accepted_at_199

expired_late : reads_claims expired ≡ true
unfolding reads_claims
expired_late = refl

claims_need_signature_example : IsSigned codec policy 200 find_key token
claims_need_signature_example =
    claims_need_signature codec policy 200 find_key token expired find_key-early refused_at_200
      expired_late

abbrev claims : Claims
claims = record {
  sub = some "alice";
  iss = none;
  aud = some (one "agent");
  exp = some 200;
  iat = some 100;
  nbf = some 110;
}

-- A token from the first second of 1970, under a clock that shows 0.
abbrev oldest_claims : Claims
oldest_claims = record claims { exp = some 100; iat = some 0; nbf = none }

accepted_at_epoch : check_claims policy 0 oldest_claims ≡ ok alice
unfolding check_claims saturating_add audience_matches is_refused contains
accepted_at_epoch = refl
