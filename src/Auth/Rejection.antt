-- ===== src/Auth/Rejection.antt =====
-- agent/src/auth/mod.rs: the reasons for which a request is not authenticated.
use ffmpeg_docker_playground.Base.{String}

pub data Rejection : Type 0 where
  missing_credential duplicate_credential malformed_authorization token_too_large : Rejection
  malformed_token invalid_header unsupported_algorithm missing_kid type_mismatch : Rejection
  unknown_key keys_unavailable bad_signature invalid_claims : Rejection
  missing_claim : String → Rejection
  invalid_times expired issued_in_future not_yet_valid lifetime_too_long : Rejection
  wrong_issuer wrong_audience subject_not_allowed : Rejection
