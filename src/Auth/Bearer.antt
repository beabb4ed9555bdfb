-- ===== src/Auth/Bearer.antt =====
-- agent/src/auth/mod.rs: `bearer`, the token of the one `Authorization` header.
pub mod Laws
pub mod Tests
use ffmpeg_docker_playground.Base.Text.{
  bytes, is_blank, split_once, eq_ignore_ascii_case, is_ascii_alphanumeric,
}
use ffmpeg_docker_playground.Base.{
  ℕ, ◌+◌, Bool, true, false, not, ◌||◌, List, [], ◌∷◌, Option, String, ltb, nat_eq, length, all,
  Result, ok, err, ◌>>=◌, ◌>>◌, reject_if, or_err,
}
use ffmpeg_docker_playground.Auth.Rejection.{
  Rejection, missing_credential, duplicate_credential, malformed_authorization, token_too_large,
  malformed_token,
}
use ffmpeg_docker_playground.Auth.Jwt.Types.{max_token_bytes}

-- `b.is_ascii_alphanumeric() || matches!(b, b'-' | b'_' | b'.')`
abbrev pub is_token_byte : ℕ → Bool
is_token_byte b = is_ascii_alphanumeric b || nat_eq b b'-' || nat_eq b b'_' || nat_eq b b'.'

-- `HeaderValue::to_str` is the http crate's: the text of a value of visible ASCII, or a failure.
module _ (to_str : List ℕ → Option String) where
  check_token : String × String → Result Rejection String
  check_token (scheme, token) = do
    reject_if (not (eq_ignore_ascii_case scheme "bearer") || is_blank token) malformed_authorization
    reject_if (not (all is_token_byte (bytes token))) malformed_token
    ok token

  bearer_value : List ℕ → Result Rejection String
  unfolding check_token
  bearer_value value = do
    reject_if (ltb (max_token_bytes + 7) (length value)) token_too_large
    text ← or_err (to_str value) malformed_authorization
    pair ← or_err (split_once b' ' text) malformed_authorization
    check_token pair

  -- The argument is `headers.get_all(AUTHORIZATION)`: the values of that header, in order.
  unfoldable pub bearer : List (List ℕ) → Result Rejection String
  unfolding bearer_value
  bearer [] = err missing_credential
  bearer (value ∷ []) = bearer_value value
  bearer (value ∷ more ∷ values) = err duplicate_credential
