-- ===== src/Auth/Jwks/Parse.antt =====
-- agent/src/auth/jwks.rs: `coordinate`, `valid_point` and `parse`.
pub mod Laws
pub mod Unique
use ffmpeg_docker_playground.Base.Text.{is_blank, has_control}
use ffmpeg_docker_playground.Base.{
  ℕ, Bool, true, false, not, ◌&&◌, ◌||◌, Option, none, some, List, [], ◌∷◌, ◌++◌, String, ◌==◌, ltb,
  nat_eq, length, contains, Result, ok, err, ◌>>=◌, ◌>>◌, reject_if, or_err, if◌then◌else◌,
}
use ffmpeg_docker_playground.Auth.Jwt.Types.{VerifyingKey}
use ffmpeg_docker_playground.Auth.Jwks.Types.{
  max_keys, Jwk, KeyCodec, JwksError, not_jwks, too_many_keys, private_key, bad_kid, bad_coordinate,
  not_p256, bad_alg, bad_use, bad_point, duplicate_kid,
}

-- `o.as_deref().is_some_and(|t| t != wanted)`
abbrev pub declares_other : Option String → String → Bool
declares_other none wanted = false
declares_other (some t) wanted = not (t == wanted)

-- `bytes.try_into().ok()` at an array of 32 bytes.
abbrev pub exactly_32 : Option (List ℕ) → Option (List ℕ)
exactly_32 none = none
exactly_32 (some bytes) = if nat_eq (length bytes) 32 then some bytes else none

module _ (x : KeyCodec) where
  pub coordinate : String → Result JwksError (List ℕ)
  coordinate value = or_err (exactly_32 (x.decode value)) bad_coordinate

  pub valid_point : List ℕ → Bool
  valid_point sec1 = x.generates sec1 && x.agrees sec1

  -- The checks on the members of a key, before its point is built.
  pub check_members : Jwk → Result JwksError (Unit {0})
  check_members jwk = do
    reject_if jwk.has_d private_key
    reject_if (is_blank jwk.kid || has_control jwk.kid) bad_kid
    reject_if (not (jwk.kty == "EC") || not (jwk.crv == "P-256")) (not_p256 jwk.kid)
    reject_if (declares_other jwk.alg "ES256") (bad_alg jwk.kid)
    reject_if (declares_other jwk.use_ "sig") (bad_use jwk.kid)

  pub check_point : Jwk → Result JwksError (List ℕ)
  unfolding coordinate valid_point
  check_point jwk = do
    cx ← coordinate jwk.x
    cy ← coordinate jwk.y
    reject_if (not (valid_point (4 ∷ cx ++ cy))) (bad_point jwk.kid)
    ok (4 ∷ cx ++ cy)

  -- One round of the loop of `parse`; `seen` holds the key ids of the rounds before.
  pub check_jwk : List String → Jwk → Result JwksError VerifyingKey
  unfolding check_members check_point
  check_jwk seen jwk = do
    check_members jwk
    sec1 ← check_point jwk
    reject_if (contains jwk.kid seen) (duplicate_kid jwk.kid)
    ok (record { kid = jwk.kid; sec1 = sec1 })

  pub parse_keys : List String → List VerifyingKey → List Jwk → Result JwksError (List VerifyingKey)
  unfolding check_jwk
  parse_keys seen keys [] = ok keys
  parse_keys seen keys (jwk ∷ jwks) = do
    key ← check_jwk seen jwk
    parse_keys (jwk.kid ∷ seen) (keys ++ key ∷ []) jwks

  unfoldable pub parse : List ℕ → Result JwksError (List VerifyingKey)
  unfolding parse_keys
  parse bytes = do
    document ← or_err (x.document_of bytes) not_jwks
    reject_if (ltb max_keys (length document)) too_many_keys
    parse_keys [] [] document
