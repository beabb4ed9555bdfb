-- ===== src/Auth/Access.antt =====
-- agent/src/auth/mod.rs: `Authenticator::authenticate`, over the verifier of agent/src/auth/jwt.rs
-- with its key store.
pub mod Laws
pub mod Reads
pub mod History
pub mod Tests
use ffmpeg_docker_playground.Base.{ℕ, Option, none, some, List, String, Result, ok, err}
use ffmpeg_docker_playground.Auth.Rejection.{Rejection}
use ffmpeg_docker_playground.Auth.Jwt.Types.{Policy, Verified, VerifyingKey, Codec}
use ffmpeg_docker_playground.Auth.Jwt.Compact.{Parts, parse_token}
use ffmpeg_docker_playground.Auth.Jwt.Verify.{select_kid, verify}
use ffmpeg_docker_playground.Auth.Jwks.Types.{KeyCodec}
use ffmpeg_docker_playground.Auth.Jwks.Store.{Disk, KeyStore, key}
use ffmpeg_docker_playground.Auth.Bearer.{bearer}

pub record JwtVerifier : Type 0 where
  pub policy : Policy
  pub keys : KeyStore

pub data Authenticator : Type 0 where
  jwt : JwtVerifier → Authenticator
  insecure_no_auth : Authenticator

-- `None` when authentication is disabled.
abbrev pub Principal : Type 0
Principal = Option Verified

abbrev pub principal_of : Result Rejection Verified → Result Rejection Principal
principal_of (ok v) = ok (some v)
principal_of (err r) = err r

module _ (x : Codec) (k : KeyCodec) (to_str : List ℕ → Option String) where
  -- The closure `|kid| self.keys.key(kid)`: its answer, at this instant and with this disk.
  abbrev pub key_at : KeyStore → ℕ → Disk → String → Result Rejection VerifyingKey
  key_at keys instant disk kid = (key k keys instant disk kid).0

  -- `JwtVerifier::verify`
  unfoldable pub verify_token : JwtVerifier → ℕ → Disk → String → ℕ → Result Rejection Verified
  verify_token v instant disk token now = verify x v.policy token now (key_at v.keys instant disk)

  asked_of_parts : Policy → Result Rejection Parts → Option String
  asked_of_parts policy (err r) = none
  asked_of_parts policy (ok parts) = elim (x.header_of parts.header) [
    | none ↦ none
    | some header ↦ elim (select_kid policy header) [ err r ↦ none | ok kid ↦ some kid ]
  ]

  -- The id that the verifier asks the store for, if it comes to that: the call changes the store.
  unfoldable keys_after : JwtVerifier → ℕ → Disk → String → KeyStore
  unfolding asked_of_parts
  keys_after v instant disk token = elim (asked_of_parts v.policy (parse_token x token)) [
    | none ↦ v.keys
    | some kid ↦ (key k v.keys instant disk kid).1
  ]

  unfoldable pub authenticate :
      Authenticator → ℕ → Disk → List (List ℕ) → ℕ → Result Rejection Principal × Authenticator
  unfolding verify_token keys_after
  authenticate insecure_no_auth instant disk values now = (ok none, insecure_no_auth)
  authenticate (jwt v) instant disk values now = elim (bearer to_str values) [
    | err r ↦ (err r, jwt v)
    | ok token ↦ (
      principal_of (verify_token v instant disk token now),
      jwt (record v { keys = keys_after v instant disk token }),
    )
  ]
