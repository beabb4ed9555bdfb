-- ===== src/Auth/Jwt/Types.antt =====
-- agent/src/auth/jwt.rs: the data of the verifier, and what it takes from other crates.
use ffmpeg_docker_playground.Base.{ℕ, Bool, List, Option, String}

-- MAX_TOKEN_BYTES
abbrev pub max_token_bytes : ℕ
max_token_bytes = 16384

-- CLOCK_SKEW_SECS
abbrev pub clock_skew_secs : ℕ
clock_skew_secs = 15

-- DEFAULT_MAX_LIFETIME_SECS
abbrev pub default_max_lifetime_secs : ℕ
default_max_lifetime_secs = 300

-- The allow-list is a set in the source: only membership is asked of it.
pub record Policy : Type 0 where
  pub audience : String
  pub issuer : Option String
  pub typ : Option String
  pub max_lifetime_secs : ℕ
  pub subjects : Option (List String)

pub record Header : Type 0 where
  pub alg : String
  pub kid : Option String
  pub typ : Option String

pub data Audience : Type 0 where
  one : String → Audience
  many : List String → Audience

pub record Claims : Type 0 where
  pub sub : Option String
  pub iss : Option String
  pub aud : Option Audience
  pub exp : Option ℕ
  pub iat : Option ℕ
  pub nbf : Option ℕ

pub record Verified : Type 0 where
  pub subject : String

-- A public key: its id and its SEC1 point (agent/src/auth/jwks.rs).
pub record VerifyingKey : Type 0 where
  pub kid : String
  pub sec1 : List ℕ

-- What the verifier calls in other crates: base64 and serde_json decoding, which may fail, and
-- ring's check of a signature (key, message, signature).
pub record Codec : Type 0 where
  pub decode : String → Option (List ℕ)
  pub header_of : List ℕ → Option Header
  pub claims_of : List ℕ → Option Claims
  pub check_signature : List ℕ → List ℕ → List ℕ → Bool
