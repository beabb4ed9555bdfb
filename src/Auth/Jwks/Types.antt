-- ===== src/Auth/Jwks/Types.antt =====
-- agent/src/auth/jwks.rs: the data of the key file, and what its reader takes from other crates.
use ffmpeg_docker_playground.Base.{ℕ, Bool, Option, List, String}

-- MAX_FILE_BYTES
abbrev pub max_file_bytes : ℕ
max_file_bytes = 1_048_576

-- MAX_KEYS
abbrev pub max_keys : ℕ
max_keys = 64

-- REFRESH, in seconds
abbrev pub default_refresh : ℕ
default_refresh = 5

-- `d` is read only for its presence.
pub record Jwk : Type 0 where
  pub kty : String
  pub crv : String
  pub x : String
  pub y : String
  pub kid : String
  pub alg : Option String
  pub use_ : Option String
  pub has_d : Bool

-- The texts of the source's errors, one constructor each.
pub data JwksError : Type 0 where
  not_jwks too_many_keys private_key bad_kid bad_coordinate : JwksError
  not_p256 bad_alg bad_use bad_point duplicate_kid : String → JwksError
  cannot_open cannot_stat not_regular cannot_read too_large no_keys : JwksError

-- base64, serde_json on a document of keys, and ring: whether an ephemeral key could be generated
-- and whether the agreement with a point succeeds, at the time that this point is checked.
pub record KeyCodec : Type 0 where
  pub decode : String → Option (List ℕ)
  pub document_of : List ℕ → Option (List Jwk)
  pub generates : List ℕ → Bool
  pub agrees : List ℕ → Bool
