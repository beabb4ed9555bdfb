-- ===== src/Auth/Configure.antt =====
-- agent/src/auth/mod.rs: `Authenticator::from_lookup`, the authenticator that the environment asks
-- for. The environment and the disk are arguments.
pub mod Settings
pub mod Laws
pub mod Tests
use ffmpeg_docker_playground.Base.Text.{is_blank, trim, has_control, split, parse_u64}
use ffmpeg_docker_playground.Base.{
  ℕ, Bool, true, false, not, ◌||◌, Option, none, some, List, [], ◌∷◌, map, String, ◌==◌, in_range,
  is_empty, any, Result, ok, err, ◌>>=◌, ◌>>◌, reject_if, or_err, map_err, if◌then◌else◌,
}
use ffmpeg_docker_playground.Auth.Jwt.Types.{default_max_lifetime_secs, Policy}
use ffmpeg_docker_playground.Auth.Jwks.Types.{KeyCodec, JwksError}
use ffmpeg_docker_playground.Auth.Jwks.Store.{Disk, open_store}
use ffmpeg_docker_playground.Auth.Access.{JwtVerifier, Authenticator, jwt, insecure_no_auth}

abbrev pub jwks_file : String
jwks_file = "FFMPEG_AGENT_AUTH_JWKS_FILE"

abbrev pub hng_jwks : String
hng_jwks = "HNG_BACKEND_JWKS"

abbrev pub audience_name : String
audience_name = "FFMPEG_AGENT_AUTH_AUDIENCE"

abbrev pub issuer_name : String
issuer_name = "FFMPEG_AGENT_AUTH_ISSUER"

abbrev pub typ_name : String
typ_name = "FFMPEG_AGENT_AUTH_TYP"

abbrev pub max_lifetime : String
max_lifetime = "FFMPEG_AGENT_AUTH_MAX_LIFETIME_SECS"

abbrev pub subjects_name : String
subjects_name = "FFMPEG_AGENT_AUTH_SUBJECTS"

-- JWT_SETTINGS
abbrev pub jwt_settings : List String
jwt_settings = audience_name ∷ issuer_name ∷ typ_name ∷ max_lifetime ∷ subjects_name ∷ []

abbrev pub insecure : String
insecure = "FFMPEG_AGENT_INSECURE_NO_AUTH"

abbrev pub retired_token_file : String
retired_token_file = "FFMPEG_AGENT_TOKEN_FILE"

abbrev pub max_lifetime_limit : ℕ
max_lifetime_limit = 86400

-- `OsString`: the text that `into_string` gives, or a value that is not UTF-8.
pub data OsString : Type 0 where
  utf8 : String → OsString
  other : OsString

-- The texts of the errors, one constructor each.
pub data ConfigError : Type 0 where
  retired different_files insecure_with_jwks insecure_not_one auth_required : ConfigError
  not_utf8 bad_text : String → ConfigError
  settings_without_jwks : List String → Bool → ConfigError
  no_audience bad_lifetime bad_subjects : ConfigError
  bad_keys : JwksError → ConfigError

abbrev pub is_set : Option OsString → Bool
is_set none = false
is_set (some v) = true

-- The closure `text`, on the value of a name.
unfoldable pub read_text : String → Option OsString → Result ConfigError (Option String)
read_text name none = ok none
read_text name (some other) = err (not_utf8 name)
read_text name (some (utf8 v)) =
    if is_blank v || not (trim v == v) || has_control v then err (bad_text name) else ok (some v)

-- Two names for the key file, which must agree.
unfoldable pub either_file : Option String → Option String → Result ConfigError (Option String)
either_file none b = ok b
either_file (some a) none = ok (some a)
either_file (some a) (some b) = if a == b then ok (some a) else err different_files

-- `.filter(|secs| (1..=MAX_LIFETIME_LIMIT).contains(secs))`
abbrev pub within_limit : Option ℕ → Option ℕ
within_limit none = none
within_limit (some n) = if in_range 1 max_lifetime_limit n then some n else none

unfoldable pub lifetime_of : Option String → Result ConfigError ℕ
lifetime_of none = ok default_max_lifetime_secs
lifetime_of (some v) = or_err (within_limit (parse_u64 v)) bad_lifetime

pub subjects_of : Option String → Result ConfigError (Option (List String))
subjects_of none = ok none
subjects_of (some list) =
    let items = map trim (split b',' list) in
    if any is_blank items then err bad_subjects else ok (some items)

-- The names that have a value.
unfoldable pub set_names : (String → Option OsString) → List String → List String
set_names get [] = []
set_names get (n ∷ ns) = if is_set (get n) then n ∷ set_names get ns else set_names get ns

module _ (k : KeyCodec) (get : String → Option OsString) (instant : ℕ)
    (disk_of : String → Disk) where
  pub configure : String → Result ConfigError Authenticator
  unfolding subjects_of
  configure path = do
    given ← read_text audience_name (get audience_name)
    audience ← or_err given no_audience
    lifetime ← read_text max_lifetime (get max_lifetime)
    max_lifetime_secs ← lifetime_of lifetime
    list ← read_text subjects_name (get subjects_name)
    subjects ← subjects_of list
    issuer ← read_text issuer_name (get issuer_name)
    typ ← read_text typ_name (get typ_name)
    keys ← map_err bad_keys (open_store k instant (disk_of path))
    ok (
        jwt (record {
          policy = record {
            audience = audience;
            issuer = issuer;
            typ = typ;
            max_lifetime_secs = max_lifetime_secs;
            subjects = subjects;
          };
          keys = keys;
        }))

  -- The `match` on the key file and the flag.
  pub choose : Option String → Option String → Result ConfigError Authenticator
  unfolding configure set_names
  choose (some path) (some flag) = err insecure_with_jwks
  choose (some path) none = configure path
  choose none (some flag) =
      if not (flag == "1")
      then err insecure_not_one
      else if not (is_empty (set_names get jwt_settings))
      then err (settings_without_jwks (set_names get jwt_settings) true)
      else ok insecure_no_auth
  choose none none =
      if not (is_empty (set_names get jwt_settings))
      then err (settings_without_jwks (set_names get jwt_settings) false)
      else err auth_required

  unfoldable pub from_lookup : Result ConfigError Authenticator
  unfolding read_text either_file choose
  from_lookup = do
    reject_if (is_set (get retired_token_file)) retired
    a ← read_text jwks_file (get jwks_file)
    b ← read_text hng_jwks (get hng_jwks)
    jwks ← either_file a b
    flag ← read_text insecure (get insecure)
    choose jwks flag
