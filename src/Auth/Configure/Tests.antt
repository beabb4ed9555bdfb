-- ===== src/Auth/Configure/Tests.antt =====
-- The cases of `fails_closed_without_configuration`, `reads_the_jwt_policy` and
-- `refuses_contradictory_or_incomplete_configuration` in the tests of agent/src/auth/mod.rs, but
-- for the key file that is not there.
use ffmpeg_docker_playground.Base.Text.{has_control, trim, parse_u64, split}
use ffmpeg_docker_playground.Base.{contains}
use ffmpeg_docker_playground.Base.{
  ◌≡◌, refl, true, false, Option, none, some, List, [], ◌∷◌, map, String, ◌==◌, Result, ok, err,
  if◌then◌else◌,
}
use ffmpeg_docker_playground.Auth.Access.{Authenticator, jwt, insecure_no_auth}
use ffmpeg_docker_playground.Auth.Jwks.Tests as KeyTests
use ffmpeg_docker_playground.Auth.Jwks.Store.{load, open_store, with_refresh}
use ffmpeg_docker_playground.Auth.Jwks.Parse.{parse}
use ffmpeg_docker_playground.Auth.Tests as AuthTests
use ffmpeg_docker_playground.Auth.Configure.Laws.{Explains, from_lookup_sound}
use ffmpeg_docker_playground.Auth.Configure.{
  jwks_file, hng_jwks, audience_name, issuer_name, typ_name, max_lifetime, subjects_name,
  jwt_settings, insecure, retired_token_file, OsString, utf8, ConfigError, retired, different_files,
  insecure_with_jwks, insecure_not_one, auth_required, bad_text, settings_without_jwks, no_audience,
  bad_lifetime, bad_subjects, lifetime_of, from_lookup,
}

-- `vars`, as a map.
value_of : List (String × String) → String → Option OsString
value_of [] name = none
value_of ((n, v) ∷ vars) name = if n == name then some (utf8 v) else value_of vars name

abbrev load_from : List (String × String) → Result ConfigError Authenticator
load_from vars = from_lookup KeyTests.codec (value_of vars) 10 AuthTests.disk_of

abbrev flags : List String
flags = "0" ∷ "true" ∷ "yes" ∷ "TRUE" ∷ []

abbrev unclean_flags : List String
unclean_flags = " 1" ∷ "1 " ∷ "" ∷ []

unset : load_from [] ≡ err auth_required
unfolding from_lookup value_of
unset = refl

other_flags :
    map (λ flag. load_from ((insecure, flag) ∷ [])) flags
    ≡ err insecure_not_one ∷ err insecure_not_one ∷ err insecure_not_one ∷ err insecure_not_one ∷ []
unfolding from_lookup value_of trim has_control
other_flags = refl

texts_of_flags :
    map (λ flag. load_from ((insecure, flag) ∷ [])) unclean_flags
    ≡ err (bad_text insecure) ∷ err (bad_text insecure) ∷ err (bad_text insecure) ∷ []
unfolding from_lookup value_of trim has_control
texts_of_flags = refl

disabled : load_from ((insecure, "1") ∷ []) ≡ ok insecure_no_auth
unfolding from_lookup value_of trim has_control
disabled = refl

abbrev keys : String × String
keys = (jwks_file, "/keys.json")

abbrev contradictions : List (List (String × String))
contradictions =
    (keys ∷ (audience_name, "a") ∷ (insecure, "1") ∷ [])
    ∷ ((hng_jwks, "/keys.json") ∷ (audience_name, "a") ∷ (insecure, "1") ∷ [])
    ∷ (keys ∷ (hng_jwks, "/other.json") ∷ (audience_name, "a") ∷ [])
    ∷ ((hng_jwks, "/keys.json") ∷ [])
    ∷ ((hng_jwks, "") ∷ [])
    ∷ (keys ∷ [])
    ∷ ((retired_token_file, "/dev/null") ∷ (insecure, "1") ∷ [])
    ∷ ((retired_token_file, "") ∷ [])
    ∷ []

refuses_contradictions :
    map load_from contradictions
    ≡ err insecure_with_jwks
      ∷ err insecure_with_jwks
      ∷ err different_files
      ∷ err no_audience
      ∷ err (bad_text hng_jwks)
      ∷ err no_audience
      ∷ err retired
      ∷ err retired
      ∷ []
unfolding from_lookup value_of trim has_control
refuses_contradictions = refl

refuses_lone_settings :
    map (λ setting. load_from ((setting, "x") ∷ [])) jwt_settings
    ≡ map (λ setting. err (settings_without_jwks (setting ∷ []) false)) jwt_settings
unfolding from_lookup value_of trim has_control
refuses_lone_settings = refl

refuses_settings_with_flag :
    map (λ setting. load_from ((setting, "x") ∷ (insecure, "1") ∷ [])) jwt_settings
    ≡ map (λ setting. err (settings_without_jwks (setting ∷ []) true)) jwt_settings
unfolding from_lookup value_of trim has_control
refuses_settings_with_flag = refl

-- A value that is not clean, in front of the ones that are.
abbrev bad_values : List (String × String)
bad_values =
    (audience_name, "")
    ∷ (audience_name, " a")
    ∷ (issuer_name, "a\tb")
    ∷ (typ_name, "")
    ∷ (max_lifetime, "0")
    ∷ (max_lifetime, "86401")
    ∷ (max_lifetime, "-1")
    ∷ (max_lifetime, "5m")
    ∷ (subjects_name, "a,,b")
    ∷ (subjects_name, "a,")
    ∷ []

refuses_bad_values :
    map (λ var. load_from (var ∷ keys ∷ (audience_name, "a") ∷ [])) bad_values
    ≡ err (bad_text audience_name)
      ∷ err (bad_text audience_name)
      ∷ err (bad_text issuer_name)
      ∷ err (bad_text typ_name)
      ∷ err bad_lifetime
      ∷ err bad_lifetime
      ∷ err bad_lifetime
      ∷ err bad_lifetime
      ∷ err bad_subjects
      ∷ err bad_subjects
      ∷ []
unfolding from_lookup value_of trim has_control lifetime_of parse_u64 split
refuses_bad_values = refl

-- Every setting of the verifier.
abbrev settings : List (String × String)
settings =
    keys
    ∷ (audience_name, "ffmpeg-agent")
    ∷ (issuer_name, "example-issuer")
    ∷ (typ_name, "example+jwt")
    ∷ (max_lifetime, "60")
    ∷ (subjects_name, "caller-a, caller-b")
    ∷ []

abbrev configured : Authenticator
configured = jwt (record {
  policy = record {
    audience = "ffmpeg-agent";
    issuer = some "example-issuer";
    typ = some "example+jwt";
    max_lifetime_secs = 60;
    subjects = some ("caller-a" ∷ "caller-b" ∷ []);
  };
  keys = KeyTests.store;
})

reads_policy : load_from settings ≡ ok configured
unfolding from_lookup value_of trim has_control lifetime_of parse_u64 split open_store with_refresh
    load parse contains
reads_policy = refl

from_lookup_sound_example :
    Explains KeyTests.codec (value_of settings) 10 AuthTests.disk_of configured
from_lookup_sound_example =
    from_lookup_sound KeyTests.codec (value_of settings) 10 AuthTests.disk_of configured
      reads_policy

reads_defaults :
    load_from (keys ∷ (audience_name, "ffmpeg-agent") ∷ [])
    ≡ ok (
        jwt (record {
          policy = record {
            audience = "ffmpeg-agent";
            issuer = none;
            typ = none;
            max_lifetime_secs = 300;
            subjects = none;
          };
          keys = KeyTests.store;
        }))
unfolding from_lookup value_of trim has_control lifetime_of parse_u64 split open_store with_refresh
    load parse contains
reads_defaults = refl
