-- ===== src/Auth/Tests.antt =====
-- One `Authorization` header, with a toy reading of header values, and two environments.
use ffmpeg_docker_playground.Base.Text.{has_control, trim}
use ffmpeg_docker_playground.Auth.Configure.{lifetime_of}
use ffmpeg_docker_playground.Auth.Jwks.Store.{load, open_store, with_refresh}
use ffmpeg_docker_playground.Auth.Jwks.Parse.{parse}
use ffmpeg_docker_playground.Base.{contains}
use ffmpeg_docker_playground.Base.Text.{bytes, split_once, eq_ignore_ascii_case}
use ffmpeg_docker_playground.Base.{
  ◌==◌, ℕ, ◌≡◌, refl, ◌↔◌, Option, none, some, List, [], ◌∷◌, String, nat_eq, length, ok,
  if◌then◌else◌,
}
use ffmpeg_docker_playground.Auth.Jwt.Types.{Verified}
use ffmpeg_docker_playground.Auth.Jwt.Tests as TokenTests
use ffmpeg_docker_playground.Auth.Jwks.Tests as KeyTests
use ffmpeg_docker_playground.Auth.Jwks.Store.{Disk}
use ffmpeg_docker_playground.Auth.Access.{JwtVerifier, Authenticator, jwt, insecure_no_auth}
use ffmpeg_docker_playground.Auth.Configure.{
  jwks_file, audience_name, insecure, OsString, utf8, from_lookup,
}
use ffmpeg_docker_playground.Auth.Configure.Laws.{IsDisabled, disabled_iff}
use ffmpeg_docker_playground.Auth.Bearer.{bearer}
use ffmpeg_docker_playground.Auth.Bearer.Laws.{IsBearer, bearer_iff}

-- The one value that is read.
abbrev text_of : List ℕ → Option String
text_of value = if nat_eq (length value) 10 then some "bearer a.b" else none

abbrev values : List (List ℕ)
values = bytes "bearer a.b" ∷ []

taken : bearer text_of values ≡ ok "a.b"
unfolding bearer bytes split_once eq_ignore_ascii_case
taken = refl

bearer_iff_example : (bearer text_of values ≡ ok "a.b") ↔ IsBearer text_of values "a.b"
bearer_iff_example = bearer_iff text_of values "a.b"

abbrev pub verifier : JwtVerifier
verifier = record { policy = TokenTests.policy; keys = KeyTests.store }

abbrev alice : Verified
alice = record { subject = "alice" }

-- An environment with a key file and an audience, and one with the flag only.
abbrev pub secured : String → Option OsString
secured name =
    if name == jwks_file
    then some (utf8 "/keys.json")
    else if name == audience_name
    then some (utf8 "agent")
    else none

abbrev disarmed : String → Option OsString
disarmed name = if name == insecure then some (utf8 "1") else none

abbrev pub disk_of : String → Disk
disk_of path = KeyTests.disk_one

abbrev pub started : Authenticator
started = jwt (record {
  policy = record {
    audience = "agent";
    issuer = none;
    typ = none;
    max_lifetime_secs = 300;
    subjects = none;
  };
  keys = KeyTests.store;
})

pub starts : from_lookup KeyTests.codec secured 10 disk_of ≡ ok started
unfolding from_lookup trim has_control lifetime_of open_store with_refresh load parse contains
starts = refl

disabled_iff_example :
    (from_lookup KeyTests.codec disarmed 10 disk_of ≡ ok insecure_no_auth)
    ↔ IsDisabled KeyTests.codec disarmed 10 disk_of
disabled_iff_example = disabled_iff KeyTests.codec disarmed 10 disk_of
