-- ===== src/Auth/Access/Tests.antt =====
-- Requests with one token, before and behind a rotation of the key file, with toy codecs.
use ffmpeg_docker_playground.Base.Text.{bytes, has_control, split_once, eq_ignore_ascii_case}
use ffmpeg_docker_playground.Base.Words.{saturating_add}
use ffmpeg_docker_playground.Base.{
  ℕ, ◌≡◌, refl, ◌↔◌, contains, Option, some, List, [], ◌∷◌, String, nat_eq, length, ok, err,
}
use ffmpeg_docker_playground.Auth.Rejection.{unknown_key}
use ffmpeg_docker_playground.Auth.Jwt.Types.{Header, Verified, Codec}
use ffmpeg_docker_playground.Auth.Jwt.Claims.{audience_matches, is_refused, check_claims}
use ffmpeg_docker_playground.Auth.Jwt.Tests as TokenTests
use ffmpeg_docker_playground.Auth.Jwt.Verify.{verify}
use ffmpeg_docker_playground.Auth.Jwks.Parse.{parse}
use ffmpeg_docker_playground.Auth.Jwks.Store.{load, key, is_stale, find_loaded}
use ffmpeg_docker_playground.Auth.Jwks.Tests as KeyTests
use ffmpeg_docker_playground.Auth.Bearer.{bearer}
use ffmpeg_docker_playground.Auth.Access.{JwtVerifier, jwt, authenticate}
use ffmpeg_docker_playground.Auth.Access.Reads.{Call, after}
use ffmpeg_docker_playground.Auth.Access.History.{Lets, authenticate-after_iff}

abbrev header_of_toy : List ℕ → Option Header
header_of_toy bs = some (record { alg = "ES256"; kid = some "old"; typ = some "at+jwt" })

-- A signature is good if the key has the length of a point.
abbrev codec : Codec
codec = record TokenTests.codec {
  header_of = header_of_toy;
  check_signature = λ sec1 message signature. nat_eq (length sec1) 65;
}

abbrev text_of : List ℕ → Option String
text_of value = some "Bearer h.p.fives"

abbrev values : List (List ℕ)
values = bytes "Bearer h.p.fives" ∷ []

abbrev alice : Verified
alice = record { subject = "alice" }

-- The verifier of startup: its store was opened at 10, with a refresh time of 5.
abbrev verifier : JwtVerifier
verifier = record { policy = TokenTests.policy; keys = KeyTests.store }

-- A request two seconds later, and one behind the refresh time, at which the file is read again.
abbrev earlier : List Call
earlier =
    record { instant = 12; disk = KeyTests.disk_one; values = values; now = 100 }
    ∷ record { instant = 15; disk = KeyTests.disk_one; values = values; now = 103 }
    ∷ []

let_in :
    (authenticate codec KeyTests.codec text_of
      (after codec KeyTests.codec text_of (jwt verifier) earlier)
      18
      KeyTests.disk_one
      values
      106).0
    ≡ ok (some alice)
unfolding authenticate after bearer bytes split_once eq_ignore_ascii_case verify check_claims
    saturating_add audience_matches is_refused contains key load parse has_control is_stale
    find_loaded
let_in = refl

rotated :
    (authenticate codec KeyTests.codec text_of
      (after codec KeyTests.codec text_of (jwt verifier) earlier)
      18
      KeyTests.disk_two
      values
      106).0
    ≡ err unknown_key
unfolding authenticate after bearer bytes split_once eq_ignore_ascii_case verify check_claims
    saturating_add audience_matches is_refused contains key load parse has_control is_stale
    find_loaded
rotated = refl

authenticate-after_iff_example :
    ((authenticate codec KeyTests.codec text_of
        (after codec KeyTests.codec text_of (jwt verifier) earlier)
        18
        KeyTests.disk_one
        values
        106).0
      ≡ ok (some alice))
    ↔ Lets codec KeyTests.codec text_of 5 10 KeyTests.disk_one earlier 18 KeyTests.disk_one values
        106
        (jwt verifier)
        (some alice)
authenticate-after_iff_example =
    authenticate-after_iff codec KeyTests.codec text_of 5 10 KeyTests.disk_one earlier 18
      KeyTests.disk_one values 106 (jwt verifier) (some alice) KeyTests.opened
