-- ===== src/Auth/Jwks/Tests.antt =====
-- A key file that is rotated under the agent, with a toy codec.
use ffmpeg_docker_playground.Base.Text.{has_control}
use ffmpeg_docker_playground.Base.{contains}
use ffmpeg_docker_playground.Auth.Jwks.Store.{find_loaded, is_stale}
use ffmpeg_docker_playground.Base.{
  ℕ, zero, suc, ◌≡◌, refl, ◌↔◌, true, false, Option, none, some, List, [], ◌∷◌, map, String, nat_eq,
  ok, if◌then◌else◌, arith,
}
use ffmpeg_docker_playground.Auth.Jwt.Types.{VerifyingKey}
use ffmpeg_docker_playground.Auth.Jwks.Types.{Jwk, KeyCodec}
use ffmpeg_docker_playground.Auth.Jwks.Parse.{parse}
use ffmpeg_docker_playground.Auth.Jwks.Parse.Unique.{IsKeySet, parse_iff}
use ffmpeg_docker_playground.Auth.Jwks.Store.{
  Fingerprint, Disk, Loaded, KeyStore, load, with_refresh, key,
}
use ffmpeg_docker_playground.Auth.Jwks.Store.Lookup.{direct, IsServed, key-IsServed}
use ffmpeg_docker_playground.Auth.Jwks.Store.History.{Call, answers, IsVersioned, opened-answers}

abbrev zeros : ℕ → List ℕ
zeros zero = []
zeros (suc n) = 0 ∷ zeros n

abbrev jwk : String → Jwk
jwk kid = record {
  kty = "EC";
  crv = "P-256";
  x = "x";
  y = "y";
  kid = kid;
  alg = some "ES256";
  use_ = none;
  has_d = false;
}

-- A file that begins with 1 or 2 lists one key, and any other file is damaged.
abbrev document_of : List ℕ → Option (List Jwk)
document_of [] = none
document_of (b ∷ bytes) =
    if nat_eq b 1 then some (jwk "old" ∷ []) else if nat_eq b 2 then some (jwk "new" ∷ []) else none

abbrev pub codec : KeyCodec
codec = record {
  decode = λ s. some (zeros 32);
  document_of = document_of;
  generates = λ sec1. true;
  agrees = λ sec1. true;
}

abbrev point : List ℕ
point = 4 ∷ zeros 64

abbrev old_key : VerifyingKey
old_key = record { kid = "old"; sec1 = point }

abbrev new_key : VerifyingKey
new_key = record { kid = "new"; sec1 = point }

abbrev version_one : Fingerprint
version_one = record { size = 1; modified = some 7; inode = 1 }

abbrev version_two : Fingerprint
version_two = record { size = 1; modified = some 8; inode = 2 }

abbrev showing : Fingerprint → List ℕ → Disk
showing f bytes = record {
  stat = some f;
  file = some (record {
    metadata = some (record { fingerprint = f; is_file = true });
    content = some bytes;
  });
}

abbrev pub disk_one : Disk
disk_one = showing version_one (1 ∷ [])

abbrev pub disk_two : Disk
disk_two = showing version_two (2 ∷ [])

abbrev removed : Disk
removed = record { stat = none; file = none }

-- The content of the two versions.
abbrev version : Fingerprint → Option (List VerifyingKey)
version f = if nat_eq f.inode 1 then some (old_key ∷ []) else some (new_key ∷ [])

abbrev loaded_one : Loaded
loaded_one = record { at = 10; fingerprint = version_one; keys = old_key ∷ [] }

abbrev pub store : KeyStore
store = record { refresh = 5; poisoned = false; loaded = some loaded_one }

loads_one :
    (now : ℕ)
    → load codec now disk_one
      ≡ ok (record { at = now; fingerprint = version_one; keys = old_key ∷ [] })
unfolding load parse has_control contains
loads_one now = refl

loads_two :
    (now : ℕ)
    → load codec now disk_two
      ≡ ok (record { at = now; fingerprint = version_two; keys = new_key ∷ [] })
unfolding load parse has_control contains
loads_two now = refl

pub opened : with_refresh codec 5 10 disk_one ≡ ok store
unfolding with_refresh load parse has_control contains
opened = refl

served : (key codec store 12 disk_one "old").0 ≡ ok old_key
unfolding key is_stale find_loaded
served = refl

parse_iff_example :
    (parse codec (1 ∷ []) ≡ ok (old_key ∷ [])) ↔ IsKeySet codec (1 ∷ []) (old_key ∷ [])
parse_iff_example = parse_iff codec (1 ∷ []) (old_key ∷ [])

key-IsServed_example : IsServed codec store 12 disk_one "old" old_key
key-IsServed_example = key-IsServed codec store 12 disk_one "old" old_key served

disk_one-IsVersioned : IsVersioned codec version disk_one
unfolding load parse has_control contains
disk_one-IsVersioned now f shown = (ground arith, ground arith)

disk_two-IsVersioned : IsVersioned codec version disk_two
unfolding load parse has_control contains
disk_two-IsVersioned now f shown = (ground arith, ground arith)

removed-IsVersioned : IsVersioned codec version removed
removed-IsVersioned now f shown = cc

abbrev calls : List Call
calls =
    record { now = 12; disk = disk_one; kid = "old" }
    ∷ record { now = 13; disk = disk_two; kid = "old" }
    ∷ record { now = 14; disk = removed; kid = "new" }
    ∷ record { now = 15; disk = disk_two; kid = "new" }
    ∷ []

opened-answers_example :
    answers codec store calls ≡ map (λ c. direct codec c.now c.disk c.kid) calls
opened-answers_example =
    opened-answers codec version 5 10 disk_one version_one store calls opened refl
      disk_one-IsVersioned
      (
        disk_one-IsVersioned,
        (disk_two-IsVersioned, (removed-IsVersioned, (disk_two-IsVersioned, tt))),
      )
