-- ===== src/Auth/Jwks/Store.antt =====
-- agent/src/auth/jwks.rs: `load` and `KeyStore`, the cached copy of the key file. The clock and the
-- file system are arguments of each call.
pub mod Lookup
pub mod History
use Prim.Native.Nat.{compare, Ordering}
use ffmpeg_docker_playground.Base.{
  ℕ, ◌+◌, ◌-◌, Bool, true, false, not, ◌&&◌, ◌||◌, Option, none, some, List, [], ◌∷◌, String, ◌==◌,
  ltb, leb, nat_eq, length, take, is_empty, Result, ok, err, ◌>>=◌, ◌>>◌, reject_if, or_err,
  if◌then◌else◌,
}
use ffmpeg_docker_playground.Auth.Rejection.{Rejection, unknown_key, keys_unavailable}
use ffmpeg_docker_playground.Auth.Jwt.Types.{VerifyingKey}
use ffmpeg_docker_playground.Auth.Jwks.Types.{
  max_file_bytes, default_refresh, KeyCodec, JwksError, cannot_open, cannot_stat, not_regular,
  cannot_read, too_large, no_keys,
}
use ffmpeg_docker_playground.Auth.Jwks.Parse.{parse}

pub record Fingerprint : Type 0 where
  pub size : ℕ
  pub modified : Option ℕ
  pub inode : ℕ

abbrev same_time : Option ℕ → Option ℕ → Bool
same_time none none = true
same_time (some a) (some b) = nat_eq a b
same_time none (some b) = false
same_time (some a) none = false

-- The derived `PartialEq`.
unfoldable pub same_fingerprint : Fingerprint → Fingerprint → Bool
same_fingerprint f g =
    nat_eq f.size g.size && same_time f.modified g.modified && nat_eq f.inode g.inode

pub record Metadata : Type 0 where
  pub fingerprint : Fingerprint
  pub is_file : Bool

-- A file that could be opened: its metadata and its bytes, where the calls succeed.
pub record OpenFile : Type 0 where
  pub metadata : Option Metadata
  pub content : Option (List ℕ)

-- What the path shows: `fs::metadata`, and `File::open`.
pub record Disk : Type 0 where
  pub stat : Option Fingerprint
  pub file : Option OpenFile

pub record Loaded : Type 0 where
  pub at : ℕ
  pub fingerprint : Fingerprint
  pub keys : List VerifyingKey

pub record KeyStore : Type 0 where
  pub refresh : ℕ
  pub poisoned : Bool
  pub loaded : Option Loaded

-- `file.take(limit).read_to_end`
abbrev pub read_up_to : ℕ → Option (List ℕ) → Option (List ℕ)
read_up_to limit none = none
read_up_to limit (some bytes) = some (take limit bytes)

-- `keys.iter().find(|k| k.kid == kid)`
unfoldable pub find_kid : String → List VerifyingKey → Option VerifyingKey
find_kid kid [] = none
find_kid kid (k ∷ ks) = if k.kid == kid then some k else find_kid kid ks

abbrev pub keys_of : Option Loaded → List VerifyingKey
keys_of none = []
keys_of (some l) = l.keys

unfoldable pub find_loaded : Option Loaded → String → Result Rejection VerifyingKey
unfolding find_kid
find_loaded loaded kid = or_err (find_kid kid (keys_of loaded)) unknown_key

-- `is_none_or(|l| l.fingerprint != current || l.at.elapsed() >= refresh)`
unfoldable pub is_stale : Option Loaded → Fingerprint → ℕ → ℕ → Bool
unfolding same_fingerprint
is_stale none current now refresh = true
is_stale (some l) current now refresh =
    not (same_fingerprint l.fingerprint current) || leb refresh (now - l.at)

module _ (x : KeyCodec) where
  pub load_file : ℕ → OpenFile → Result JwksError Loaded
  load_file now file = do
    metadata ← or_err file.metadata cannot_stat
    reject_if (not metadata.is_file) not_regular
    bytes ← or_err (read_up_to (max_file_bytes + 1) file.content) cannot_read
    reject_if (ltb max_file_bytes (length bytes)) too_large
    keys ← parse x bytes
    ok (record { at = now; fingerprint = metadata.fingerprint; keys = keys })

  unfoldable pub load : ℕ → Disk → Result JwksError Loaded
  unfolding load_file
  load now disk = do file ← or_err disk.file cannot_open; load_file now file

  unfoldable pub with_refresh : ℕ → ℕ → Disk → Result JwksError KeyStore
  with_refresh refresh now disk = do
    loaded ← load now disk
    reject_if (is_empty loaded.keys) no_keys
    ok (record { refresh = refresh; poisoned = false; loaded = some loaded })

  -- `KeyStore::open`
  unfoldable pub open_store : ℕ → Disk → Result JwksError KeyStore
  open_store now disk = with_refresh default_refresh now disk

  pub reload : KeyStore → ℕ → Disk → String → Result Rejection VerifyingKey × KeyStore
  reload store now disk kid = elim (load now disk) [
    | ok fresh ↦ (find_loaded (some fresh) kid, record store { loaded = some fresh })
    | err e ↦ (err keys_unavailable, record store { loaded = none })
  ]

  pub lookup_at :
      KeyStore → ℕ → Disk → String → Fingerprint → Result Rejection VerifyingKey × KeyStore
  unfolding reload
  lookup_at store now disk kid current =
      if is_stale store.loaded current now store.refresh
      then reload store now disk kid
      else (find_loaded store.loaded kid, store)

  pub lookup_stat :
      KeyStore → ℕ → Disk → String → Option Fingerprint → Result Rejection VerifyingKey × KeyStore
  unfolding lookup_at
  lookup_stat store now disk kid none = (err keys_unavailable, store)
  lookup_stat store now disk kid (some current) = lookup_at store now disk kid current

  -- `KeyStore::key`: the answer and the store after the call. A poisoned lock is an error.
  unfoldable pub key : KeyStore → ℕ → Disk → String → Result Rejection VerifyingKey × KeyStore
  unfolding lookup_stat
  key store now disk kid =
      if store.poisoned
      then (err keys_unavailable, store)
      else lookup_stat store now disk kid disk.stat

-- `KeyStore::key_count`
unfoldable key_count : KeyStore → ℕ
key_count store = if store.poisoned then 0 else length (keys_of store.loaded)
