-- ===== src/Auth/Jwks/Store/Lookup.antt =====
-- One lookup: it answers as if it read the file, if a fingerprint stands for one content.
use ffmpeg_docker_playground.Base.{
  ℕ, ◌-◌, ◌<◌, ◌≡◌, refl, sym, ap, ◌∙◌, inl, inr, true, false, Option, none, some, List, [], ◌∷◌,
  Memᴰ, String, ◌==◌, eq_iff, Result, ok, err, or_err, or_err-eq-ok, arith, Bool-cases,
  Option-cases, Result-cases,
}
use ffmpeg_docker_playground.Auth.Rejection.{Rejection, unknown_key, keys_unavailable}
use ffmpeg_docker_playground.Auth.Jwt.Types.{VerifyingKey}
use ffmpeg_docker_playground.Auth.Jwks.Types.{KeyCodec, JwksError}
use ffmpeg_docker_playground.Auth.Jwks.Store.{
  Fingerprint, same_fingerprint, Disk, Loaded, KeyStore, find_kid, find_loaded, is_stale, load, key,
  reload, lookup_at,
}

same_fingerprint-eq : (f g : Fingerprint) → same_fingerprint f g ≡ true → f ≡ g
unfolding same_fingerprint
same_fingerprint-eq f g h = ground arith

find_kid_sound :
    (kid : String) (ks : List VerifyingKey) (k : VerifyingKey)
    → find_kid kid ks ≡ some k
    → Memᴰ k ks × (k.kid ≡ kid)
unfolding find_kid
find_kid_sound kid [] k h = cc
find_kid_sound kid (a ∷ ks) k h = elim (Bool-cases (a.kid == kid)) [
  | inl e ↦
      let same : a ≡ k = ground (arith, e) in
      (Memᴰ.head (sym same), ap (λ (v : VerifyingKey). v.kid) (sym same) ∙ (eq_iff a.kid kid).0 e)
  | inr e ↦ let (m, named) = find_kid_sound kid ks k (rw e at h) in (Memᴰ.tail m, named)
]

module _ (x : KeyCodec) where
  -- A read of the file at every lookup, with no cached copy.
  pub answer : Result JwksError Loaded → String → Result Rejection VerifyingKey
  answer (ok l) kid = find_loaded (some l) kid
  answer (err e) kid = err keys_unavailable

  pub direct : ℕ → Disk → String → Result Rejection VerifyingKey
  unfolding answer
  direct now disk kid = elim disk.stat [
    | none ↦ err keys_unavailable
    | some f ↦ answer (load x now disk) kid
  ]

  -- If the file shows the fingerprint of the cached copy, a read of it gives the cached keys.
  abbrev pub IsCurrent : Option Loaded → Disk → Type 0
  IsCurrent none disk = Unit
  IsCurrent (some l) disk =
      (now : ℕ)
      → disk.stat ≡ some l.fingerprint
      → (m : Loaded) × (load x now disk ≡ ok m) × (m.keys ≡ l.keys)

  reload-answer :
      (store : KeyStore) (now : ℕ) (disk : Disk) (kid : String)
      → (reload x store now disk kid).0 ≡ answer (load x now disk) kid
  unfolding reload answer
  reload-answer store now disk kid = ground arith

  lookup_at-answer :
      (store : KeyStore) (now : ℕ) (disk : Disk) (kid : String) (f : Fingerprint)
      (o : Option Loaded)
      → store.loaded ≡ o
      → disk.stat ≡ some f
      → IsCurrent o disk
      → (lookup_at x store now disk kid f).0 ≡ answer (load x now disk) kid
  unfolding lookup_at is_stale answer find_loaded
  lookup_at-answer store now disk kid f none e s c =
      rw (e, is_stale) (reload-answer store now disk kid)
  lookup_at-answer store now disk kid f (some l) e s c =
      elim (Bool-cases (is_stale (some l) f now store.refresh)) [
        | inl stale ↦ rw (e, stale) (reload-answer store now disk kid)
        | inr fresh ↦
            let same : l.fingerprint ≡ f =
              same_fingerprint-eq l.fingerprint f (ground (arith, fresh)) in
            let (m, loads, keys) = c now (s ∙ ap some (sym same)) in
            rw (e, fresh, loads) (ap (λ ks. or_err (find_kid kid ks) unknown_key) (sym keys))
      ]

  -- One lookup of an unpoisoned store answers as a read of the file would, if the file has the
  -- cached keys whenever it shows the cached fingerprint.
  pub key_transparent :
      (store : KeyStore) (now : ℕ) (disk : Disk) (kid : String)
      → store.poisoned ≡ false
      → IsCurrent store.loaded disk
      → (key x store now disk kid).0 ≡ direct now disk kid
  unfolding key direct
  key_transparent store now disk kid sane current = elim (Option-cases disk.stat) [
    | inl e ↦ ground (arith, e)
    | inr (f, e) ↦
        ground (arith, e, lookup_at-answer store now disk kid f store.loaded refl e current)
  ]

  -- Where the key of an answer comes from: the copy that the store holds, while the file shows its
  -- fingerprint and it is younger than the refresh time, or a read of the file at this call.
  pub data Source (store : KeyStore) (now : ℕ) (disk : Disk) (l : Loaded) : Type 0 where
    cached :
        store.loaded ≡ some l
        → disk.stat ≡ some l.fingerprint
        → now - l.at < store.refresh
        → Source store now disk l
    read : load x now disk ≡ ok l → Source store now disk l

  pub record IsServed (store : KeyStore) (now : ℕ) (disk : Disk) (kid : String) (k : VerifyingKey)
      : Type 0 where
    pub loaded : Loaded
    pub source : Source store now disk loaded
    pub listed : Memᴰ k loaded.keys
    pub named : k.kid ≡ kid

  find_loaded-IsServed :
      (store : KeyStore) (now : ℕ) (disk : Disk) (kid : String) (k : VerifyingKey) (l : Loaded)
      → Source store now disk l
      → find_loaded (some l) kid ≡ ok k
      → IsServed store now disk kid k
  unfolding find_loaded
  find_loaded-IsServed store now disk kid k l source h =
      let (listed, named) = find_kid_sound kid l.keys k (or_err-eq-ok (find_kid kid l.keys) _ h) in
      record { loaded = l; source = source; listed = listed; named = named }

  reload-IsServed :
      (store : KeyStore) (now : ℕ) (disk : Disk) (kid : String) (k : VerifyingKey)
      → (reload x store now disk kid).0 ≡ ok k
      → IsServed store now disk kid k
  unfolding reload
  reload-IsServed store now disk kid k h = elim (Result-cases (load x now disk)) [
    | inl (l, e) ↦ find_loaded-IsServed store now disk kid k l (read e) (ground (arith, e))
    | inr (d, e) ↦ absurd (ground (arith, e))
  ]

  lookup_at-IsServed :
      (store : KeyStore) (now : ℕ) (disk : Disk) (kid : String) (k : VerifyingKey) (f : Fingerprint)
      (o : Option Loaded)
      → store.loaded ≡ o
      → disk.stat ≡ some f
      → (lookup_at x store now disk kid f).0 ≡ ok k
      → IsServed store now disk kid k
  unfolding lookup_at is_stale
  lookup_at-IsServed store now disk kid k f none e s h =
      reload-IsServed store now disk kid k (ground (arith, e))
  lookup_at-IsServed store now disk kid k f (some l) e s h =
      elim (Bool-cases (is_stale (some l) f now store.refresh)) [
        | inl stale ↦ reload-IsServed store now disk kid k (ground (arith, e, stale))
        | inr fresh ↦
            let same : l.fingerprint ≡ f =
              same_fingerprint-eq l.fingerprint f (ground (arith, fresh)) in
            find_loaded-IsServed store now disk kid k l
              (cached e (s ∙ ap some (sym same)) (ground (arith, fresh))) (ground (arith, e, fresh))
      ]

  -- Whatever the file system does, a key that a lookup hands out bears the id asked for and
  -- comes from a read of the file at this call, or from a copy whose fingerprint the file shows
  -- and that is younger than the refresh time.
  pub key-IsServed :
      (store : KeyStore) (now : ℕ) (disk : Disk) (kid : String) (k : VerifyingKey)
      → (key x store now disk kid).0 ≡ ok k
      → IsServed store now disk kid k
  unfolding key
  key-IsServed store now disk kid k h = elim (Option-cases disk.stat) [
    | inl e ↦ absurd (ground (arith, e))
    | inr (f, e) ↦ lookup_at-IsServed store now disk kid k f store.loaded refl e (ground (arith, e))
  ]
