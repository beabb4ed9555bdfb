-- ===== src/Auth/Jwks/Store/History.antt =====
-- Any history of lookups, while keys are rotated by replacing the file.
use ffmpeg_docker_playground.Base.{
  ◌+◌, not, ltb, length, or_err, ℕ, ◌≡◌, refl, sym, ◌∙◌, inl, inr, Bool, false, Option, none, some,
  List, [], ◌∷◌, map, String, Result, ok, err, arith, Bool-cases, Result-cases, All, >>=-eq-ok,
  reject_if, is_empty, subst, if◌then◌else◌,
}
use ffmpeg_docker_playground.Auth.Rejection.{Rejection, keys_unavailable}
use ffmpeg_docker_playground.Auth.Jwt.Types.{VerifyingKey}
use ffmpeg_docker_playground.Auth.Jwks.Types.{
  KeyCodec, JwksError, no_keys, cannot_open, cannot_stat, not_regular, cannot_read, too_large,
  max_file_bytes,
}
use ffmpeg_docker_playground.Auth.Jwks.Parse.{parse}
use ffmpeg_docker_playground.Auth.Jwks.Store.{
  Fingerprint, Disk, Loaded, KeyStore, load, with_refresh, key, reload, lookup_at, lookup_stat,
  is_stale, load_file, read_up_to,
}
use ffmpeg_docker_playground.Auth.Jwks.Store.Lookup.{direct, IsCurrent, key_transparent}

-- A lookup: when, what the path shows then, and the id that is asked for.
pub record Call : Type 0 where
  pub now : ℕ
  pub disk : Disk
  pub kid : String

module _ (x : KeyCodec) where
  pub answers : KeyStore → List Call → List (Result Rejection VerifyingKey)
  answers store [] = []
  answers store (c ∷ cs) =
      let (answer, store') = key x store c.now c.disk c.kid in answer ∷ answers store' cs

  pub load-at : (now : ℕ) (disk : Disk) (l : Loaded) → load x now disk ≡ ok l → l.at ≡ now
  unfolding load load_file
  load-at now disk l h =
      let (file, e, h1) = >>=-eq-ok (or_err disk.file cannot_open) _ h in
      let (metadata, e1, h2) = >>=-eq-ok (or_err file.metadata cannot_stat) _ h1 in
      let (_, e2, h3) = >>=-eq-ok (reject_if (not metadata.is_file) not_regular) _ h2 in
      let (bytes, e3, h4) =
        >>=-eq-ok (or_err (read_up_to (max_file_bytes + 1) file.content) cannot_read) _ h3 in
      let (_, e4, h5) = >>=-eq-ok (reject_if (ltb max_file_bytes (length bytes)) too_large) _ h4 in
      let (keys, e5, h6) = >>=-eq-ok (parse x bytes) _ h5 in sym (ground arith)

  module _ {ℓ} (P : Option Loaded → Type ℓ) where
    reload_cases :
        (store : KeyStore) (now : ℕ) (disk : Disk) (kid : String)
        → ((l : Loaded) → load x now disk ≡ ok l → P (some l))
        → P none
        → P (reload x store now disk kid).1.loaded
    unfolding reload
    reload_cases store now disk kid done broken = elim (Result-cases (load x now disk)) [
      | inl (l, e) ↦ rw (e, reload) (done l e)
      | inr (d, e) ↦ rw (e, reload) broken
    ]

    lookup_at_cases :
        (store : KeyStore) (now : ℕ) (disk : Disk) (kid : String) (f : Fingerprint)
        → P store.loaded
        → ((l : Loaded) → load x now disk ≡ ok l → P (some l))
        → P none
        → P (lookup_at x store now disk kid f).1.loaded
    unfolding lookup_at
    lookup_at_cases store now disk kid f kept done broken =
        elim (Bool-cases (is_stale store.loaded f now store.refresh)) [
          | inl e ↦ rw e (reload_cases store now disk kid done broken)
          | inr e ↦ rw e kept
        ]

    -- A call leaves the copy, replaces it by what it read, or drops it.
    pub key_cases :
        (store : KeyStore) (now : ℕ) (disk : Disk) (kid : String)
        → P store.loaded
        → ((f : Fingerprint) (l : Loaded)
            → disk.stat ≡ some f
            → load x now disk ≡ ok l
            → P (some l))
        → P none
        → P (key x store now disk kid).1.loaded
    unfolding key lookup_stat
    key_cases store now disk kid kept done broken = elim (Bool-cases store.poisoned) [
      | inl p ↦ ends (sym p) kept
      | inr p ↦ ends (sym p) (by_stat disk.stat refl)
    ]
      where
        ends :
            {b : Bool}
            → b ≡ store.poisoned
            → P
                (if b
                  then (err keys_unavailable, store)
                  else lookup_stat x store now disk kid disk.stat).1.loaded
            → P (key x store now disk kid).1.loaded
        ends e =
            subst
              (λ b.
                P
                  (if b
                    then (err keys_unavailable, store)
                    else lookup_stat x store now disk kid disk.stat).1.loaded)
              e

        by_stat :
            (o : Option Fingerprint)
            → disk.stat ≡ o
            → P (lookup_stat x store now disk kid o).1.loaded
        by_stat none e = kept
        by_stat (some f) e = lookup_at_cases store now disk kid f kept (λ l. done f l e) broken

  -- What a read of the file gives, without its time and metadata.
  abbrev pub Shows : Result JwksError Loaded → Fingerprint → Option (List VerifyingKey) → Type 0
  Shows (ok l) f keys = (l.fingerprint ≡ f) × (keys ≡ some l.keys)
  Shows (err e) f keys = keys ≡ none

  module _ (version : Fingerprint → Option (List VerifyingKey)) where
    -- A fingerprint names one version of the file: every read while the path shows it gives that
    -- version, so a replacement of the file changes the fingerprint.
    abbrev pub IsVersioned : Disk → Type 0
    IsVersioned disk =
        (now : ℕ) (f : Fingerprint) → disk.stat ≡ some f → Shows (load x now disk) f (version f)

    abbrev pub Holds : Option Loaded → Type 0
    Holds none = Unit
    Holds (some l) = version l.fingerprint ≡ some l.keys

    Shows-read :
        (r : Result JwksError Loaded) (f : Fingerprint) (keys : List VerifyingKey)
        → Shows r f (some keys)
        → (m : Loaded) × (r ≡ ok m) × (m.keys ≡ keys)
    Shows-read (ok m) f keys h = (m, refl, ground arith)
    Shows-read (err e) f keys h = cc

    Holds-IsCurrent :
        (o : Option Loaded) (disk : Disk) → IsVersioned disk → Holds o → IsCurrent x o disk
    Holds-IsCurrent none disk v h = tt
    Holds-IsCurrent (some l) disk v h =
        λ now s. Shows-read (load x now disk) l.fingerprint l.keys (rw h at (v now l.fingerprint s))

    Shows-Holds :
        (r : Result JwksError Loaded) (f : Fingerprint) (l : Loaded)
        → Shows r f (version f)
        → r ≡ ok l
        → version l.fingerprint ≡ some l.keys
    Shows-Holds (ok m) f l h e = ground arith
    Shows-Holds (err d) f l h e = cc

    key-Holds :
        (store : KeyStore) (now : ℕ) (disk : Disk) (kid : String)
        → IsVersioned disk
        → Holds store.loaded
        → Holds (key x store now disk kid).1.loaded
    key-Holds store now disk kid v h =
        key_cases Holds store now disk kid h
          (λ f l s e. Shows-Holds (load x now disk) f l (v now f s) e) tt

    key-sane :
        (store : KeyStore) (now : ℕ) (disk : Disk) (kid : String)
        → (key x store now disk kid).1.poisoned ≡ store.poisoned
    unfolding key lookup_stat lookup_at reload
    key-sane store now disk kid = ground arith

    answers-direct :
        (store : KeyStore) (cs : List Call)
        → store.poisoned ≡ false
        → Holds store.loaded
        → All (λ c. IsVersioned c.disk) cs
        → answers store cs ≡ map (λ c. direct x c.now c.disk c.kid) cs
    unfolding answers
    answers-direct store [] p h v = refl
    answers-direct store (c ∷ cs) p h v =
        let first =
          key_transparent x store c.now c.disk c.kid p
            (Holds-IsCurrent store.loaded c.disk v.0 h) in
        let rest =
          answers-direct (key x store c.now c.disk c.kid).1 cs
            (key-sane store c.now c.disk c.kid ∙ p) (key-Holds store c.now c.disk c.kid v.0 h)
            v.1 in
        λ i. first i ∷ rest i

    -- If, at startup and at every later call, the fingerprint that the path shows stands for one
    -- content of the key file, a store opened at startup answers any list of later lookups as a
    -- read of the file at each of them would, through rotation, removal and damage.
    pub opened-answers :
        (refresh now : ℕ) (disk : Disk) (f : Fingerprint) (store : KeyStore) (cs : List Call)
        → with_refresh x refresh now disk ≡ ok store
        → disk.stat ≡ some f
        → IsVersioned disk
        → All (λ c. IsVersioned c.disk) cs
        → answers store cs ≡ map (λ c. direct x c.now c.disk c.kid) cs
    unfolding with_refresh
    opened-answers refresh now disk f store cs opened shown v vs =
        let (l, read, rest) = >>=-eq-ok (load x now disk) _ opened in
        let (_, _, made) = >>=-eq-ok (reject_if (is_empty l.keys) no_keys) _ rest in
        let sane : store.poisoned ≡ false = ground arith in
        let holds : store.loaded ≡ some l = ground arith in
        answers-direct store cs sane
          (subst Holds (sym holds) (Shows-Holds (load x now disk) f l (v now f shown) read)) vs
