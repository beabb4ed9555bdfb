-- ===== src/Auth/Access/Reads.antt =====
-- `Authenticator::authenticate`, call by call: which reads of the key file stand behind the copy that
-- it keeps.
use ffmpeg_docker_playground.Base.{
  ℕ, ◌-◌, ◌<◌, ◌≡◌, refl, ap, ◌∙◌, ◌⊎◌, subst, Option, none, some, List, [], ◌∷◌, map, Memᴰ, All,
  String, ok, inl, inr, arith, Option-cases, Result-cases,
}
use ffmpeg_docker_playground.Auth.Jwt.Types.{VerifyingKey, Codec}
use ffmpeg_docker_playground.Auth.Jwt.Compact.{parse_token}
use ffmpeg_docker_playground.Auth.Jwks.Types.{KeyCodec}
use ffmpeg_docker_playground.Auth.Jwks.Store.{Disk, Loaded, KeyStore, load, key}
use ffmpeg_docker_playground.Auth.Jwks.Store.Lookup.{Source}
use ffmpeg_docker_playground.Auth.Jwks.Store.History.{load-at, key_cases}
use ffmpeg_docker_playground.Auth.Bearer.{bearer}
use ffmpeg_docker_playground.Auth.Access.{
  JwtVerifier, Authenticator, jwt, authenticate, keys_after, asked_of_parts,
}

-- An authentication: the monotonic clock, what the path of the key file shows then, the values of
-- the header, and the time of day.
pub record Call : Type 0 where
  pub instant : ℕ
  pub disk : Disk
  pub values : List (List ℕ)
  pub now : ℕ

-- What the path showed at the calls.
pub reads : List Call → List (ℕ × Disk)
reads cs = map (λ (c : Call). (c.instant, c.disk)) cs

module _ (k : KeyCodec) where
  -- The copy, if there is one, is what one of the reads gave.
  abbrev pub IsRead : List (ℕ × Disk) → Option Loaded → Type 0
  IsRead rs none = Unit
  IsRead rs (some l) = (r : ℕ × Disk) × Memᴰ r rs × (load k r.0 r.1 ≡ ok l)

  key-refresh :
      (store : KeyStore) (now : ℕ) (disk : Disk) (kid : String)
      → (key k store now disk kid).1.refresh ≡ store.refresh
  unfolding key
  key-refresh store now disk kid = ground arith

  -- A read of the file listed the key under its id: the read of this call, or one of the earlier
  -- ones less than the refresh time ago, while the path still shows the file that was read then.
  pub record IsListed (refresh : ℕ) (earlier : List (ℕ × Disk)) (instant : ℕ) (disk : Disk)
      (kid : String) (v : VerifyingKey) : Type 0 where
    pub at : ℕ
    pub shown : Disk
    pub loaded : Loaded
    pub read : load k at shown ≡ ok loaded
    pub listed : Memᴰ v loaded.keys
    pub named : v.kid ≡ kid
    pub timely :
        ((at ≡ instant) × (shown ≡ disk))
        ⊎ (Memᴰ (at, shown) earlier
            × (instant - at < refresh)
            × (disk.stat ≡ some loaded.fingerprint))

  pub served-IsListed :
      (store : KeyStore) (earlier : List (ℕ × Disk)) (instant : ℕ) (disk : Disk) (kid : String)
      (v : VerifyingKey) (l : Loaded)
      → IsRead earlier store.loaded
      → Memᴰ v l.keys
      → v.kid ≡ kid
      → Source k store instant disk l
      → IsListed store.refresh earlier instant disk kid v
  served-IsListed store earlier instant disk kid v l h m n (Source.read e) = record {
    at = instant;
    shown = disk;
    loaded = l;
    read = e;
    listed = m;
    named = n;
    timely = inl (refl, refl);
  }
  served-IsListed store earlier instant disk kid v l h m n (Source.cached e s young) =
      let (r, member, e1) : IsRead earlier (some l) = subst (IsRead earlier) e h in
      record {
        at = r.0;
        shown = r.1;
        loaded = l;
        read = e1;
        listed = m;
        named = n;
        timely =
            inr
              (member, subst (λ t. instant - t < store.refresh) (load-at k r.0 r.1 l e1) young, s);
      }

module _ (x : Codec) (k : KeyCodec) (to_str : List ℕ → Option String) where
  -- The authenticator behind the calls.
  unfoldable pub after : Authenticator → List Call → Authenticator
  after a [] = a
  after a (c ∷ cs) = after (authenticate x k to_str a c.instant c.disk c.values c.now).1 cs

  -- What a verifier becomes: its policy stays, and its copy comes from one of the reads.
  pub record Becomes (rs : List (ℕ × Disk)) (v : JwtVerifier) (a : Authenticator) : Type 0 where
    pub store : KeyStore
    pub held : a ≡ jwt (record v { keys = store })
    pub same_refresh : store.refresh ≡ v.keys.refresh
    pub copied : IsRead k rs store.loaded

  keys_after-Becomes :
      (rs : List (ℕ × Disk)) (v : JwtVerifier) (instant : ℕ) (disk : Disk) (token : String)
      → Memᴰ (instant, disk) rs
      → IsRead k rs v.keys.loaded
      → Becomes rs v (jwt (record v { keys = keys_after x k to_str v instant disk token }))
  unfolding keys_after
  keys_after-Becomes rs v instant disk token m h =
      elim (Option-cases (asked_of_parts x k to_str v.policy (parse_token x token))) [
        | inl e ↦ record {
          store = v.keys;
          held = rw (e, keys_after) refl;
          same_refresh = refl;
          copied = h;
        }
        | inr (kid, e) ↦ record {
          store = (key k v.keys instant disk kid).1;
          held = rw (e, keys_after) refl;
          same_refresh = key-refresh k v.keys instant disk kid;
          copied =
              key_cases k (IsRead k rs) v.keys instant disk kid h
                (λ f l s read. ((instant, disk), m, read)) tt;
        }
      ]

  authenticate-Becomes :
      (rs : List (ℕ × Disk)) (v : JwtVerifier) (c : Call)
      → Memᴰ (c.instant, c.disk) rs
      → IsRead k rs v.keys.loaded
      → Becomes rs v (authenticate x k to_str (jwt v) c.instant c.disk c.values c.now).1
  unfolding authenticate
  authenticate-Becomes rs v c m h = elim (Result-cases (bearer to_str c.values)) [
    | inl (token, e) ↦ rw (e, authenticate) (keys_after-Becomes rs v c.instant c.disk token m h)
    | inr (r, e) ↦
        rw (e, authenticate)
          (record { store = v.keys; held = refl; same_refresh = refl; copied = h })
  ]

  pub after-Becomes :
      (rs : List (ℕ × Disk)) (v : JwtVerifier) (cs : List Call)
      → All (λ (c : Call). Memᴰ (c.instant, c.disk) rs) cs
      → IsRead k rs v.keys.loaded
      → Becomes rs v (after (jwt v) cs)
  unfolding after
  after-Becomes rs v [] m h = record {
    store = v.keys;
    held = refl;
    same_refresh = refl;
    copied = h;
  }
  after-Becomes rs v (c ∷ cs) (m, ms) h =
      let b = authenticate-Becomes rs v c m h in
      let more = after-Becomes rs (record v { keys = b.store }) cs ms b.copied in
      record {
        store = more.store;
        held = ap (λ a. after a cs) b.held ∙ more.held;
        same_refresh = more.same_refresh ∙ b.same_refresh;
        copied = more.copied;
      }

  pub reads-All :
      (cs : List Call) (rs : List (ℕ × Disk))
      → ((r : ℕ × Disk) → Memᴰ r (reads cs) → Memᴰ r rs)
      → All (λ (c : Call). Memᴰ (c.instant, c.disk) rs) cs
  unfolding reads
  reads-All [] rs f = tt
  reads-All (c ∷ cs) rs f =
      (f (c.instant, c.disk) (Memᴰ.head refl), reads-All cs rs (λ r m. f r (Memᴰ.tail m)))
