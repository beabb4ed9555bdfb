-- ===== src/Auth/Access/Laws.antt =====
-- Who is let in: the whole way from the headers of a request to the key file.
use ffmpeg_docker_playground.Base.{
  ℕ, ◌≡◌, refl, sym, ap, ◌↔◌, Option, none, some, List, String, Result, ok, err, inl, inr, arith,
  Result-cases,
}
use ffmpeg_docker_playground.Auth.Rejection.{Rejection}
use ffmpeg_docker_playground.Auth.Jwt.Types.{Verified, Codec}
use ffmpeg_docker_playground.Auth.Jwt.Verify.Laws.{IsAuthentic, verify_iff}
use ffmpeg_docker_playground.Auth.Jwks.Types.{KeyCodec}
use ffmpeg_docker_playground.Auth.Jwks.Store.{Disk}
use ffmpeg_docker_playground.Auth.Jwks.Store.Lookup.{IsServed, key-IsServed}
use ffmpeg_docker_playground.Auth.Bearer.{bearer}
use ffmpeg_docker_playground.Auth.Bearer.Laws.{IsBearer, bearer_iff}
use ffmpeg_docker_playground.Auth.Access.{
  JwtVerifier, Authenticator, jwt, insecure_no_auth, Principal, principal_of, key_at, verify_token,
  authenticate,
}

principal_of-eq-ok :
    (r : Result Rejection Verified) (p : Principal)
    → principal_of r ≡ ok p
    → (u : Verified) × (r ≡ ok u) × (p ≡ some u)
principal_of-eq-ok (ok u) p h = (u, refl, cc)
principal_of-eq-ok (err r) p h = cc

module _ (x : Codec) (k : KeyCodec) (to_str : List ℕ → Option String) (instant : ℕ) (disk : Disk)
    (values : List (List ℕ)) (now : ℕ) where
  -- One bearer credential, an authentic token, and a key that the store has from a read of the file
  -- at this call or from its copy.
  pub record IsAdmitted (v : JwtVerifier) (user : Verified) : Type 0 where
    pub token : String
    pub credential : IsBearer to_str values token
    pub authentic : IsAuthentic x v.policy (key_at x k to_str v.keys instant disk) token now user
    pub served : IsServed k v.keys instant disk authentic.kid authentic.key

  abbrev pub Permits : Authenticator → Principal → Type 0
  Permits insecure_no_auth p = p ≡ none
  Permits (jwt v) none = ⊥
  Permits (jwt v) (some user) = IsAdmitted v user

  Permits-jwt :
      (v : JwtVerifier) (p : Principal) (user : Verified)
      → p ≡ some user
      → IsAdmitted v user
      → Permits (jwt v) p
  Permits-jwt v p user e a = rw e a

  authenticate_sound :
      (a : Authenticator) (p : Principal)
      → (authenticate x k to_str a instant disk values now).0 ≡ ok p
      → Permits a p
  unfolding authenticate
  authenticate_sound insecure_no_auth p h = cc
  authenticate_sound (jwt v) p h = elim (Result-cases (bearer to_str values)) [
    | inr (r, e) ↦ absurd (ground (arith, e))
    | inl (token, e) ↦
        let (user, accepted, same) =
          principal_of-eq-ok (verify_token x k to_str v instant disk token now) p
            (ground (arith, e)) in
        let authentic =
          (verify_iff x v.policy (key_at x k to_str v.keys instant disk) token now user).0
            accepted in
        Permits-jwt v p user same (record {
          token = token;
          credential = (bearer_iff to_str values token).0 e;
          authentic = authentic;
          served = key-IsServed k v.keys instant disk authentic.kid authentic.key authentic.known;
        })
  ]

  authenticate_complete :
      (a : Authenticator) (p : Principal)
      → Permits a p
      → (authenticate x k to_str a instant disk values now).0 ≡ ok p
  unfolding authenticate
  authenticate_complete insecure_no_auth p h = ap ok (sym h)
  authenticate_complete (jwt v) none h = absurd h
  authenticate_complete (jwt v) (some user) h =
      let e = (bearer_iff to_str values h.token).1 h.credential in
      let accepted =
        (verify_iff x v.policy (key_at x k to_str v.keys instant disk) h.token now user).1
          h.authentic in
      rw (authenticate, e, accepted) refl

  -- A request is let in, with a principal, exactly if authentication is disabled and there is
  -- none, or its one bearer token is authentic and the principal is the token's subject; the key
  -- that confirms it then comes from a read of the key file at this call, or from the copy of the
  -- store, which bears the fingerprint that the file shows and whose age, as recorded, is less
  -- than the refresh time.
  pub authenticate_iff :
      (a : Authenticator) (p : Principal)
      → ((authenticate x k to_str a instant disk values now).0 ≡ ok p) ↔ Permits a p
  authenticate_iff a p = (authenticate_sound a p, authenticate_complete a p)
