-- ===== src/Auth/Access/History.antt =====
-- `Authenticator::authenticate` behind any earlier calls of it.
use ffmpeg_docker_playground.Base.{
  ℕ, ◌≡◌, refl, sym, ◌∙◌, ◌↔◌, subst, Option, none, some, List, [], ◌∷◌, Memᴰ, String, is_empty, ok,
  reject_if, arith, >>=-eq-ok,
}
use ffmpeg_docker_playground.Auth.Jwt.Types.{Verified, Codec}
use ffmpeg_docker_playground.Auth.Jwt.Verify.Laws.{IsAuthentic}
use ffmpeg_docker_playground.Auth.Jwks.Types.{KeyCodec, no_keys}
use ffmpeg_docker_playground.Auth.Jwks.Store.{Disk, KeyStore, load, with_refresh}
use ffmpeg_docker_playground.Auth.Jwks.Store.Lookup.{key-IsServed}
use ffmpeg_docker_playground.Auth.Bearer.Laws.{IsBearer}
use ffmpeg_docker_playground.Auth.Access.{
  JwtVerifier, Authenticator, jwt, insecure_no_auth, Principal, key_at, authenticate,
}
use ffmpeg_docker_playground.Auth.Access.Laws.{IsAdmitted, Permits, authenticate_iff}
use ffmpeg_docker_playground.Auth.Access.Reads.{
  Call, reads, IsRead, IsListed, served-IsListed, after, Becomes, after-Becomes, reads-All,
}

module _ (x : Codec) (k : KeyCodec) (to_str : List ℕ → Option String) where
  -- The authenticator that startup makes.
  abbrev pub Opens : ℕ → ℕ → Disk → Authenticator → Type 0
  Opens refresh opened first insecure_no_auth = Unit
  Opens refresh opened first (jwt v) = with_refresh k refresh opened first ≡ ok v.keys

  module _ (refresh opened : ℕ) (first : Disk) (cs : List Call) (instant : ℕ) (disk : Disk)
      (values : List (List ℕ)) (now : ℕ) where
    -- One bearer credential, and a token that is authentic under the policy and the store that the
    -- earlier calls have left; the key that confirms it was listed in the file.
    pub record IsLetIn (v : JwtVerifier) (user : Verified) : Type 0 where
      pub token : String
      pub credential : IsBearer to_str values token
      pub store : KeyStore
      pub held : after x k to_str (jwt v) cs ≡ jwt (record v { keys = store })
      pub authentic : IsAuthentic x v.policy (key_at x k to_str store instant disk) token now user
      pub listed :
          IsListed k refresh ((opened, first) ∷ reads cs) instant disk authentic.kid authentic.key

    abbrev pub Lets : Authenticator → Principal → Type 0
    Lets insecure_no_auth p = p ≡ none
    Lets (jwt v) none = ⊥
    Lets (jwt v) (some user) = IsLetIn v user

    after_insecure : (cs : List Call) → after x k to_str insecure_no_auth cs ≡ insecure_no_auth
    unfolding after authenticate
    after_insecure [] = refl
    after_insecure (c ∷ cs) = after_insecure cs

    opened-Becomes :
        (v : JwtVerifier)
        → with_refresh k refresh opened first ≡ ok v.keys
        → Becomes x k to_str ((opened, first) ∷ reads cs) v (after x k to_str (jwt v) cs)
          × (v.keys.refresh ≡ refresh)
    unfolding with_refresh
    opened-Becomes v o =
        let rs = (opened, first) ∷ reads cs in
        let (l, read, rest) = >>=-eq-ok (load k opened first) _ o in
        let (_, _, made) = >>=-eq-ok (reject_if (is_empty l.keys) no_keys) _ rest in
        let held : some l ≡ v.keys.loaded = ground arith in
        (
          after-Becomes x k to_str rs v cs (reads-All x k to_str cs rs (λ r m. Memᴰ.tail m))
              (subst (IsRead k rs) held ((opened, first), Memᴰ.head refl, read)),
          ground arith,
        )

    Permits-Lets :
        (a : Authenticator) (p : Principal)
        → Opens refresh opened first a
        → Permits x k to_str instant disk values now (after x k to_str a cs) p
        → Lets a p
    Permits-Lets insecure_no_auth p o h =
        subst (λ a. Permits x k to_str instant disk values now a p) (after_insecure cs) h
    Permits-Lets (jwt v) none o h =
        let (b, _) = opened-Becomes v o in
        subst (λ a. Permits x k to_str instant disk values now a none) b.held h
    Permits-Lets (jwt v) (some user) o h =
        let (b, same) = opened-Becomes v o in
        let i : IsAdmitted x k to_str instant disk values now (record v { keys = b.store }) user =
          subst (λ a. Permits x k to_str instant disk values now a (some user)) b.held h in
        record {
          token = i.token;
          credential = i.credential;
          store = b.store;
          held = b.held;
          authentic = i.authentic;
          listed =
              subst
                (λ t.
                  IsListed k t ((opened, first) ∷ reads cs) instant disk i.authentic.kid
                    i.authentic.key)
                (b.same_refresh ∙ same)
                (served-IsListed k b.store ((opened, first) ∷ reads cs) instant disk i.authentic.kid
                  i.authentic.key i.served.loaded b.copied i.served.listed i.served.named
                  i.served.source);
        }

    Lets-Permits :
        (a : Authenticator) (p : Principal)
        → Lets a p
        → Permits x k to_str instant disk values now (after x k to_str a cs) p
    Lets-Permits insecure_no_auth p h =
        subst (λ a. Permits x k to_str instant disk values now a p) (sym (after_insecure cs)) h
    Lets-Permits (jwt v) none h = absurd h
    Lets-Permits (jwt v) (some user) h =
        subst (λ a. Permits x k to_str instant disk values now a (some user)) (sym h.held)
          (record {
            token = h.token;
            credential = h.credential;
            authentic = h.authentic;
            served =
                key-IsServed k h.store instant disk h.authentic.kid h.authentic.key
                  h.authentic.known;
          })

    -- Behind any calls of an authenticator that was opened at startup, a request is let in, with
    -- a principal, exactly if authentication is disabled and there is none, or its one bearer
    -- token is authentic under the policy and the store as it then is, and the principal is the
    -- token's subject; the key that confirms it was then listed under its id by a read of the
    -- key file at this call, or by one at startup or at an earlier call, less than the refresh
    -- time before, of a file whose fingerprint the path still shows.
    pub authenticate-after_iff :
        (a : Authenticator) (p : Principal)
        → Opens refresh opened first a
        → ((authenticate x k to_str (after x k to_str a cs) instant disk values now).0 ≡ ok p)
          ↔ Lets a p
    authenticate-after_iff a p o =
        let (sound, complete) =
          authenticate_iff x k to_str instant disk values now (after x k to_str a cs) p in
        ((λ h. Permits-Lets a p o (sound h)), λ h. complete (Lets-Permits a p h))
