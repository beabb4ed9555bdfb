-- ===== src/Auth/Jwt/Verify/Laws.antt =====
-- What an accepted token promises, and that nothing unsigned decides.
use ffmpeg_docker_playground.Base.Text.{bytes}
use ffmpeg_docker_playground.Base.Words.{saturating_add-le}
use ffmpeg_docker_playground.Base.{
  ℕ, ◌+◌, ◌<◌, ◌≡◌, ap, ◌∙◌, subst, ◌≢◌, ◌↔◌, true, not, some, String, ◌==◌, eq_iff, Result, ok,
  reject_if, or_err, arith, >>=-eq-ok, or_err-eq-ok, reject_if-eq-ok,
}
use ffmpeg_docker_playground.Auth.Rejection.{
  Rejection, unsupported_algorithm, missing_kid, type_mismatch, invalid_header, bad_signature,
  invalid_claims,
}
use ffmpeg_docker_playground.Auth.Jwt.Types.{
  clock_skew_secs, Policy, Header, Claims, Verified, VerifyingKey, Codec,
}
use ffmpeg_docker_playground.Auth.Jwt.Claims.{non_empty, differs}
use ffmpeg_docker_playground.Auth.Jwt.Claims.Laws.{
  Requires, IsAcceptable, check_claims_iff, differs-eq-false_iff, non_empty-eq-some_iff,
}
use ffmpeg_docker_playground.Auth.Jwt.Compact.{Parts, IsCompact, parse_token, parse_token_iff}
use ffmpeg_docker_playground.Auth.Jwt.Verify.{select_kid, check_signed, verify_parts, verify}

-- The header of a token that the verifier takes: ES256, a key id, the required type.
pub record IsUsable (policy : Policy) (header : Header) (kid : String) : Type 0 where
  pub es256 : header.alg ≡ "ES256"
  pub has_kid : header.kid ≡ some kid
  pub named : kid ≢ ""
  pub typed : Requires policy.typ header.typ

pub select_kid_iff :
    (policy : Policy) (header : Header) (kid : String)
    → (select_kid policy header ≡ ok kid) ↔ IsUsable policy header kid
unfolding select_kid
select_kid_iff policy header kid = (
  sound,
  λ u.
      let k = (non_empty-eq-some_iff header.kid kid).1 (u.has_kid, u.named) in
      let t = (differs-eq-false_iff policy.typ header.typ).1 u.typed in
      let e = (eq_iff header.alg "ES256").1 u.es256 in rw (k, t, e),
)
  where
    sound : select_kid policy header ≡ ok kid → IsUsable policy header kid
    sound h =
        let (_, e1, h1) =
          >>=-eq-ok (reject_if (not (header.alg == "ES256")) unsupported_algorithm) _ h in
        let (k, e2, h2) = >>=-eq-ok (or_err (non_empty header.kid) missing_kid) _ h1 in
        let (_, e3, h3) =
          >>=-eq-ok (reject_if (differs policy.typ header.typ) type_mismatch) _ h2 in
        let same : k ≡ kid = cc in
        let (has, named) =
          (non_empty-eq-some_iff header.kid k).0 (or_err-eq-ok (non_empty header.kid) _ e2) in
        let wrong = reject_if-eq-ok (not (header.alg == "ES256")) _ e1 in
        record {
          es256 = (eq_iff header.alg "ES256").0 (ground arith);
          has_kid = has ∙ ap some same;
          named = subst (λ t. t ≢ "") same named;
          typed =
              (differs-eq-false_iff policy.typ header.typ).0
                (reject_if-eq-ok (differs policy.typ header.typ) _ e3);
        }

module _ (x : Codec) (policy : Policy) (find_key : String → Result Rejection VerifyingKey) where
  -- All that stands behind an accepted token: its serialization, its header, a key of the
  -- configured set, a signature of that key over the first two segments, and its claims.
  pub record IsAuthentic (token : String) (now : ℕ) (v : Verified) : Type 0 where
    pub parts : Parts
    pub compact : IsCompact x token parts
    pub header : Header
    pub has_header : x.header_of parts.header ≡ some header
    pub kid : String
    pub usable : IsUsable policy header kid
    pub key : VerifyingKey
    pub known : find_key kid ≡ ok key
    pub signed : x.check_signature key.sec1 (bytes parts.signing_input) parts.signature ≡ true
    pub claims : Claims
    pub has_claims : x.claims_of parts.payload ≡ some claims
    pub acceptable : IsAcceptable policy now claims v

  verify_sound :
      (token : String) (now : ℕ) (v : Verified)
      → verify x policy token now find_key ≡ ok v
      → IsAuthentic token now v
  unfolding verify verify_parts check_signed
  verify_sound token now v h =
      let (parts, e1, h1) = >>=-eq-ok (parse_token x token) _ h in
      let (header, e2, h2) = >>=-eq-ok (or_err (x.header_of parts.header) invalid_header) _ h1 in
      let (kid, e3, h3) = >>=-eq-ok (select_kid policy header) _ h2 in
      let (key, e4, h4) = >>=-eq-ok (find_key kid) _ h3 in
      let check = x.check_signature key.sec1 (bytes parts.signing_input) parts.signature in
      let (_, e5, h5) = >>=-eq-ok (reject_if (not check) bad_signature) _ h4 in
      let (claims, e6, h6) = >>=-eq-ok (or_err (x.claims_of parts.payload) invalid_claims) _ h5 in
      record {
        parts = parts;
        compact = (parse_token_iff x token parts).0 e1;
        header = header;
        has_header = or_err-eq-ok (x.header_of parts.header) _ e2;
        kid = kid;
        usable = (select_kid_iff policy header kid).0 e3;
        key = key;
        known = e4;
        signed = ground (arith, reject_if-eq-ok (not check) bad_signature e5);
        claims = claims;
        has_claims = or_err-eq-ok (x.claims_of parts.payload) _ e6;
        acceptable = (check_claims_iff policy now claims v).0 h6;
      }

  verify_complete :
      (token : String) (now : ℕ) (v : Verified)
      → IsAuthentic token now v
      → verify x policy token now find_key ≡ ok v
  unfolding verify verify_parts check_signed
  verify_complete token now v a =
      let e1 = (parse_token_iff x token a.parts).1 a.compact in
      let e3 = (select_kid_iff policy a.header a.kid).1 a.usable in
      let e6 = (check_claims_iff policy now a.claims v).1 a.acceptable in
      rw (e1, a.has_header, e3, a.known, a.signed, a.has_claims) e6

  -- A token is accepted exactly when it is authentic: a compact serialization within the size
  -- limit, an ES256 header that names a key of the set and the required type, a good signature
  -- of that key over the first two segments, and acceptable claims; the caller is then the
  -- subject that it names.
  pub verify_iff :
      (token : String) (now : ℕ) (v : Verified)
      → (verify x policy token now find_key ≡ ok v) ↔ IsAuthentic token now v
  verify_iff token now v = (verify_sound token now v, verify_complete token now v)

-- Two moments at which one token is accepted, whatever the key lookup answers at each of them,
-- lie closer together than the policy's lifetime and the clock skew, and both name the same
-- subject.
pub replay_window :
    (x : Codec) (policy : Policy) (find_key find_later : String → Result Rejection VerifyingKey)
    (token : String) (earlier later : ℕ) (v w : Verified)
    → verify x policy token earlier find_key ≡ ok v
    → verify x policy token later find_later ≡ ok w
    → (later < earlier + clock_skew_secs + policy.max_lifetime_secs) × (w ≡ v)
replay_window x policy find_key find_later token earlier later v w h k =
    let a = verify_sound x policy find_key token earlier v h in
    let b = verify_sound x policy find_later token later w k in
    let p = (parse_token_iff x token a.parts).1 a.compact in
    let q = (parse_token_iff x token b.parts).1 b.compact in
    let same_parts : a.parts ≡ b.parts = cc in
    let same_claims : a.claims ≡ b.claims = cc (same_parts, a.has_claims, b.has_claims) in
    let c = a.acceptable in
    let d = b.acceptable in
    let same_exp : c.exp ≡ d.exp = cc (same_claims, c.has_exp, d.has_exp) in
    let same_iat : c.iat ≡ d.iat = cc (same_claims, c.has_iat, d.has_iat) in
    let same_sub : w.subject ≡ v.subject = cc (same_claims, c.has_sub, d.has_sub) in
    (
      omega (
        arith,
        same_exp,
        same_iat,
        c.timely.short,
        c.timely.issued,
        d.timely.unexpired,
        saturating_add-le earlier clock_skew_secs,
      ),
      λ i. record { subject = same_sub i },
    )
