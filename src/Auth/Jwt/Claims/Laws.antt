-- ===== src/Auth/Jwt/Claims/Laws.antt =====
-- When the claims of a token are accepted, and for how long.
use ffmpeg_docker_playground.Base.Words.{saturating_add}
use ffmpeg_docker_playground.Base.{
  ℕ, ◌+◌, ◌≤◌, ◌<◌, ◌≡◌, refl, ◌≢◌, ◌↔◌, true, false, Option, none, some, List, Memᴰ, String,
  eq_iff, contains_iff, ok, arith, >>=-eq-ok, or_err-eq-ok, or_err, subst, ap, ◌∙◌,
}
use ffmpeg_docker_playground.Auth.Rejection.{missing_claim}
use ffmpeg_docker_playground.Auth.Jwt.Types.{
  clock_skew_secs, Policy, Audience, one, many, Claims, Verified,
}
use ffmpeg_docker_playground.Auth.Jwt.Claims.{
  audience_matches, is_refused, check_times, check_parties, check_claims, non_empty, differs,
}

-- RFC 7519: `aud` is one name, or an array that holds the audience.
abbrev pub IsFor : String → Option Audience → Type 0
IsFor a none = ⊥
IsFor a (some (one aud)) = aud ≡ a
IsFor a (some (many auds)) = Memᴰ a auds

abbrev pub IsAtMost : ℕ → Option ℕ → Type 0
IsAtMost limit none = Unit
IsAtMost limit (some n) = n ≤ limit

-- A setting that is left out asks nothing of the token.
abbrev pub Requires : Option String → Option String → Type 0
Requires none given = Unit
Requires (some wanted) given = given ≡ some wanted

abbrev pub Allows : Option (List String) → String → Type 0
Allows none s = Unit
Allows (some allowed) s = Memᴰ s allowed

-- The times of a token are in order, `now` lies in its window, and the window is short enough.
pub record IsTimely (policy : Policy) (now : ℕ) (claims : Claims) (iat exp : ℕ) : Type 0 where
  pub in_order : iat < exp
  pub unexpired : now < exp
  pub issued : iat ≤ saturating_add now clock_skew_secs
  pub begun : IsAtMost (saturating_add now clock_skew_secs) claims.nbf
  pub short : exp ≤ iat + policy.max_lifetime_secs

pub record IsPermitted (policy : Policy) (claims : Claims) (subject : String) : Type 0 where
  pub issuer : Requires policy.issuer claims.iss
  pub audience : IsFor policy.audience claims.aud
  pub allowed : Allows policy.subjects subject

-- What the checks promise of an accepted token, with no order of checks.
pub record IsAcceptable (policy : Policy) (now : ℕ) (claims : Claims) (v : Verified) : Type 0 where
  pub exp : ℕ
  pub iat : ℕ
  pub has_exp : claims.exp ≡ some exp
  pub has_iat : claims.iat ≡ some iat
  pub has_sub : claims.sub ≡ some v.subject
  pub named : v.subject ≢ ""
  pub timely : IsTimely policy now claims iat exp
  pub permitted : IsPermitted policy claims v.subject

check_times_iff :
    (policy : Policy) (now : ℕ) (claims : Claims) (iat exp : ℕ)
    → (check_times policy now claims iat exp ≡ ok tt) ↔ IsTimely policy now claims iat exp
unfolding check_times
check_times_iff policy now claims iat exp = (λ h. ground arith, λ t. ground arith)

pub differs-eq-false_iff :
    (wanted given : Option String) → (differs wanted given ≡ false) ↔ Requires wanted given
differs-eq-false_iff none given = (λ _. tt, λ _. refl)
differs-eq-false_iff (some w) none = ((λ h. cc), λ h. cc)
differs-eq-false_iff (some w) (some g) =
    ((λ h. ground (arith, eq_iff g w)), λ h. ground (arith, eq_iff g w))

audience_matches_iff :
    (aud : Option Audience) (a : String) → (audience_matches aud a ≡ true) ↔ IsFor a aud
unfolding audience_matches
audience_matches_iff none a = ((λ h. cc), λ h. absurd h)
audience_matches_iff (some (one aud)) a = eq_iff aud a
audience_matches_iff (some (many auds)) a = contains_iff a auds

is_refused-eq-false_iff :
    (subjects : Option (List String)) (s : String)
    → (is_refused subjects s ≡ false) ↔ Allows subjects s
unfolding is_refused
is_refused-eq-false_iff none s = (λ _. tt, λ _. refl)
is_refused-eq-false_iff (some l) s =
    ((λ h. (contains_iff s l).0 (ground arith)), λ m. ground (arith, (contains_iff s l).1 m))

check_parties_iff :
    (policy : Policy) (claims : Claims) (subject : String)
    → (check_parties policy claims subject ≡ ok tt) ↔ IsPermitted policy claims subject
unfolding check_parties
check_parties_iff policy claims subject = (
  λ h. record {
    issuer = (differs-eq-false_iff policy.issuer claims.iss).0 (ground arith);
    audience = (audience_matches_iff claims.aud policy.audience).0 (ground arith);
    allowed = (is_refused-eq-false_iff policy.subjects subject).0 (ground arith);
  },
  λ p. ground (
    arith,
    (differs-eq-false_iff policy.issuer claims.iss).1 p.issuer,
    (audience_matches_iff claims.aud policy.audience).1 p.audience,
    (is_refused-eq-false_iff policy.subjects subject).1 p.allowed,
  ),
)

pub non_empty-eq-some_iff :
    (o : Option String) (s : String) → (non_empty o ≡ some s) ↔ ((o ≡ some s) × (s ≢ ""))
non_empty-eq-some_iff none s = ((λ h. cc), λ h. cc)
non_empty-eq-some_iff (some String.[]) s = ((λ h. cc), λ (h, n). absurd (n (cc h)))
non_empty-eq-some_iff (some (String.◌∷◌ c t)) s = ((λ h. (h, λ e. cc)), λ (h, n). h)

check_claims_sound :
    (policy : Policy) (now : ℕ) (claims : Claims) (v : Verified)
    → check_claims policy now claims ≡ ok v
    → IsAcceptable policy now claims v
unfolding check_claims
check_claims_sound policy now claims v h =
    let (exp, e, h1) = >>=-eq-ok (or_err claims.exp (missing_claim "exp")) _ h in
    let (iat, i, h2) = >>=-eq-ok (or_err claims.iat (missing_claim "iat")) _ h1 in
    let (subject, s, h3) = >>=-eq-ok (or_err (non_empty claims.sub) (missing_claim "sub")) _ h2 in
    let (_, times, h4) = >>=-eq-ok (check_times policy now claims iat exp) _ h3 in
    let (_, parties, done) = >>=-eq-ok (check_parties policy claims subject) _ h4 in
    let same : subject ≡ v.subject = cc in
    let sub =
      (non_empty-eq-some_iff claims.sub subject).0 (or_err-eq-ok (non_empty claims.sub) _ s) in
    record {
      exp = exp;
      iat = iat;
      has_exp = or_err-eq-ok claims.exp _ e;
      has_iat = or_err-eq-ok claims.iat _ i;
      has_sub = sub.0 ∙ ap some same;
      named = subst (λ t. t ≢ "") same sub.1;
      timely = (check_times_iff policy now claims iat exp).0 times;
      permitted =
          subst (IsPermitted policy claims) same
            ((check_parties_iff policy claims subject).0 parties);
    }

check_claims_complete :
    (policy : Policy) (now : ℕ) (claims : Claims) (v : Verified)
    → IsAcceptable policy now claims v
    → check_claims policy now claims ≡ ok v
unfolding check_claims
check_claims_complete policy now claims v a =
    let sub = (non_empty-eq-some_iff claims.sub v.subject).1 (a.has_sub, a.named) in
    let times = (check_times_iff policy now claims a.iat a.exp).1 a.timely in
    let parties = (check_parties_iff policy claims v.subject).1 a.permitted in
    rw (a.has_exp, a.has_iat, sub, times, parties)

-- Claims are accepted exactly when the required ones are present, the times are consistent at
-- this moment, and issuer, audience and subject are allowed.
pub check_claims_iff :
    (policy : Policy) (now : ℕ) (claims : Claims) (v : Verified)
    → (check_claims policy now claims ≡ ok v) ↔ IsAcceptable policy now claims v
check_claims_iff policy now claims v =
    (check_claims_sound policy now claims v, check_claims_complete policy now claims v)
