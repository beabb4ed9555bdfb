-- ===== src/Auth/Bearer/Laws.antt =====
-- Which requests carry a credential, and that its token is within the verifier's size limit.
use Prim.Native.String.{count}
use Prim.Native.String.count
use Prim.Native.String.len as len_clauses
use text.Mathlib.TextLemmas as TextLemmas
use text.Mathlib.TextPositions.{len-append, len_utf8-pos}
use ffmpeg_docker_playground.Base.Text.{bytes, split_once, eq_ignore_ascii_case}
use ffmpeg_docker_playground.Base.Text.Split.{◌++ₛ◌, Lacks, split_once_iff}
use ffmpeg_docker_playground.Base.{
  ℕ, ◌+◌, ◌≤◌, ◌≡◌, refl, ◌≢◌, ◌↔◌, true, Option, some, List, [], ◌∷◌, String, len, ltb,
  ltb-false→le, le→ltb-false, length, all, ok, reject_if, or_err, arith, >>=-eq-ok, reject_if-eq-ok,
  or_err-eq-ok, sym, ap, ◌∙◌,
}
use ffmpeg_docker_playground.Auth.Rejection.{token_too_large, malformed_authorization}
use ffmpeg_docker_playground.Auth.Jwt.Types.{max_token_bytes}
use ffmpeg_docker_playground.Auth.Bearer.{is_token_byte, check_token, bearer_value, bearer}

space-append : (s : String) → " " ++ₛ s ≡ String.◌∷◌ " " s
space-append s =
    TextLemmas.cons-append " " "" s ∙ ap (λ t. String.◌∷◌ " " t) (TextLemmas.nil-append s)

eq_ignore_ascii_case-count : (s t : String) → eq_ignore_ascii_case s t ≡ true → count s ≡ count t
unfolding eq_ignore_ascii_case
eq_ignore_ascii_case-count String.[] String.[] h = refl
eq_ignore_ascii_case-count String.[] (String.◌∷◌ d t) h = cc
eq_ignore_ascii_case-count (String.◌∷◌ c s) String.[] h = cc
eq_ignore_ascii_case-count (String.◌∷◌ c s) (String.◌∷◌ d t) h =
    omega (arith, eq_ignore_ascii_case-count s t (ground arith), count.cons c s, count.cons d t)

count-le-len : (s : String) → count s ≤ len s
count-le-len String.[] = omega arith
count-le-len (String.◌∷◌ c s) =
    let (k, wide) = len_utf8-pos c in
    omega (arith, wide, count-le-len s, count.cons c s, len_clauses.cons c s)

module _ (to_str : List ℕ → Option String) where
  -- RFC 6750: exactly one header, of bounded size, with the scheme `Bearer` in any case, one space
  -- and a token of base64url characters and dots.
  pub record IsBearer (values : List (List ℕ)) (token : String) : Type 0 where
    pub value : List ℕ
    pub text : String
    pub scheme : String
    pub only : values ≡ value ∷ []
    pub bounded : length value ≤ max_token_bytes + 7
    pub readable : to_str value ≡ some text
    pub spaced : text ≡ scheme ++ₛ " " ++ₛ token
    pub unspaced : Lacks b' ' scheme
    pub is_bearer : eq_ignore_ascii_case scheme "bearer" ≡ true
    pub filled : token ≢ ""
    pub plain : all is_token_byte (bytes token) ≡ true

  check_token_iff :
      (scheme token t : String)
      → (check_token to_str (scheme, token) ≡ ok t) ↔ (
          (t ≡ token)
          × (eq_ignore_ascii_case scheme "bearer" ≡ true)
          × (token ≢ "")
          × (all is_token_byte (bytes token) ≡ true))
  unfolding check_token
  check_token_iff scheme String.[] t = ((λ h. ground arith), λ h. absurd (h.2 refl))
  check_token_iff scheme (String.◌∷◌ c s) t =
      ((λ h. (ground arith, ground arith, (λ e. cc), ground arith)), λ h. ground arith)

  bearer_value_sound :
      (value : List ℕ) (token : String)
      → bearer_value to_str value ≡ ok token
      → IsBearer (value ∷ []) token
  unfolding bearer_value
  bearer_value_sound value token h =
      let (_, fits, h1) =
        >>=-eq-ok (reject_if (ltb (max_token_bytes + 7) (length value)) token_too_large) _ h in
      let (text, read, h2) = >>=-eq-ok (or_err (to_str value) malformed_authorization) _ h1 in
      let ((scheme, t), cut, h3) =
        >>=-eq-ok (or_err (split_once b' ' text) malformed_authorization) _ h2 in
      let (same, is_bearer, filled, plain) = (check_token_iff scheme t token).0 h3 in
      let (lacks, joined) =
        (split_once_iff " " text scheme t).0 (or_err-eq-ok (split_once b' ' text) _ cut) in
      record {
        value = value;
        text = text;
        scheme = scheme;
        only = refl;
        bounded = ltb-false→le _ (length value) (reject_if-eq-ok _ _ fits);
        readable = or_err-eq-ok (to_str value) _ read;
        spaced =
            joined ∙ ap (λ u. scheme ++ₛ u) (sym (space-append t) ∙ ap (λ u. " " ++ₛ u) (sym same));
        unspaced = lacks;
        is_bearer = is_bearer;
        filled = rw same filled;
        plain = rw same plain;
      }

  bearer_sound :
      (values : List (List ℕ)) (token : String)
      → bearer to_str values ≡ ok token
      → IsBearer values token
  unfolding bearer
  bearer_sound [] token h = cc
  bearer_sound (value ∷ []) token h = bearer_value_sound value token h
  bearer_sound (value ∷ more ∷ values) token h = cc

  bearer_complete :
      (values : List (List ℕ)) (token : String)
      → IsBearer values token
      → bearer to_str values ≡ ok token
  unfolding bearer bearer_value
  bearer_complete values token b =
      let cut : split_once b' ' b.text ≡ some (b.scheme, token) =
        (split_once_iff " " b.text b.scheme token).1
          (b.unspaced, b.spaced ∙ ap (λ t. b.scheme ++ₛ t) (space-append token)) in
      let fits = le→ltb-false (max_token_bytes + 7) (length b.value) b.bounded in
      rw (b.only, fits, b.readable, cut)
        ((check_token_iff b.scheme token token).1 (refl, b.is_bearer, b.filled, b.plain))

  -- A credential is taken exactly when there is one Authorization value, within the size limit,
  -- of the scheme Bearer in any case, one space, and a non-empty token of token characters.
  pub bearer_iff :
      (values : List (List ℕ)) (token : String)
      → (bearer to_str values ≡ ok token) ↔ IsBearer values token
  bearer_iff values token = (bearer_sound values token, bearer_complete values token)

  -- Where the text of a header value has the length of the value, a token that a request carries
  -- is within the verifier's size limit.
  pub bearer_bounded :
      (values : List (List ℕ)) (token : String)
      → ((value : List ℕ) (text : String) → to_str value ≡ some text → len text ≡ length value)
      → bearer to_str values ≡ ok token
      → len token ≤ max_token_bytes
  bearer_bounded values token same_length h =
      let b = bearer_sound values token h in
      let six : count b.scheme ≡ 6 = eq_ignore_ascii_case-count b.scheme "bearer" b.is_bearer in
      omega (
        arith,
        six,
        count-le-len b.scheme,
        same_length b.value b.text b.readable,
        b.bounded,
        ap len b.spaced,
        len-append b.scheme (" " ++ₛ token),
        len-append " " token,
      )
