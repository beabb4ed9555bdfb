-- ===== src/Model/Endpoint/Laws.antt =====
-- Which endpoints are accepted.
use ffmpeg_docker_playground.Base.Text.{is_blank}
use ffmpeg_docker_playground.Base.{
  ℕ, ◌≤◌, ◌≡◌, refl, ap, ◌↔◌, ◌⊎◌, inl, inr, Bool, true, false, Option, none, some, List, [], ◌∷◌,
  Memᴰ, String, eq_iff, contains, contains_iff, ok, reject_if, or_err, arith, >>=-eq-ok,
  reject_if-eq-ok, or_err-eq-ok, All, Bool-cases,
}
use ffmpeg_docker_playground.Model.Types.{Retry, Endpoint}
use ffmpeg_docker_playground.Model.Endpoint.{
  Url, Http, bad_url, unsafe_url, bad_header, transport_header, bad_method, is_some, methods,
  transport_headers, is_unsafe_url, check_retry, collect_headers, insert_header, header_map,
  check_method, validate_endpoint,
}

pub record IsBounded (retry : Retry) : Type 0 where
  pub some_attempt : 1 ≤ retry.max_attempts
  pub few_attempts : retry.max_attempts ≤ 10
  pub short_delay : retry.delay_ms ≤ 60000

abbrev pub RetryIsBounded : Option Retry → Type 0
RetryIsBounded none = Unit
RetryIsBounded (some retry) = IsBounded retry

-- A URL of HTTP or HTTPS that names a host and carries no credentials and no fragment.
pub record IsPlainUrl (url : Url) : Type 0 where
  pub scheme : (url.scheme ≡ "http") ⊎ (url.scheme ≡ "https")
  pub host : (name : String) × (url.host_str ≡ some name)
  pub anonymous : url.username ≡ ""
  pub no_password : url.password ≡ none
  pub no_fragment : url.fragment ≡ none

check_retry_iff : (o : Option Retry) → (check_retry o ≡ ok tt) ↔ RetryIsBounded o
unfolding check_retry
check_retry_iff none = (λ _. tt, λ _. refl)
check_retry_iff (some retry) = ((λ h. ground arith), λ b. ground arith)

is_blank-eq : (s : String) → is_blank s ≡ true → s ≡ ""
is_blank-eq String.[] h = refl
is_blank-eq (String.◌∷◌ c s) h = cc

is_some-false {ℓ} : {A : Type ℓ} (o : Option A) → is_some o ≡ false → o ≡ none
is_some-false none h = refl
is_some-false (some a) h = cc

is_some-true {ℓ} : {A : Type ℓ} (o : Option A) → is_some o ≡ true → (a : A) × (o ≡ some a)
is_some-true none h = absurd (cc)
is_some-true (some a) h = (a, refl)

is_unsafe_url_iff : (url : Url) → (is_unsafe_url url ≡ false) ↔ IsPlainUrl url
unfolding is_unsafe_url
is_unsafe_url_iff url = (
  (λ h. record {
    scheme = ground (arith, eq_iff url.scheme "http", eq_iff url.scheme "https");
    host = is_some-true url.host_str (ground arith);
    anonymous = is_blank-eq url.username (ground arith);
    no_password = is_some-false url.password (ground arith);
    no_fragment = is_some-false url.fragment (ground arith);
  }),
  λ p. ground (
    arith,
    eq_iff url.scheme "http",
    eq_iff url.scheme "https",
    p.host.1,
    ap is_blank p.anonymous,
  ),
)

module _ (h : Http) where
  -- The header is well formed and is none of those that the agent manages itself.
  pub record IsHeader (pair : String × String) : Type 0 where
    pub name : String
    pub value : List ℕ
    pub is_name : h.parse_name pair.0 ≡ some name
    pub is_value : h.parse_value pair.1 ≡ some value
    pub own : ¬ Memᴰ name transport_headers

  abbrev pub IsMethod : Option String → Type 0
  IsMethod none = Unit
  IsMethod (some m) = (name : String) × (h.parse_method m ≡ some name) × Memᴰ name methods

  pub record IsEndpoint (e : Endpoint) : Type 0 where
    pub url : Url
    pub is_url : h.parse_url e.url ≡ some url
    pub plain : IsPlainUrl url
    pub headers : All IsHeader e.headers
    pub method : IsMethod e.method
    pub retry : RetryIsBounded e.retry

  collect_headers_sound :
      (result : List (String × List ℕ)) (ps : List (String × String)) (m : List (String × List ℕ))
      → collect_headers h result ps ≡ ok m
      → All IsHeader ps
  unfolding collect_headers
  collect_headers_sound result [] m e = tt
  collect_headers_sound result ((n, v) ∷ ps) m e =
      let (name, e1, h1) = >>=-eq-ok (or_err (h.parse_name n) bad_header) _ e in
      let (_, e2, h2) =
        >>=-eq-ok (reject_if (contains name transport_headers) transport_header) _ h1 in
      let (value, e3, h3) = >>=-eq-ok (or_err (h.parse_value v) bad_header) _ h2 in
      let fine : contains name transport_headers ≡ false = reject_if-eq-ok _ _ e2 in
      (
        record {
          name = name;
          value = value;
          is_name = or_err-eq-ok (h.parse_name n) _ e1;
          is_value = or_err-eq-ok (h.parse_value v) _ e3;
          own = λ m. absurd_of fine ((contains_iff name transport_headers).1 m);
        },
        collect_headers_sound (insert_header name value result) ps m h3,
      )
    where
      absurd_of : {b : Bool} → b ≡ false → b ≡ true → ⊥
      absurd_of p q = cc

  contains-eq-false : (s : String) (xs : List String) → (¬ Memᴰ s xs) → contains s xs ≡ false
  contains-eq-false s xs n = elim (Bool-cases (contains s xs)) [
    | inl e ↦ absurd (n ((contains_iff s xs).0 e))
    | inr e ↦ e
  ]

  pub collect_headers_complete :
      (result : List (String × List ℕ)) (ps : List (String × String))
      → All IsHeader ps
      → (m : List (String × List ℕ)) × (collect_headers h result ps ≡ ok m)
  unfolding collect_headers
  collect_headers_complete result [] a = (result, refl)
  collect_headers_complete result ((n, v) ∷ ps) (p, a) =
      let (m, e) = collect_headers_complete (insert_header p.name p.value result) ps a in
      (m, rw (p.is_name, contains-eq-false p.name transport_headers p.own, p.is_value, e))

  check_method_iff : (o : Option String) → (check_method h o ≡ ok tt) ↔ IsMethod o
  unfolding check_method
  check_method_iff none = (λ _. tt, λ _. refl)
  check_method_iff (some m) = (
    (λ e.
        let (name, e1, h1) = >>=-eq-ok (or_err (h.parse_method m) bad_method) _ e in
        (
          name,
          or_err-eq-ok (h.parse_method m) _ e1,
          (contains_iff name methods).0 (ground (arith, h1)),
        )),
    λ (name, p, m). rw p (rw ((contains_iff name methods).1 m)),
  )

  validate_endpoint_sound : (e : Endpoint) → validate_endpoint h e ≡ ok tt → IsEndpoint e
  unfolding validate_endpoint
  validate_endpoint_sound e v =
      let (url, e1, h1) = >>=-eq-ok (or_err (h.parse_url e.url) bad_url) _ v in
      let (_, e2, h2) = >>=-eq-ok (reject_if (is_unsafe_url url) unsafe_url) _ h1 in
      let (m, e3, h3) = >>=-eq-ok (header_map h e) _ h2 in
      let (_, e4, h4) = >>=-eq-ok (check_method h e.method) _ h3 in
      record {
        url = url;
        is_url = or_err-eq-ok (h.parse_url e.url) _ e1;
        plain = (is_unsafe_url_iff url).0 (reject_if-eq-ok _ _ e2);
        headers = collect_headers_sound [] e.headers m e3;
        method = (check_method_iff e.method).0 e4;
        retry = (check_retry_iff e.retry).0 h4;
      }

  validate_endpoint_complete : (e : Endpoint) → IsEndpoint e → validate_endpoint h e ≡ ok tt
  unfolding validate_endpoint
  validate_endpoint_complete e v =
      let (m, collected) = collect_headers_complete [] e.headers v.headers in
      let safe = (is_unsafe_url_iff v.url).1 v.plain in
      let method = (check_method_iff e.method).1 v.method in
      let retry = (check_retry_iff e.retry).1 v.retry in
      rw (v.is_url, safe, collected, method) retry

  -- An endpoint is accepted exactly when its URL is plain HTTP or HTTPS with a host and no
  -- credentials or fragment, its headers parse and are not the transport's, its method is
  -- allowed, and its retries are bounded.
  pub validate_endpoint_iff : (e : Endpoint) → (validate_endpoint h e ≡ ok tt) ↔ IsEndpoint e
  validate_endpoint_iff e = (validate_endpoint_sound e, validate_endpoint_complete e)
