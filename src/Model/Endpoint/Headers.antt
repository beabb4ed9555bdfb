-- ===== src/Model/Endpoint/Headers.antt =====
-- `Endpoint::header_map`: under each name the last value that the endpoint gives.
use ffmpeg_docker_playground.Base.{
  ℕ, ◌≡◌, ◌≢◌, refl, sym, subst, ap, ◌∙◌, inl, inr, Option, none, some, List, [], ◌∷◌, String, ◌==◌,
  eq_iff, contains, ok, reject_if, or_err, arith, >>=-eq-ok, or_err-eq-ok, All, Bool-cases,
  if◌then◌else◌,
}
use ffmpeg_docker_playground.Model.Endpoint.{
  Http, bad_header, transport_header, transport_headers, insert_header, collect_headers,
}

-- The value under a name.
unfoldable pub value_of : String → List (String × List ℕ) → Option (List ℕ)
value_of name [] = none
value_of name ((other, value) ∷ headers) =
    let rest = value_of name headers in if other == name then some value else rest

-- No name comes twice.
abbrev pub Distinct : List (String × List ℕ) → Type 0
Distinct [] = Unit
Distinct ((name, value) ∷ headers) = All (λ p. p.0 ≢ name) headers × Distinct headers

abbrev pub prefer : Option (List ℕ) → Option (List ℕ) → Option (List ℕ)
prefer (some a) o = some a
prefer none o = o

abbrev pub under : String → Option String → Option (List ℕ) → Option (List ℕ)
under name none value = none
under name (some other) value = if other == name then value else none

module _ (h : Http) where
  -- The last value that is given under a name, in any spelling of it.
  pub last_of : String → List (String × String) → Option (List ℕ)
  last_of name [] = none
  last_of name ((other, value) ∷ pairs) =
      prefer (last_of name pairs) (under name (h.parse_name other) (h.parse_value value))

value_of-insert_header :
    (name other : String) (value : List ℕ) (result : List (String × List ℕ))
    → value_of name (insert_header other value result)
      ≡ (if other == name then some value else value_of name result)
unfolding value_of insert_header
value_of-insert_header name other value [] = refl
value_of-insert_header name other value ((m, kept) ∷ result) =
    let ih = value_of-insert_header name other value result in
    elim (Bool-cases (m == other)) [
      | inl e ↦ let same : m ≡ other = (eq_iff m other).0 e in ground (arith, e, same)
      | inr e ↦
          let differ = eq_iff m other in
          let first = eq_iff m name in
          let second = eq_iff other name in ground (arith, e, ih, differ, first, second)
    ]

absent-insert_header :
    (name other : String) (value : List ℕ) (result : List (String × List ℕ))
    → other ≢ name
    → All (λ p. p.0 ≢ name) result
    → All (λ p. p.0 ≢ name) (insert_header other value result)
unfolding insert_header
absent-insert_header name other value [] n a = (n, tt)
absent-insert_header name other value ((m, kept) ∷ result) n (b, a) =
    elim (Bool-cases (m == other)) [
      | inl e ↦ rw e (n, a)
      | inr e ↦ rw e (b, absent-insert_header name other value result n a)
    ]

insert_header-Distinct :
    (name : String) (value : List ℕ) (result : List (String × List ℕ))
    → Distinct result
    → Distinct (insert_header name value result)
unfolding insert_header
insert_header-Distinct name value [] d = (tt, tt)
insert_header-Distinct name value ((m, kept) ∷ result) (a, d) = elim (Bool-cases (m == name)) [
  | inl e ↦ rw e (subst (λ n. All (λ p. p.0 ≢ n) result) ((eq_iff m name).0 e) a, d)
  | inr e ↦
      let differ : name ≢ m = λ same. cc (e, (eq_iff m name).1 (sym same)) in
      rw e (
        absent-insert_header m name value result differ a,
        insert_header-Distinct name value result d,
      )
]

module _ (h : Http) where
  pub value_of-collect_headers :
      (name : String) (result : List (String × List ℕ)) (ps : List (String × String))
      (m : List (String × List ℕ))
      → collect_headers h result ps ≡ ok m
      → value_of name m ≡ prefer (last_of h name ps) (value_of name result)
  unfolding collect_headers last_of
  value_of-collect_headers name result [] m e = ground arith
  value_of-collect_headers name result ((n, v) ∷ ps) m e =
      let (other, e1, h1) = >>=-eq-ok (or_err (h.parse_name n) bad_header) _ e in
      let (_, e2, h2) =
        >>=-eq-ok (reject_if (contains other transport_headers) transport_header) _ h1 in
      let (value, e3, h3) = >>=-eq-ok (or_err (h.parse_value v) bad_header) _ h2 in
      let named = or_err-eq-ok (h.parse_name n) _ e1 in
      let valued = or_err-eq-ok (h.parse_value v) _ e3 in
      let ih = value_of-collect_headers name (insert_header other value result) ps m h3 in
      ih
      ∙ ap (prefer (last_of h name ps)) (value_of-insert_header name other value result)
      ∙ rw (named, valued) (prefers other value (last_of h name ps))
    where
      prefers :
          (other : String) (value : List ℕ) (o : Option (List ℕ))
          → prefer o (if other == name then some value else value_of name result)
            ≡ prefer (prefer o (if other == name then some value else none)) (value_of name result)
      prefers other value (some a) = refl
      prefers other value none = ground arith

  pub collect_headers-Distinct :
      (result : List (String × List ℕ)) (ps : List (String × String)) (m : List (String × List ℕ))
      → Distinct result
      → collect_headers h result ps ≡ ok m
      → Distinct m
  unfolding collect_headers
  collect_headers-Distinct result [] m d e =
      let same : result ≡ m = ground arith in subst Distinct same d
  collect_headers-Distinct result ((n, v) ∷ ps) m d e =
      let (other, e1, h1) = >>=-eq-ok (or_err (h.parse_name n) bad_header) _ e in
      let (_, e2, h2) =
        >>=-eq-ok (reject_if (contains other transport_headers) transport_header) _ h1 in
      let (value, e3, h3) = >>=-eq-ok (or_err (h.parse_value v) bad_header) _ h2 in
      collect_headers-Distinct (insert_header other value result) ps m
        (insert_header-Distinct other value result d) h3
