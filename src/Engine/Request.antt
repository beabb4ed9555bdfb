-- ===== src/Engine/Request.antt =====
-- agent/src/engine.rs: `request`, which builds a request to an endpoint. It expects an endpoint that
-- was validated, and panics on another one.
pub mod Tests
use ffmpeg_docker_playground.Base.{
  ℕ, ◌≡◌, refl, ◌∙◌, [], ◌⊎◌, inl, inr, Option, none, some, List, Memᴰ, String, Result, ok, err,
  ◌>>=◌, or_err, or_err-eq-ok, >>=-eq-ok, arith, reject_if,
}
use ffmpeg_docker_playground.Model.Types.{Endpoint}
use ffmpeg_docker_playground.Model.Endpoint.{
  Url, Http, Invalid, bad_url, methods, header_map, check_method, validate_endpoint,
}
use ffmpeg_docker_playground.Model.Endpoint.Laws.{
  IsMethod, validate_endpoint_iff, collect_headers_complete,
}
use ffmpeg_docker_playground.Model.Endpoint.Headers.{
  value_of, Distinct, prefer, last_of, value_of-collect_headers, collect_headers-Distinct,
}

pub record Sent : Type 0 where
  pub method : String
  pub url : String
  pub headers : List (String × List ℕ)

module _ (h : Http) where
  -- `Method::from_bytes(m).expect(…)`, or the method that the caller names.
  abbrev pub method_of : String → Option String → Option String
  method_of default none = some default
  method_of default (some m) = h.parse_method m

  abbrev pub expect_headers :
      Result Invalid (List (String × List ℕ)) → Option (List (String × List ℕ))
  expect_headers (ok headers) = some headers
  expect_headers (err e) = none

  -- `none` is a panic.
  unfoldable pub request : String → Endpoint → Option Sent
  request default endpoint = elim (method_of default endpoint.method) [
    | none ↦ none
    | some method ↦ elim (expect_headers (header_map h endpoint)) [
      | none ↦ none
      | some headers ↦ some (record { method = method; url = endpoint.url; headers = headers })
    ]
  ]

  -- What goes out for a validated endpoint.
  pub record IsSent (default : String) (endpoint : Endpoint) (sent : Sent) : Type 0 where
    pub same_url : sent.url ≡ endpoint.url
    pub all_headers : (name : String) → value_of name sent.headers ≡ last_of h name endpoint.headers
    pub once : Distinct sent.headers
    pub allowed : (sent.method ≡ default) ⊎ Memᴰ sent.method methods

  prefer-none : (o : Option (List ℕ)) → prefer o none ≡ o
  prefer-none none = refl
  prefer-none (some a) = refl

  method_of-allowed :
      (default : String) (o : Option String)
      → IsMethod h o
      → (m : String) × (method_of default o ≡ some m) × ((m ≡ default) ⊎ Memᴰ m methods)
  method_of-allowed default none v = (default, refl, inl refl)
  method_of-allowed default (some m) (name, parsed, member) = (name, parsed, inr member)

  -- For a validated endpoint, neither of the two expectations in building a request fails: the
  -- request goes to the endpoint's URL, under each name with the last value that the endpoint
  -- gives under any spelling of it and with no name twice, by the method that the caller names
  -- or one of the allowed ones.
  pub request_total :
      (default : String) (endpoint : Endpoint)
      → validate_endpoint h endpoint ≡ ok tt
      → (sent : Sent) × (request default endpoint ≡ some sent) × IsSent default endpoint sent
  unfolding request header_map value_of
  request_total default endpoint valid =
      let v = (validate_endpoint_iff h endpoint).0 valid in
      let (method, e, allowed) = method_of-allowed default endpoint.method v.method in
      let (headers, f) = collect_headers_complete h [] endpoint.headers v.headers in
      (
        record { method = method; url = endpoint.url; headers = headers },
        rw (e, f, request) refl,
        record {
          same_url = refl;
          all_headers =
              λ name. value_of-collect_headers h name [] endpoint.headers headers f ∙ prefer-none _;
          once = collect_headers-Distinct h [] endpoint.headers headers tt f;
          allowed = allowed;
        },
      )
