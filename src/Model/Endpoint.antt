-- ===== src/Model/Endpoint.antt =====
-- agent/src/model.rs: `Retry::validate`, `Endpoint::validate` and `Endpoint::header_map`.
pub mod Headers
pub mod Laws
use ffmpeg_docker_playground.Base.Text.{is_blank}
use ffmpeg_docker_playground.Base.{
  ℕ, ◌≤◌, Bool, true, false, not, ◌&&◌, ◌||◌, Option, none, some, List, [], ◌∷◌, ◌++◌, String, ◌==◌,
  ltb, in_range, contains, Result, ok, err, ◌>>=◌, ◌>>◌, reject_if, or_err, if◌then◌else◌,
}
use ffmpeg_docker_playground.Model.Types.{Retry, Endpoint}

-- The parts of a parsed URL that the agent looks at.
pub record Url : Type 0 where
  pub scheme : String
  pub host_str : Option String
  pub username : String
  pub password : Option String
  pub fragment : Option String

-- reqwest: parsing a URL, a method, a header name (in its normal form) and a header value.
pub record Http : Type 0 where
  pub parse_url : String → Option Url
  pub parse_method : String → Option String
  pub parse_name : String → Option String
  pub parse_value : String → Option (List ℕ)

-- The messages of `validate`, one constructor each.
pub data Invalid : Type 0 where
  bad_retry bad_url unsafe_url bad_header transport_header bad_method unsupported_method : Invalid
  bad_id bad_extension bad_sizes bad_args : Invalid

abbrev pub is_some {ℓ} : {A : Type ℓ} → Option A → Bool
is_some none = false
is_some (some a) = true

unfoldable pub validate_retry : Retry → Result Invalid (Unit {0})
validate_retry retry =
    reject_if (not (in_range 1 10 retry.max_attempts) || ltb 60000 retry.delay_ms) bad_retry

abbrev pub methods : List String
methods = "GET" ∷ "POST" ∷ "PUT" ∷ "PATCH" ∷ "DELETE" ∷ "HEAD" ∷ "OPTIONS" ∷ []

abbrev pub transport_headers : List String
transport_headers = "host" ∷ "content-length" ∷ "transfer-encoding" ∷ "connection" ∷ "upgrade" ∷ []

pub is_unsafe_url : Url → Bool
is_unsafe_url url =
    not (url.scheme == "http" || url.scheme == "https")
    || not (is_some url.host_str)
    || not (is_blank url.username)
    || is_some url.password
    || is_some url.fragment

pub check_retry : Option Retry → Result Invalid (Unit {0})
unfolding validate_retry
check_retry none = ok tt
check_retry (some retry) = validate_retry retry

-- `HeaderMap::insert`: an earlier value of the name is replaced.
unfoldable pub insert_header : String → List ℕ → List (String × List ℕ) → List (String × List ℕ)
insert_header name value [] = (name, value) ∷ []
insert_header name value ((other, kept) ∷ result) =
    let rest = insert_header name value result in
    if other == name then (name, value) ∷ result else (other, kept) ∷ rest

module _ (h : Http) where
  -- The loop of `header_map`, over the pairs in the order of the sorted map.
  unfoldable pub collect_headers :
      List (String × List ℕ) → List (String × String) → Result Invalid (List (String × List ℕ))
  unfolding insert_header
  collect_headers result [] = ok result
  collect_headers result ((name, value) ∷ rest) = do
    name ← or_err (h.parse_name name) bad_header
    reject_if (contains name transport_headers) transport_header
    value ← or_err (h.parse_value value) bad_header
    collect_headers (insert_header name value result) rest

  unfoldable pub header_map : Endpoint → Result Invalid (List (String × List ℕ))
  unfolding collect_headers
  header_map endpoint = collect_headers [] endpoint.headers

  pub check_method : Option String → Result Invalid (Unit {0})
  check_method none = ok tt
  check_method (some m) = do
    method ← or_err (h.parse_method m) bad_method
    reject_if (not (contains method methods)) unsupported_method

  unfoldable pub validate_endpoint : Endpoint → Result Invalid (Unit {0})
  unfolding header_map check_method check_retry is_unsafe_url
  validate_endpoint endpoint = do
    url ← or_err (h.parse_url endpoint.url) bad_url
    reject_if (is_unsafe_url url) unsafe_url
    _ ← header_map endpoint
    check_method endpoint.method
    check_retry endpoint.retry
