-- ===== src/Auth/Bearer/Tests.antt =====
-- The cases of `extracts_exactly_one_bearer_credential` in the tests of agent/src/auth/mod.rs, but
-- for the token that is too large.
use ffmpeg_docker_playground.Base.Text.{bytes, split_once, eq_ignore_ascii_case}
use ffmpeg_docker_playground.Base.{
  ℕ, ◌≡◌, refl, Bool, true, false, ◌&&◌, Option, none, some, List, [], ◌∷◌, map, String, nat_eq,
  Result, ok, err, if◌then◌else◌,
}
use ffmpeg_docker_playground.Auth.Rejection.{
  Rejection, missing_credential, duplicate_credential, malformed_authorization, malformed_token,
}
use ffmpeg_docker_playground.Auth.Bearer.{bearer}

abbrev malformed : List String
malformed = "Basic YTpi" ∷ "Bearer" ∷ "Bearer " ∷ "Token a.b.c" ∷ []

abbrev no_token : List String
no_token = "Bearer  a.b.c" ∷ "Bearer a.b.c x" ∷ "Bearer a+b.c" ∷ "Bearer a.b.c=" ∷ []

same_bytes : List ℕ → List ℕ → Bool
same_bytes [] [] = true
same_bytes [] (b ∷ bs) = false
same_bytes (a ∷ more) [] = false
same_bytes (a ∷ more) (b ∷ bs) = nat_eq a b && same_bytes more bs

-- The value is one of these texts.
text_among : List String → List ℕ → Option String
unfolding same_bytes
text_among [] value = none
text_among (s ∷ texts) value = if same_bytes (bytes s) value then some s else text_among texts value

abbrev of_one : String → Result Rejection String
of_one value = bearer (text_among (value ∷ [])) (bytes value ∷ [])

takes_one : of_one "Bearer a.b.c" ≡ ok "a.b.c"
unfolding bearer bytes split_once eq_ignore_ascii_case text_among
takes_one = refl

takes_any_case : of_one "bearer a.b.c" ≡ ok "a.b.c"
unfolding bearer bytes split_once eq_ignore_ascii_case text_among
takes_any_case = refl

wants_one : bearer (text_among []) [] ≡ err missing_credential
unfolding bearer
wants_one = refl

wants_no_more :
    bearer (text_among []) (bytes "Bearer a.b.c" ∷ bytes "Bearer a.b.c" ∷ [])
    ≡ err duplicate_credential
unfolding bearer
wants_no_more = refl

refuses_malformed :
    map of_one malformed
    ≡ err malformed_authorization
      ∷ err malformed_authorization
      ∷ err malformed_authorization
      ∷ err malformed_authorization
      ∷ []
unfolding bearer bytes split_once eq_ignore_ascii_case text_among
refuses_malformed = refl

-- A tab in place of the space, and a byte that is no text.
refuses_tab :
    bearer (text_among ("Bearer\ta.b.c" ∷ [])) (bytes "Bearer\ta.b.c" ∷ [])
    ≡ err malformed_authorization
unfolding bearer bytes split_once text_among
refuses_tab = refl

refuses_other_bytes :
    bearer (text_among []) ((66 ∷ 101 ∷ 97 ∷ 114 ∷ 101 ∷ 114 ∷ 32 ∷ 255 ∷ []) ∷ [])
    ≡ err malformed_authorization
unfolding bearer text_among
refuses_other_bytes = refl

refuses_no_token :
    map of_one no_token
    ≡ err malformed_token ∷ err malformed_token ∷ err malformed_token ∷ err malformed_token ∷ []
unfolding bearer bytes split_once eq_ignore_ascii_case text_among
refuses_no_token = refl
