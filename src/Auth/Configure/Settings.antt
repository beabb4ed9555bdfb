-- ===== src/Auth/Configure/Settings.antt =====
-- What one setting of the environment says.
use ffmpeg_docker_playground.Base.{
  ℕ, ◌≤◌, ◌≡◌, refl, ap, ◌∙◌, ◌⊎◌, true, false, Option, none, some, List, [], ◌∷◌, String, is_empty,
  All, Result, ok, err, map_err, arith, or_err-eq-ok, inl, inr, Bool-cases,
}
use ffmpeg_docker_playground.Base.Text.{parse_u64}
use ffmpeg_docker_playground.Auth.Access.{Authenticator}
use ffmpeg_docker_playground.Auth.Configure.{
  jwks_file, hng_jwks, max_lifetime_limit, OsString, utf8, ConfigError, is_set, read_text,
  either_file, within_limit, lifetime_of, set_names,
}

pub is_set-eq-false : (o : Option OsString) → is_set o ≡ false → o ≡ none
is_set-eq-false none h = refl
is_set-eq-false (some v) h = cc

pub read_text-eq-none :
    (name : String) (o : Option OsString) → read_text name o ≡ ok none → o ≡ none
unfolding read_text
read_text-eq-none name none h = refl
read_text-eq-none name (some OsString.other) h = cc
read_text-eq-none name (some (utf8 v)) h = ground arith

pub read_text-eq-some :
    (name : String) (o : Option OsString) (s : String)
    → read_text name o ≡ ok (some s)
    → o ≡ some (utf8 s)
unfolding read_text
read_text-eq-some name none s h = cc
read_text-eq-some name (some OsString.other) s h = cc
read_text-eq-some name (some (utf8 v)) s h = ground arith

pub set_names-empty :
    (get : String → Option OsString) (ns : List String)
    → is_empty (set_names get ns) ≡ true
    → All (λ n. get n ≡ none) ns
unfolding set_names
set_names-empty get [] h = tt
set_names-empty get (n ∷ ns) h = elim (Bool-cases (is_set (get n))) [
  | inl e ↦ absurd (ground (arith, e))
  | inr e ↦ (is_set-eq-false (get n) e, set_names-empty get ns (ground (arith, e)))
]

pub set_names-none :
    (get : String → Option OsString) (ns : List String)
    → All (λ n. get n ≡ none) ns
    → set_names get ns ≡ []
unfolding set_names
set_names-none get [] h = refl
set_names-none get (n ∷ ns) (e, es) = rw (e, set_names-none get ns es)

pub lifetime_of-bounded :
    (o : Option String) (secs : ℕ)
    → lifetime_of o ≡ ok secs
    → (1 ≤ secs) × (secs ≤ max_lifetime_limit)
unfolding lifetime_of
lifetime_of-bounded none secs h = ground arith
lifetime_of-bounded (some v) secs h =
    within_limit-bounded (parse_u64 v) (or_err-eq-ok (within_limit (parse_u64 v)) _ h)
  where
    within_limit-bounded :
        (o : Option ℕ) → within_limit o ≡ some secs → (1 ≤ secs) × (secs ≤ max_lifetime_limit)
    within_limit-bounded none e = cc
    within_limit-bounded (some n) e = ground arith

pub ok_unique :
    {a b : Authenticator} {r : Result ConfigError Authenticator} → r ≡ ok a → r ≡ ok b → a ≡ b
ok_unique h k = cc

pub map_err-eq-ok {ℓ ι κ} :
    {E : Type ℓ} {F : Type ι} {A : Type κ} (f : E → F) (r : Result E A) {a : A}
    → map_err f r ≡ ok a
    → r ≡ ok a
map_err-eq-ok f (ok b) h = cc
map_err-eq-ok f (err e) h = cc

-- Which of the two names gave the path.
abbrev pub HasFile : (String → Option OsString) → Option String → Type 0
HasFile get none = (get jwks_file ≡ none) × (get hng_jwks ≡ none)
HasFile get (some path) = (get jwks_file ≡ some (utf8 path)) ⊎ (get hng_jwks ≡ some (utf8 path))

pub either_file-HasFile :
    (get : String → Option OsString) (a b o : Option String)
    → read_text jwks_file (get jwks_file) ≡ ok a
    → read_text hng_jwks (get hng_jwks) ≡ ok b
    → either_file a b ≡ ok o
    → HasFile get o
unfolding either_file
either_file-HasFile get none none none h k e =
    (read_text-eq-none jwks_file (get jwks_file) h, read_text-eq-none hng_jwks (get hng_jwks) k)
either_file-HasFile get none (some b) none h k e = cc
either_file-HasFile get none b (some p) h k e =
    inr (read_text-eq-some hng_jwks (get hng_jwks) p (k ∙ e))
either_file-HasFile get (some a) none none h k e = cc
either_file-HasFile get (some a) none (some p) h k e =
    inl (read_text-eq-some jwks_file (get jwks_file) p (h ∙ e))
either_file-HasFile get (some a) (some b) none h k e = absurd (ground arith)
either_file-HasFile get (some a) (some b) (some p) h k e =
    let same : a ≡ p = ground arith in
    inl (read_text-eq-some jwks_file (get jwks_file) p (h ∙ ap (λ t. ok (some t)) same))
