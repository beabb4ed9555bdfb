-- ===== src/Auth/Configure/Laws.antt =====
-- The agent fails closed: what it takes to run without authentication, and what it has with it.
use ffmpeg_docker_playground.Base.{
  ℕ, ◌≤◌, ◌≡◌, refl, ap, ◌∙◌, ◌↔◌, ◌⊎◌, subst, true, Option, none, some, String, ◌==◌, eq_iff,
  is_empty, All, ok, reject_if, or_err, map_err, arith, >>=-eq-ok, reject_if-eq-ok, or_err-eq-ok,
  inl, inr, Bool-cases, false, ◌≢◌, List, [], ◌∷◌, map, any, Bool, sym,
}
use ffmpeg_docker_playground.Base.Text.{trim, has_control, split, is_blank, parse_u64}
use ffmpeg_docker_playground.Base.Text.Split.{Lacks, join, join-split, split-Lacks, split-nonempty}
use ffmpeg_docker_playground.Auth.Jwt.Types.{default_max_lifetime_secs}
use ffmpeg_docker_playground.Auth.Jwks.Types.{KeyCodec}
use ffmpeg_docker_playground.Auth.Jwks.Store.{Disk, open_store}
use ffmpeg_docker_playground.Auth.Access.{JwtVerifier, Authenticator, jwt, insecure_no_auth}
use ffmpeg_docker_playground.Auth.Configure.{
  jwks_file, hng_jwks, max_lifetime, jwt_settings, insecure, retired_token_file, max_lifetime_limit,
  within_limit, OsString, utf8, retired, no_audience, bad_keys, audience_name, issuer_name,
  typ_name, subjects_name, subjects_of, is_set, read_text, either_file, lifetime_of, set_names,
  configure, choose, from_lookup,
}
use ffmpeg_docker_playground.Auth.Configure.Settings.{
  is_set-eq-false, read_text-eq-none, read_text-eq-some, set_names-empty, set_names-none,
  lifetime_of-bounded, ok_unique, map_err-eq-ok, HasFile, either_file-HasFile,
}

-- An optional setting: not set and absent, or the text as it stands.
abbrev pub IsText : Option OsString → Option String → Type 0
IsText o v = ((o ≡ none) × (v ≡ none)) ⊎ ((t : String) × (o ≡ some (utf8 t)) × (v ≡ some t))

read_text-IsText :
    (name : String) (o : Option OsString) (v : Option String) → read_text name o ≡ ok v → IsText o v
read_text-IsText name o none h = inl (read_text-eq-none name o h, refl)
read_text-IsText name o (some t) h = inr (t, read_text-eq-some name o t h, refl)

-- The default, or the number in the text.
abbrev pub IsLifetime : Option OsString → ℕ → Type 0
IsLifetime o secs =
    ((o ≡ none) × (secs ≡ default_max_lifetime_secs))
    ⊎ ((t : String) × (o ≡ some (utf8 t)) × (parse_u64 t ≡ some secs))

lifetime_of-IsLifetime :
    (o : Option OsString) (v : Option String) (secs : ℕ)
    → read_text max_lifetime o ≡ ok v
    → lifetime_of v ≡ ok secs
    → IsLifetime o secs
unfolding lifetime_of
lifetime_of-IsLifetime o none secs h e = inl (read_text-eq-none max_lifetime o h, ground arith)
lifetime_of-IsLifetime o (some t) secs h e = inr (
  t,
  read_text-eq-some max_lifetime o t h,
  within_limit-eq-some (parse_u64 t) (or_err-eq-ok (within_limit (parse_u64 t)) _ e),
)
  where
    within_limit-eq-some : (n : Option ℕ) → within_limit n ≡ some secs → n ≡ some secs
    within_limit-eq-some none h = cc
    within_limit-eq-some (some n) h = ground arith

-- No allow-list, or a list of pieces without commas, none blank, that the text joins by commas; the
-- subjects are the pieces without the blanks around them.
abbrev pub AreSubjects : Option OsString → Option (List String) → Type 0
AreSubjects o v =
    ((o ≡ none) × (v ≡ none))
    ⊎ ((pieces : List String) × (o ≡ some (utf8 (join "," pieces)))
        × (pieces ≢ [])
        × All (Lacks b',') pieces
        × (v ≡ some (map trim pieces))
        × All (λ p. is_blank p ≡ false) (map trim pieces))

any-eq-false {ℓ} :
    {A : Type ℓ} (f : A → Bool) (xs : List A) → any f xs ≡ false → All (λ y. f y ≡ false) xs
any-eq-false f [] h = tt
any-eq-false f (x ∷ xs) h = (ground arith, any-eq-false f xs (ground arith))

subjects_of-AreSubjects :
    (o : Option OsString) (v : Option String) (subjects : Option (List String))
    → read_text subjects_name o ≡ ok v
    → subjects_of v ≡ ok subjects
    → AreSubjects o subjects
unfolding subjects_of
subjects_of-AreSubjects o none subjects h e =
    inl (read_text-eq-none subjects_name o h, ground arith)
subjects_of-AreSubjects o (some t) subjects h e =
    elim (Bool-cases (any is_blank (map trim (split b',' t)))) [
      | inl bad ↦ absurd (ground (arith, bad))
      | inr good ↦
          let same : some (map trim (split b',' t)) ≡ subjects = ground (arith, good) in
          inr (
            split b',' t,
            read_text-eq-some subjects_name o t h
                ∙ ap (λ s. some (utf8 s)) (sym (join-split "," t)),
            split-nonempty b',' t,
            split-Lacks b',' t,
            sym same,
            any-eq-false is_blank (map trim (split b',' t)) good,
          )
    ]

module _ (k : KeyCodec) (get : String → Option OsString) (instant : ℕ)
    (disk_of : String → Disk) where
  -- The environment of an agent without authentication: the flag, and nothing else about it.
  pub record IsDisabled : Type 0 where
    pub not_retired : get retired_token_file ≡ none
    pub no_file : get jwks_file ≡ none
    pub no_other_file : get hng_jwks ≡ none
    pub flag : get insecure ≡ some (utf8 "1")
    pub no_setting : All (λ n. get n ≡ none) jwt_settings

  -- The environment of an agent with authentication: one key file that can be opened, with keys,
  -- an audience, a bounded lifetime, and no flag against it.
  pub record IsConfigured (v : JwtVerifier) : Type 0 where
    pub path : String
    pub not_retired : get retired_token_file ≡ none
    pub file : (get jwks_file ≡ some (utf8 path)) ⊎ (get hng_jwks ≡ some (utf8 path))
    pub no_flag : get insecure ≡ none
    pub audience : get audience_name ≡ some (utf8 v.policy.audience)
    pub issuer : IsText (get issuer_name) v.policy.issuer
    pub typ : IsText (get typ_name) v.policy.typ
    pub subjects : AreSubjects (get subjects_name) v.policy.subjects
    pub lifetime : IsLifetime (get max_lifetime) v.policy.max_lifetime_secs
    pub lasting : 1 ≤ v.policy.max_lifetime_secs
    pub limited : v.policy.max_lifetime_secs ≤ max_lifetime_limit
    pub opened : open_store k instant (disk_of path) ≡ ok v.keys

  abbrev pub Explains : Authenticator → Type 0
  Explains insecure_no_auth = IsDisabled
  Explains (jwt v) = IsConfigured v

  configure_sound :
      (path : String) (a : Authenticator)
      → get retired_token_file ≡ none
      → (get jwks_file ≡ some (utf8 path)) ⊎ (get hng_jwks ≡ some (utf8 path))
      → get insecure ≡ none
      → configure k get instant disk_of path ≡ ok a
      → Explains a
  unfolding configure
  configure_sound path a not_retired file no_flag h =
      let (given, e1, h1) = >>=-eq-ok (read_text audience_name (get audience_name)) _ h in
      let (audience, e2, h2) = >>=-eq-ok (or_err given no_audience) _ h1 in
      let (lifetime, e3, h3) = >>=-eq-ok (read_text max_lifetime (get max_lifetime)) _ h2 in
      let (secs, e4, h4) = >>=-eq-ok (lifetime_of lifetime) _ h3 in
      let (list, e5, h5) = >>=-eq-ok (read_text subjects_name (get subjects_name)) _ h4 in
      let (subjects, e6, h6) = >>=-eq-ok (subjects_of list) _ h5 in
      let (issuer, e7, h7) = >>=-eq-ok (read_text issuer_name (get issuer_name)) _ h6 in
      let (typ, e8, h8) = >>=-eq-ok (read_text typ_name (get typ_name)) _ h7 in
      let (keys, e9, h9) =
        >>=-eq-ok (map_err bad_keys (open_store k instant (disk_of path))) _ h8 in
      subst Explains (ok_unique refl h9) (record {
        path = path;
        not_retired = not_retired;
        file = file;
        no_flag = no_flag;
        audience =
            read_text-eq-some audience_name (get audience_name) audience
              (e1 ∙ ap ok (or_err-eq-ok given _ e2));
        issuer = read_text-IsText issuer_name (get issuer_name) issuer e7;
        typ = read_text-IsText typ_name (get typ_name) typ e8;
        subjects = subjects_of-AreSubjects (get subjects_name) list subjects e5 e6;
        lifetime = lifetime_of-IsLifetime (get max_lifetime) lifetime secs e3 e4;
        lasting = (lifetime_of-bounded lifetime secs e4).0;
        limited = (lifetime_of-bounded lifetime secs e4).1;
        opened = map_err-eq-ok bad_keys (open_store k instant (disk_of path)) e9;
      })

  choose_sound :
      (jwks flag : Option String) (a : Authenticator)
      → get retired_token_file ≡ none
      → HasFile get jwks
      → read_text insecure (get insecure) ≡ ok flag
      → choose k get instant disk_of jwks flag ≡ ok a
      → Explains a
  unfolding choose
  choose_sound (some path) (some flag) a r f i h = cc
  choose_sound (some path) none a r f i h =
      configure_sound path a r f (read_text-eq-none insecure (get insecure) i) h
  choose_sound none none a r f i h = elim (Bool-cases (is_empty (set_names get jwt_settings))) [
    | inl e ↦ absurd (ground (arith, e))
    | inr e ↦ absurd (ground (arith, e))
  ]
  choose_sound none (some flag) a r f i h =
      let one : flag == "1" ≡ true = ground arith in
      let unset : is_empty (set_names get jwt_settings) ≡ true = ground arith in
      let same : insecure_no_auth ≡ a = ground arith in
      subst Explains same (record {
        not_retired = r;
        no_file = f.0;
        no_other_file = f.1;
        flag =
            read_text-eq-some insecure (get insecure) flag i
            ∙ ap (λ t. some (utf8 t)) ((eq_iff flag "1").0 one);
        no_setting = set_names-empty get jwt_settings unset;
      })

  -- An authenticator that the environment asks for is a verifier with the audience, issuer and
  -- type that are given as text, the last two only if they are; with the lifetime that is given,
  -- or 300 seconds, and between 1 and 86400; with no list of subjects if none is given, and
  -- otherwise the trimmed pieces, none of them blank, of a text that joins them by commas; and
  -- with the keys of the key file named; or it does without by the flag and by nothing else.
  pub from_lookup_sound :
      (a : Authenticator) → from_lookup k get instant disk_of ≡ ok a → Explains a
  unfolding from_lookup
  from_lookup_sound a h =
      let (_, e1, h1) = >>=-eq-ok (reject_if (is_set (get retired_token_file)) retired) _ h in
      let (first, e2, h2) = >>=-eq-ok (read_text jwks_file (get jwks_file)) _ h1 in
      let (second, e3, h3) = >>=-eq-ok (read_text hng_jwks (get hng_jwks)) _ h2 in
      let (jwks, e4, h4) = >>=-eq-ok (either_file first second) _ h3 in
      let (flag, e5, h5) = >>=-eq-ok (read_text insecure (get insecure)) _ h4 in
      choose_sound jwks flag a (is_set-eq-false (get retired_token_file) (reject_if-eq-ok _ _ e1))
        (either_file-HasFile get first second jwks e2 e3 e4) e5 h5

  disabled_complete : IsDisabled → from_lookup k get instant disk_of ≡ ok insecure_no_auth
  unfolding from_lookup choose read_text either_file trim has_control
  disabled_complete d =
      let unset = set_names-none get jwt_settings d.no_setting in
      rw (d.not_retired, d.no_file, d.no_other_file, d.flag) (rw unset refl)

  -- Authentication is off exactly if the flag is 1 and no key file, JWT setting or retired
  -- setting is present.
  pub disabled_iff : (from_lookup k get instant disk_of ≡ ok insecure_no_auth) ↔ IsDisabled
  disabled_iff = (from_lookup_sound insecure_no_auth, disabled_complete)
