-- ===== src/Auth/Jwks/Parse/Unique.antt =====
-- A key file is accepted whole: each entry gives its key, in order, and no id stands twice.
use ffmpeg_docker_playground.Base.{
  ℕ, ◌≤◌, ◌≡◌, sym, ap, ◌∙◌, ◌↔◌, inl, inr, false, some, List, [], ◌∷◌, ◌++◌, map, append-nil,
  append_assoc, Memᴰ, String, ltb, ltb-false→le, le→ltb-false, length, contains, contains_iff, ok,
  reject_if, or_err, arith, >>=-eq-ok, reject_if-eq-ok, or_err-eq-ok, subst, Bool-cases,
}
use ffmpeg_docker_playground.Auth.Jwt.Types.{VerifyingKey}
use ffmpeg_docker_playground.Auth.Jwks.Types.{
  max_keys, Jwk, KeyCodec, not_jwks, too_many_keys, duplicate_kid,
}
use ffmpeg_docker_playground.Auth.Jwks.Parse.{
  check_members, check_point, check_jwk, parse_keys, parse,
}
use ffmpeg_docker_playground.Auth.Jwks.Parse.Laws.{
  IsPublic, IsPoint, check_members_iff, check_point_iff,
}

-- No entry stands in the list twice, nor in the other list.
abbrev pub Fresh : List String → List String → Type 0
Fresh seen [] = Unit
Fresh seen (k ∷ ks) = (¬ Memᴰ k seen) × Fresh (k ∷ seen) ks

abbrev pub kids : List Jwk → List String
kids = map λ j. j.kid

module _ (x : KeyCodec) where
  pub record IsKeyOf (jwk : Jwk) (key : VerifyingKey) : Type 0 where
    pub public : IsPublic jwk
    pub point : IsPoint x jwk key.sec1
    pub same_kid : key.kid ≡ jwk.kid

  -- The keys are those of the entries, one for one and in order.
  abbrev pub AreKeysOf : List Jwk → List VerifyingKey → Type 0
  AreKeysOf [] [] = Unit
  AreKeysOf [] (k ∷ ks) = ⊥
  AreKeysOf (j ∷ js) [] = ⊥
  AreKeysOf (j ∷ js) (k ∷ ks) = IsKeyOf j k × AreKeysOf js ks

  contains-eq-false_iff :
      (k : String) (seen : List String) → (contains k seen ≡ false) ↔ (¬ Memᴰ k seen)
  contains-eq-false_iff k seen = (
    (λ h m. ground (arith, (contains_iff k seen).1 m)),
    λ n. elim (Bool-cases (contains k seen)) [
      | inl e ↦ absurd (n ((contains_iff k seen).0 e))
      | inr e ↦ e
    ],
  )

  check_jwk_iff :
      (seen : List String) (jwk : Jwk) (key : VerifyingKey)
      → (check_jwk x seen jwk ≡ ok key) ↔ (IsKeyOf jwk key × (¬ Memᴰ jwk.kid seen))
  unfolding check_jwk
  check_jwk_iff seen jwk key = (sound, complete)
    where
      sound : check_jwk x seen jwk ≡ ok key → IsKeyOf jwk key × (¬ Memᴰ jwk.kid seen)
      sound h =
          let (_, e1, h1) = >>=-eq-ok (check_members x jwk) _ h in
          let (sec1, e2, h2) = >>=-eq-ok (check_point x jwk) _ h1 in
          let (_, e3, h3) =
            >>=-eq-ok (reject_if (contains jwk.kid seen) (duplicate_kid jwk.kid)) _ h2 in
          let same : sec1 ≡ key.sec1 = ground arith in
          (
            record {
              public = (check_members_iff x jwk).0 e1;
              point = subst (IsPoint x jwk) same ((check_point_iff x jwk sec1).0 e2);
              same_kid = ground arith;
            },
            (contains-eq-false_iff jwk.kid seen).0 (reject_if-eq-ok _ _ e3),
          )

      complete : IsKeyOf jwk key × (¬ Memᴰ jwk.kid seen) → check_jwk x seen jwk ≡ ok key
      complete (k, new) =
          let e1 = (check_members_iff x jwk).1 k.public in
          let e2 = (check_point_iff x jwk key.sec1).1 k.point in
          let e3 = (contains-eq-false_iff jwk.kid seen).1 new in rw (e1, e2, e3) (cc k.same_kid)

  parse_keys_sound :
      (seen : List String) (acc : List VerifyingKey) (js : List Jwk) (ks : List VerifyingKey)
      → parse_keys x seen acc js ≡ ok ks
      → (new : List VerifyingKey) × (ks ≡ acc ++ new) × AreKeysOf js new × Fresh seen (kids js)
  unfolding parse_keys
  parse_keys_sound seen acc [] ks h = ([], ground (arith, append-nil acc), tt, tt)
  parse_keys_sound seen acc (j ∷ js) ks h =
      let (k, e1, h1) = >>=-eq-ok (check_jwk x seen j) _ h in
      let (is_key, new_kid) = (check_jwk_iff seen j k).0 e1 in
      let (new, whole, are_keys, fresh) =
        parse_keys_sound (j.kid ∷ seen) (acc ++ k ∷ []) js ks h1 in
      (k ∷ new, whole ∙ append_assoc acc (k ∷ []) new, (is_key, are_keys), (new_kid, fresh))

  parse_keys_complete :
      (seen : List String) (acc : List VerifyingKey) (js : List Jwk) (new : List VerifyingKey)
      → AreKeysOf js new
      → Fresh seen (kids js)
      → parse_keys x seen acc js ≡ ok (acc ++ new)
  unfolding parse_keys
  parse_keys_complete seen acc [] [] a f = rw (append-nil acc)
  parse_keys_complete seen acc [] (k ∷ ks) a f = absurd a
  parse_keys_complete seen acc (j ∷ js) [] a f = absurd a
  parse_keys_complete seen acc (j ∷ js) (k ∷ ks) a f =
      let e1 = (check_jwk_iff seen j k).1 (a.0, f.0) in
      rw e1 (
        parse_keys_complete (j.kid ∷ seen) (acc ++ k ∷ []) js ks a.1 f.1
        ∙ ap ok (append_assoc acc (k ∷ []) ks))

  -- A document of at most 64 public P-256 keys with ids of their own, and the keys it gives.
  pub record IsKeySet (bytes : List ℕ) (keys : List VerifyingKey) : Type 0 where
    pub document : List Jwk
    pub is_document : x.document_of bytes ≡ some document
    pub bounded : length document ≤ max_keys
    pub are_keys : AreKeysOf document keys
    pub unique : Fresh [] (kids document)

  parse_sound :
      (bytes : List ℕ) (keys : List VerifyingKey) → parse x bytes ≡ ok keys → IsKeySet bytes keys
  unfolding parse
  parse_sound bytes keys h =
      let (document, e1, h1) = >>=-eq-ok (or_err (x.document_of bytes) not_jwks) _ h in
      let (_, e2, h2) = >>=-eq-ok (reject_if (ltb max_keys (length document)) too_many_keys) _ h1 in
      let (new, whole, are_keys, fresh) = parse_keys_sound [] [] document keys h2 in
      record {
        document = document;
        is_document = or_err-eq-ok (x.document_of bytes) _ e1;
        bounded = ltb-false→le max_keys (length document) (reject_if-eq-ok _ _ e2);
        are_keys = subst (AreKeysOf document) (sym whole) are_keys;
        unique = fresh;
      }

  parse_complete :
      (bytes : List ℕ) (keys : List VerifyingKey) → IsKeySet bytes keys → parse x bytes ≡ ok keys
  unfolding parse
  parse_complete bytes keys s =
      let fits = le→ltb-false max_keys (length s.document) s.bounded in
      rw (s.is_document, fits) (parse_keys_complete [] [] s.document keys s.are_keys s.unique)

  -- A key file is accepted exactly when it is a whole set of at most 64 sound public P-256 keys
  -- without a repeated id, and it then gives one key for each entry, in order.
  pub parse_iff :
      (bytes : List ℕ) (keys : List VerifyingKey) → (parse x bytes ≡ ok keys) ↔ IsKeySet bytes keys
  parse_iff bytes keys = (parse_sound bytes keys, parse_complete bytes keys)
