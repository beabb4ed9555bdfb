-- ===== src/Auth/Jwt/Compact.antt =====
-- agent/src/auth/jwt.rs: the compact serialization, three base64url segments joined by dots.
use Prim.Native.String.{slice}
use text.Mathlib.TextLemmas as TextLemmas
use text.Mathlib.TextPositions.{len-append, slice-append_left}
use ffmpeg_docker_playground.Base.Text.{is_blank, split}
use ffmpeg_docker_playground.Base.Text.Split.{
  ◌++ₛ◌, Lacks, join, split-Lacks, join-split, split-join,
}
use ffmpeg_docker_playground.Base.{
  ℕ, ◌+◌, ◌≤◌, ◌≡◌, refl, sym, ap, ◌∙◌, ◌≢◌, ◌↔◌, Option, none, some, List, [], ◌∷◌, String, len,
  ltb, Result, ok, ◌>>=◌, ◌>>◌, reject_if, or_err, arith, All, >>=-eq-ok, reject_if-eq-ok,
  or_err-eq-ok, ltb-false→le, le→ltb-false,
}
use ffmpeg_docker_playground.Auth.Rejection.{Rejection, token_too_large, malformed_token}
use ffmpeg_docker_playground.Auth.Jwt.Types.{max_token_bytes, Codec}

pub record Parts : Type 0 where
  pub signing_input : String
  pub header : List ℕ
  pub payload : List ℕ
  pub signature : List ℕ

-- `(Some(header), Some(payload), Some(signature), None)`, the first four calls of `next`.
abbrev three : List String → Option (String × String × String)
three (h ∷ p ∷ s ∷ []) = some (h, p, s)
three _ = none

dot-append : (s : String) → "." ++ₛ s ≡ String.◌∷◌ "." s
dot-append s =
    TextLemmas.cons-append "." "" s ∙ ap (λ t. String.◌∷◌ "." t) (TextLemmas.nil-append s)

join_three : (h p s : String) → join "." (h ∷ p ∷ s ∷ []) ≡ (h ++ₛ "." ++ₛ p) ++ₛ "." ++ₛ s
join_three h p s = rw (dot-append s, dot-append p, TextLemmas.append_assoc, TextLemmas.cons-append)

-- Cutting the token before its second dot leaves the first two segments and their dot.
slice-join :
    (h p s : String) → slice (join "." (h ∷ p ∷ s ∷ [])) 0 (len h + 1 + len p) ≡ h ++ₛ "." ++ₛ p
slice-join h p s =
    let cut : len h + 1 + len p ≡ len (h ++ₛ "." ++ₛ p) =
      omega (arith, len-append h ("." ++ₛ p), len-append "." p) in
    rw (join_three h p s, cut) (slice-append_left (h ++ₛ "." ++ₛ p) ("." ++ₛ s))

three-eq-some :
    (ps : List String) (h p s : String) → three ps ≡ some (h, p, s) → ps ≡ h ∷ p ∷ s ∷ []
three-eq-some [] h p s e = cc
three-eq-some (a ∷ []) h p s e = cc
three-eq-some (a ∷ b ∷ []) h p s e = cc
three-eq-some (a ∷ b ∷ c ∷ []) h p s e = ground arith
three-eq-some (a ∷ b ∷ c ∷ d ∷ ps) h p s e = cc

module _ (x : Codec) where
  pub segment : String → Result Rejection (List ℕ)
  segment value = do
    reject_if (is_blank value) malformed_token
    or_err (x.decode value) malformed_token

  pub decode_parts : String → String × String × String → Result Rejection Parts
  unfolding segment
  decode_parts token (header_b64, payload_b64, signature_b64) = do
    header ← segment header_b64
    payload ← segment payload_b64
    signature ← segment signature_b64
    ok (record {
      signing_input = slice token 0 (len header_b64 + 1 + len payload_b64);
      header = header;
      payload = payload;
      signature = signature;
    })

  -- The head of `verify`: the size limit, the three segments and their bytes.
  unfoldable pub parse_token : String → Result Rejection Parts
  unfolding decode_parts split
  parse_token token = do
    reject_if (ltb max_token_bytes (len token)) token_too_large
    segments ← or_err (three (split b'.' token)) malformed_token
    decode_parts token segments

  -- A non-empty segment that decodes, free of dots.
  pub record IsSegment (text : String) (bytes : List ℕ) : Type 0 where
    pub filled : text ≢ ""
    pub undotted : Lacks b'.' text
    pub decoded : x.decode text ≡ some bytes

  -- RFC 7515: header, payload and signature joined by dots; the first two are what was signed.
  pub record IsCompact (token : String) (parts : Parts) : Type 0 where
    pub header_b64 : String
    pub payload_b64 : String
    pub signature_b64 : String
    pub bounded : len token ≤ max_token_bytes
    pub joined : token ≡ parts.signing_input ++ₛ "." ++ₛ signature_b64
    pub signed : parts.signing_input ≡ header_b64 ++ₛ "." ++ₛ payload_b64
    pub header : IsSegment header_b64 parts.header
    pub payload : IsSegment payload_b64 parts.payload
    pub signature : IsSegment signature_b64 parts.signature

  segment_iff :
      (text : String) (bytes : List ℕ)
      → (segment text ≡ ok bytes) ↔ ((text ≢ "") × (x.decode text ≡ some bytes))
  unfolding segment
  segment_iff String.[] bytes = ((λ h. cc), λ (n, d). absurd (n refl))
  segment_iff (String.◌∷◌ c s) bytes =
      ((λ h. ((λ e. cc), or_err-eq-ok (x.decode (String.◌∷◌ c s)) _ h)), λ (n, d). rw d)

  module _ (token a b c : String) (joined : token ≡ join "." (a ∷ b ∷ c ∷ [])) where
    signed_part : slice token 0 (len a + 1 + len b) ≡ a ++ₛ "." ++ₛ b
    signed_part = rw joined (slice-join a b c)

    decode_parts_sound :
        (parts : Parts)
        → len token ≤ max_token_bytes
        → All (Lacks b'.') (a ∷ b ∷ c ∷ [])
        → decode_parts token (a, b, c) ≡ ok parts
        → IsCompact token parts
    unfolding decode_parts
    decode_parts_sound parts bounded lacks h =
        let (header, h1, r1) = >>=-eq-ok (segment a) _ h in
        let (payload, h2, r2) = >>=-eq-ok (segment b) _ r1 in
        let (signature, h3, r3) = >>=-eq-ok (segment c) _ r2 in
        let (n1, d1) = (segment_iff a header).0 h1 in
        let (n2, d2) = (segment_iff b payload).0 h2 in
        let (n3, d3) = (segment_iff c signature).0 h3 in
        let signed : parts.signing_input ≡ a ++ₛ "." ++ₛ b = cc signed_part in
        record {
          header_b64 = a;
          payload_b64 = b;
          signature_b64 = c;
          bounded = bounded;
          joined = rw signed (joined ∙ join_three a b c);
          signed = signed;
          header = record { filled = n1; undotted = lacks.0; decoded = cc };
          payload = record { filled = n2; undotted = lacks.1.0; decoded = cc };
          signature = record { filled = n3; undotted = lacks.1.1.0; decoded = cc };
        }

    decode_parts_complete :
        (parts : Parts)
        → parts.signing_input ≡ a ++ₛ "." ++ₛ b
        → IsSegment a parts.header
        → IsSegment b parts.payload
        → IsSegment c parts.signature
        → decode_parts token (a, b, c) ≡ ok parts
    unfolding decode_parts
    decode_parts_complete parts signed sa sb sc =
        let e1 = (segment_iff a parts.header).1 (sa.filled, sa.decoded) in
        let e2 = (segment_iff b parts.payload).1 (sb.filled, sb.decoded) in
        let e3 = (segment_iff c parts.signature).1 (sc.filled, sc.decoded) in
        rw (e1, e2, e3, signed_part) (cc)

  parse_token_sound :
      (token : String) (parts : Parts) → parse_token token ≡ ok parts → IsCompact token parts
  unfolding parse_token
  parse_token_sound token parts h =
      let (_, fits, h1) =
        >>=-eq-ok (reject_if (ltb max_token_bytes (len token)) token_too_large) _ h in
      let ((a, b, c), cut, h2) =
        >>=-eq-ok (or_err (three (split b'.' token)) malformed_token) _ h1 in
      let pieces =
        three-eq-some (split b'.' token) a b c (or_err-eq-ok (three (split b'.' token)) _ cut) in
      decode_parts_sound token a b c (sym (join-split "." token) ∙ ap (join ".") pieces) parts
        (ltb-false→le max_token_bytes (len token) (reject_if-eq-ok _ _ fits))
        (rw pieces at (split-Lacks b'.' token)) h2

  parse_token_complete :
      (token : String) (parts : Parts) → IsCompact token parts → parse_token token ≡ ok parts
  unfolding parse_token
  parse_token_complete token parts k =
      let joined : token ≡ join "." (k.header_b64 ∷ k.payload_b64 ∷ k.signature_b64 ∷ []) =
        k.joined
        ∙ ap (λ t. t ++ₛ "." ++ₛ k.signature_b64) k.signed
        ∙ sym (join_three k.header_b64 k.payload_b64 k.signature_b64) in
      let pieces : split b'.' token ≡ k.header_b64 ∷ k.payload_b64 ∷ k.signature_b64 ∷ [] =
        ap (split b'.') joined
        ∙ split-join "." k.header_b64 (k.payload_b64 ∷ k.signature_b64 ∷ [])
            (k.header.undotted, (k.payload.undotted, (k.signature.undotted, tt))) in
      let fits = le→ltb-false max_token_bytes (len token) k.bounded in
      rw (fits, pieces)
        (decode_parts_complete token k.header_b64 k.payload_b64 k.signature_b64 joined parts
          k.signed k.header k.payload k.signature)

  -- A token is taken apart exactly when it is three non-empty decodable segments joined by dots,
  -- within the size limit, and the signed text is the first two with their dot.
  pub parse_token_iff :
      (token : String) (parts : Parts) → (parse_token token ≡ ok parts) ↔ IsCompact token parts
  parse_token_iff token parts = (parse_token_sound token parts, parse_token_complete token parts)
