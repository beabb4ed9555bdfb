-- ===== src/Auth/Jwks/Parse/Laws.antt =====
-- Which key files are accepted, and which keys they give.
use ffmpeg_docker_playground.Base.Text.{is_blank, has_control}
use ffmpeg_docker_playground.Base.{
  ℕ, ◌≡◌, refl, ◌≢◌, ◌↔◌, true, false, not, Option, none, some, List, ◌∷◌, ◌++◌, String, eq_iff,
  length, ok, reject_if, arith, >>=-eq-ok, reject_if-eq-ok, or_err-eq-ok,
}
use ffmpeg_docker_playground.Auth.Jwks.Types.{Jwk, KeyCodec, bad_point}
use ffmpeg_docker_playground.Auth.Jwks.Parse.{
  declares_other, exactly_32, coordinate, valid_point, check_members, check_point,
}

-- A member that is present must agree.
abbrev pub Agrees : Option String → String → Type 0
Agrees none wanted = Unit
Agrees (some t) wanted = t ≡ wanted

pub record IsPublic (jwk : Jwk) : Type 0 where
  pub no_secret : jwk.has_d ≡ false
  pub named : jwk.kid ≢ ""
  pub printable : has_control jwk.kid ≡ false
  pub ec : jwk.kty ≡ "EC"
  pub p256 : jwk.crv ≡ "P-256"
  pub alg : Agrees jwk.alg "ES256"
  pub use_ : Agrees jwk.use_ "sig"

declares_other-Agrees : (o : Option String) (w : String) → (declares_other o w ≡ false) ↔ Agrees o w
declares_other-Agrees none w = (λ _. tt, λ _. refl)
declares_other-Agrees (some t) w =
    ((λ h. ground (arith, eq_iff t w)), λ h. ground (arith, eq_iff t w))

is_blank_iff : (s : String) → (is_blank s ≡ false) ↔ (s ≢ "")
is_blank_iff String.[] = ((λ h. cc), λ n. absurd (n refl))
is_blank_iff (String.◌∷◌ c s) = ((λ h e. cc), λ n. refl)

module _ (x : KeyCodec) where
  pub check_members_iff : (jwk : Jwk) → (check_members x jwk ≡ ok tt) ↔ IsPublic jwk
  unfolding check_members
  check_members_iff jwk = (
    λ h. record {
      no_secret = ground arith;
      named = (is_blank_iff jwk.kid).0 (ground arith);
      printable = ground arith;
      ec = ground (arith, eq_iff jwk.kty "EC");
      p256 = ground (arith, eq_iff jwk.crv "P-256");
      alg = (declares_other-Agrees jwk.alg "ES256").0 (ground arith);
      use_ = (declares_other-Agrees jwk.use_ "sig").0 (ground arith);
    },
    λ p. ground (
      arith,
      (is_blank_iff jwk.kid).1 p.named,
      eq_iff jwk.kty "EC",
      eq_iff jwk.crv "P-256",
      (declares_other-Agrees jwk.alg "ES256").1 p.alg,
      (declares_other-Agrees jwk.use_ "sig").1 p.use_,
    ),
  )

  -- An uncompressed SEC1 point of two 32-byte coordinates that ring confirms.
  pub record IsPoint (jwk : Jwk) (sec1 : List ℕ) : Type 0 where
    pub cx : List ℕ
    pub cy : List ℕ
    pub decoded_x : x.decode jwk.x ≡ some cx
    pub decoded_y : x.decode jwk.y ≡ some cy
    pub wide_x : length cx ≡ 32
    pub wide_y : length cy ≡ 32
    pub uncompressed : sec1 ≡ 4 ∷ cx ++ cy
    pub on_curve : valid_point x sec1 ≡ true

  exactly_32_iff :
      (o : Option (List ℕ)) (b : List ℕ)
      → (exactly_32 o ≡ some b) ↔ ((o ≡ some b) × (length b ≡ 32))
  exactly_32_iff none b = ((λ h. cc), λ h. cc)
  exactly_32_iff (some a) b = ((λ h. (ground arith, ground arith)), λ h. ground arith)

  pub check_point_iff :
      (jwk : Jwk) (sec1 : List ℕ) → (check_point x jwk ≡ ok sec1) ↔ IsPoint jwk sec1
  unfolding check_point coordinate
  check_point_iff jwk sec1 = (sound, complete)
    where
      sound : check_point x jwk ≡ ok sec1 → IsPoint jwk sec1
      sound h =
          let (cx, e1, h1) = >>=-eq-ok (coordinate x jwk.x) _ h in
          let (cy, e2, h2) = >>=-eq-ok (coordinate x jwk.y) _ h1 in
          let good = valid_point x (4 ∷ cx ++ cy) in
          let (_, e3, h3) = >>=-eq-ok (reject_if (not good) (bad_point jwk.kid)) _ h2 in
          let (dx, wx) =
            (exactly_32_iff (x.decode jwk.x) cx).0
              (or_err-eq-ok (exactly_32 (x.decode jwk.x)) _ e1) in
          let (dy, wy) =
            (exactly_32_iff (x.decode jwk.y) cy).0
              (or_err-eq-ok (exactly_32 (x.decode jwk.y)) _ e2) in
          let built : sec1 ≡ 4 ∷ cx ++ cy = cc in
          record {
            cx = cx;
            cy = cy;
            decoded_x = dx;
            decoded_y = dy;
            wide_x = wx;
            wide_y = wy;
            uncompressed = built;
            on_curve = rw built (ground (arith, reject_if-eq-ok (not good) (bad_point jwk.kid) e3));
          }

      complete : IsPoint jwk sec1 → check_point x jwk ≡ ok sec1
      complete p =
          let e1 = (exactly_32_iff (x.decode jwk.x) p.cx).1 (p.decoded_x, p.wide_x) in
          let e2 = (exactly_32_iff (x.decode jwk.y) p.cy).1 (p.decoded_y, p.wide_y) in
          let e3 : valid_point x (4 ∷ p.cx ++ p.cy) ≡ true = rw p.uncompressed at p.on_curve in
          rw (e1, e2, e3) (cc p.uncompressed)
