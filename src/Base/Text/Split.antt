-- ===== src/Base/Text/Split.antt =====
-- `str::split` at a character: the pieces hold no separator, and joining them gives the text back.
use Prim.Native.Char.{Char, code}
use Prim.Native.Nat.{ℕ}
use Prim.Native.String
use Prim.Native.String.{String}
use mathlib.Core.Path.{◌≡◌, refl, sym, ap, ◌∙◌}
use mathlib.Core.Logic.{◌≢◌, ◌↔◌, inl, inr}
use mathlib.Core.Option.{Option, none, some}
use mathlib.Core.List.{List, [], ◌∷◌}
use native.Mathlib.Omega.{arith}
use text.Mathlib.TextEquality.{Char-path}
use text.Mathlib.TextLemmas.{nil-append, cons-append}
use ffmpeg_docker_playground.Base.Tests.{nat_eq, nat_eq_iff, Bool-cases}
use ffmpeg_docker_playground.Base.Lists.{All}
use ffmpeg_docker_playground.Base.Text.{split, extend_head, split_once, extend_left}

infixr 65 ◌++ₛ◌
abbrev pub ◌++ₛ◌ : String → String → String
s ++ₛ t = String.◌++◌ s t

-- No character of the text is the separator.
abbrev pub Lacks : ℕ → String → Type 0
Lacks sep String.[] = Unit
Lacks sep (String.◌∷◌ c s) = (code c ≢ sep) × Lacks sep s

abbrev pub join : Char → List String → String
join d [] = String.[]
join d (p ∷ []) = p
join d (p ∷ q ∷ ps) = p ++ₛ String.◌∷◌ d (join d (q ∷ ps))

split_some : (sep : ℕ) (s : String) → (p : String) × (ps : List String) × (split sep s ≡ p ∷ ps)
unfolding split
split_some sep String.[] = (String.[], [], refl)
split_some sep (String.◌∷◌ c s) = elim (Bool-cases (nat_eq (code c) sep)) [
  | inl e ↦ (String.[], split sep s, rw e)
  | inr e ↦ let (p, ps, h) = split_some sep s in (String.◌∷◌ c p, ps, rw (e, h))
]

pub split-nonempty : (sep : ℕ) (s : String) → split sep s ≢ []
split-nonempty sep s h = let (p, ps, e) = split_some sep s in cc

extend_head-Lacks :
    (sep : ℕ) (c : Char) (ps : List String)
    → code c ≢ sep
    → All (Lacks sep) ps
    → All (Lacks sep) (extend_head c ps)
extend_head-Lacks sep c [] n h = ((n, tt), tt)
extend_head-Lacks sep c (p ∷ ps) n h = ((n, h.0), h.1)

pub split-Lacks : (sep : ℕ) (s : String) → All (Lacks sep) (split sep s)
unfolding split
split-Lacks sep String.[] = (tt, tt)
split-Lacks sep (String.◌∷◌ c s) = elim (Bool-cases (nat_eq (code c) sep)) [
  | inl e ↦ rw e (tt, split-Lacks sep s)
  | inr e ↦ rw e (extend_head-Lacks sep c (split sep s) (ground arith) (split-Lacks sep s))
]

join-extend_head :
    (d c : Char) (p : String) (ps : List String)
    → join d (extend_head c (p ∷ ps)) ≡ String.◌∷◌ c (join d (p ∷ ps))
join-extend_head d c p [] = refl
join-extend_head d c p (q ∷ ps) = cons-append c p _

pub join-split : (d : Char) (s : String) → join d (split (code d) s) ≡ s
unfolding split
join-split d String.[] = refl
join-split d (String.◌∷◌ c s) =
    let (p, ps, h) = split_some (code d) s in
    let ih : join d (p ∷ ps) ≡ s = ap (join d) (sym h) ∙ join-split d s in
    elim (Bool-cases (nat_eq (code c) (code d))) [
      | inl e ↦
          let same : d ≡ c = Char-path d c (sym ((nat_eq_iff (code c) (code d)).0 e)) in
          rw (e, h) (nil-append _ ∙ ap (λ k. String.◌∷◌ d k) ih ∙ ap (λ k. String.◌∷◌ k s) same)
      | inr e ↦ rw (e, h) (join-extend_head d c p ps ∙ ap (λ k. String.◌∷◌ c k) ih)
    ]

split_of_Lacks : (sep : ℕ) (p : String) → Lacks sep p → split sep p ≡ p ∷ []
unfolding split
split_of_Lacks sep String.[] h = refl
split_of_Lacks sep (String.◌∷◌ c s) h = ground (arith, split_of_Lacks sep s h.1)

split-append :
    (d : Char) (p rest : String)
    → Lacks (code d) p
    → split (code d) (p ++ₛ String.◌∷◌ d rest) ≡ p ∷ split (code d) rest
unfolding split
split-append d String.[] rest h = rw nil-append (ground (arith, nat_eq_iff (code d) (code d)))
split-append d (String.◌∷◌ c s) rest h = rw cons-append (ground (arith, split-append d s rest h.1))

pub split-join :
    (d : Char) (p : String) (ps : List String)
    → All (Lacks (code d)) (p ∷ ps)
    → split (code d) (join d (p ∷ ps)) ≡ p ∷ ps
split-join d p [] h = split_of_Lacks (code d) p h.0
split-join d p (q ∷ ps) h =
    split-append d p (join d (q ∷ ps)) h.0 ∙ ap (λ k. p ∷ k) (split-join d q ps h.1)

extend_left-some :
    (c : Char) (o : Option (String × String)) (a b : String)
    → extend_left c o ≡ some (a, b)
    → (p : String) × (o ≡ some (p, b)) × (a ≡ String.◌∷◌ c p)
extend_left-some c none a b h = cc
extend_left-some c (some (p, q)) a b h = (p, ground arith, ground arith)

split_once_sound :
    (d : Char) (s a b : String)
    → split_once (code d) s ≡ some (a, b)
    → Lacks (code d) a × (s ≡ a ++ₛ String.◌∷◌ d b)
unfolding split_once
split_once_sound d String.[] a b h = cc
split_once_sound d (String.◌∷◌ c s) a b h = elim (Bool-cases (nat_eq (code c) (code d))) [
  | inl e ↦
      let h' : some (String.[], s) ≡ some (a, b) = rw e at h in
      let first : String.[] ≡ a = ground arith in
      let second : s ≡ b = ground arith in
      let same : c ≡ d = Char-path c d ((nat_eq_iff (code c) (code d)).0 e) in
      rw (← first, ← second) (tt, rw same (sym (nil-append _)))
  | inr e ↦
      let h' : extend_left c (split_once (code d) s) ≡ some (a, b) = rw e at h in
      let (p, found, grown) = extend_left-some c (split_once (code d) s) a b h' in
      let (lacks, joined) = split_once_sound d s p b found in
      rw grown ((ground arith, lacks), ap (λ t. String.◌∷◌ c t) joined ∙ sym (cons-append c p _))
]

split_once-append :
    (d : Char) (a b : String)
    → Lacks (code d) a
    → split_once (code d) (a ++ₛ String.◌∷◌ d b) ≡ some (a, b)
unfolding split_once
split_once-append d String.[] b h = rw nil-append (ground (arith, nat_eq_iff (code d) (code d)))
split_once-append d (String.◌∷◌ c a) b h =
    rw cons-append (ground (arith, split_once-append d a b h.1))

-- The text is cut at the first separator, if it has one.
pub split_once_iff :
    (d : Char) (s a b : String)
    → (split_once (code d) s ≡ some (a, b)) ↔ (Lacks (code d) a × (s ≡ a ++ₛ String.◌∷◌ d b))
split_once_iff d s a b = (
  split_once_sound d s a b,
  λ (lacks, joined). ap (split_once (code d)) joined ∙ split_once-append d a b lacks,
)
