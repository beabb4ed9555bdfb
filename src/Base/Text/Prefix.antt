-- ===== src/Base/Text/Prefix.antt =====
-- `str::strip_prefix` finds exactly the texts that begin with the prefix.
use Prim.Native.Char.{code}
use Prim.Native.String.{String}
use mathlib.Core.Path.{◌≡◌, refl, sym, ap, ap₂, ◌∙◌}
use mathlib.Core.Logic.{inl, inr}
use mathlib.Core.Bool.{true}
use mathlib.Core.Option.{some}
use native.Mathlib.Omega.{arith}
use text.Mathlib.TextEquality.{Char-path}
use text.Mathlib.TextLemmas.{nil-append, cons-append}
use ffmpeg_docker_playground.Base.Tests.{nat_eq, nat_eq_iff, Bool-cases}
use ffmpeg_docker_playground.Base.Text.{strip_prefix}
use ffmpeg_docker_playground.Base.Text.Split.{◌++ₛ◌}

pub strip_prefix-append : (p s : String) → strip_prefix p (p ++ₛ s) ≡ some s
unfolding strip_prefix
strip_prefix-append String.[] s = ap some (nil-append s)
strip_prefix-append (String.◌∷◌ c p) s =
    let same : nat_eq (code c) (code c) ≡ true = (nat_eq_iff (code c) (code c)).1 refl in
    rw (cons-append c p s, same, strip_prefix) (strip_prefix-append p s)

pub strip_prefix_sound : (p s t : String) → strip_prefix p s ≡ some t → s ≡ p ++ₛ t
unfolding strip_prefix
strip_prefix_sound String.[] s t h = let same : s ≡ t = cc in same ∙ sym (nil-append t)
strip_prefix_sound (String.◌∷◌ c p) String.[] t h = cc
strip_prefix_sound (String.◌∷◌ c p) (String.◌∷◌ d s) t h =
    elim (Bool-cases (nat_eq (code c) (code d))) [
      | inr e ↦ absurd (ground (arith, e))
      | inl e ↦
          let rest = strip_prefix_sound p s t (rw (e, strip_prefix) at h) in
          let same : d ≡ c = Char-path d c (sym ((nat_eq_iff (code c) (code d)).0 e)) in
          ap₂ (λ a b. String.◌∷◌ a b) same rest ∙ sym (cons-append c p t)
    ]
