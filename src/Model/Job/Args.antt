-- ===== src/Model/Job/Args.antt =====
-- Job arguments: the lists that are accepted as an FFmpeg command with one input and one output.
use native.Mathlib.Nat.{zero-add}
use mathlib.Core.Path.{ap₂}
use ffmpeg_docker_playground.Base.{
  ℕ, suc, ◌+◌, ◌-◌, ◌≡◌, refl, sym, ap, ◌∙◌, ◌≢◌, ◌↔◌, true, List, [], ◌∷◌, ◌++◌, String, eq_iff,
  eq_refl, length, arith, All, append_assoc,
}
use ffmpeg_docker_playground.Model.Job.{
  positions, count, ends_with, stands_at, follows_flag, is_command,
}
use ffmpeg_docker_playground.Model.Job.Marks.{
  count-append, All-ne_of_count, positions-append, positions-one, snoc_of_stands_at,
  snoc_of_ends_with, ends_with-append, stands_at-append, positions_of_count-zero,
}

-- An argument that is no marker.
abbrev pub IsPlain : String → Type 0
IsPlain a = (a ≢ "-i") × (a ≢ "{input}") × (a ≢ "{output}")

-- Options, then the one input behind its flag, then options, then the one output.
pub record IsCommand (args : List String) : Type 0 where
  pub before : List String
  pub middle : List String
  pub shape : args ≡ before ++ "-i" ∷ "{input}" ∷ (middle ++ "{output}" ∷ [])
  pub plain_before : All IsPlain before
  pub plain_middle : All IsPlain middle

abbrev Unmarked : List String → Type 0
Unmarked xs = (count "-i" xs ≡ 0) × (count "{input}" xs ≡ 0) × (count "{output}" xs ≡ 0)

All-IsPlain_of_Unmarked : (xs : List String) → Unmarked xs → All IsPlain xs
All-IsPlain_of_Unmarked xs (f, i, o) =
    zip xs (All-ne_of_count "-i" xs f) (All-ne_of_count "{input}" xs i)
      (All-ne_of_count "{output}" xs o)
  where
    zip :
        (xs : List String)
        → All (λ a. a ≢ "-i") xs
        → All (λ a. a ≢ "{input}") xs
        → All (λ a. a ≢ "{output}") xs
        → All IsPlain xs
    zip [] p q r = tt
    zip (x ∷ xs) (p, ps) (q, qs) (r, rs) = ((p, q, r), zip xs ps qs rs)

All-IsPlain-Unmarked : (xs : List String) → All IsPlain xs → Unmarked xs
unfolding count
All-IsPlain-Unmarked [] h = (refl, refl, refl)
All-IsPlain-Unmarked (x ∷ xs) ((p, q, r), h) =
    let ih = All-IsPlain-Unmarked xs h in
    (
      ground (arith, eq_iff x "-i", ih),
      ground (arith, eq_iff x "{input}", ih),
      ground (arith, eq_iff x "{output}", ih),
    )

follows_flag-true :
    (ps : List ℕ) (args : List String)
    → follows_flag ps args ≡ true
    → (i : ℕ) × (ps ≡ i ∷ []) × (i ≢ 0) × (stands_at "-i" (i - 1) args ≡ true)
unfolding follows_flag
follows_flag-true [] args h = cc
follows_flag-true (i ∷ []) args h = (i, refl, ground arith, ground arith)
follows_flag-true (i ∷ j ∷ ps) args h = cc

-- What the counts say once the shape is known.
counts-Unmarked :
    (before middle : List String)
    → let args = before ++ "-i" ∷ "{input}" ∷ (middle ++ "{output}" ∷ []) in
      count "-i" args ≡ 1
      → count "{input}" (before ++ "-i" ∷ []) ≡ 0
      → count "{input}" (middle ++ "{output}" ∷ []) ≡ 0
      → count "{output}" args ≡ 1
      → Unmarked before × Unmarked middle
unfolding count
counts-Unmarked before middle f i j o =
    let rest = "-i" ∷ "{input}" ∷ (middle ++ "{output}" ∷ []) in
    ground (
      arith,
      count-append "-i" before rest,
      count-append "-i" middle ("{output}" ∷ []),
      count-append "{input}" before ("-i" ∷ []),
      count-append "{input}" middle ("{output}" ∷ []),
      count-append "{output}" before rest,
      count-append "{output}" middle ("{output}" ∷ []),
    )

positions_of_shape :
    (before middle : List String)
    → Unmarked before
    → Unmarked middle
    → positions "{input}" 0 (before ++ "-i" ∷ "{input}" ∷ (middle ++ "{output}" ∷ []))
      ≡ suc (length before) ∷ []
unfolding positions
positions_of_shape before middle b m =
    let k = 0 + length before in
    let tail = positions-append "{input}" (suc (suc k)) middle ("{output}" ∷ []) in
    let none_before = positions_of_count-zero "{input}" 0 before b.1 in
    let none_after = positions_of_count-zero "{input}" (suc (suc k)) middle m.1 in
    rw
      (
        positions-append "{input}" 0 before ("-i" ∷ "{input}" ∷ (middle ++ "{output}" ∷ [])),
        none_before,
      )
      (rw (tail, none_after) (rw zero-add))

is_command_of_shape :
    (before middle : List String)
    → Unmarked before
    → Unmarked middle
    → is_command (before ++ "-i" ∷ "{input}" ∷ (middle ++ "{output}" ∷ [])) ≡ true
unfolding is_command follows_flag count
is_command_of_shape before middle b m =
    let tail = middle ++ "{output}" ∷ [] in
    let less : suc (length before) - 1 ≡ length before = omega arith in
    let flags = count-append "-i" before ("-i" ∷ "{input}" ∷ tail) in
    let flags' = count-append "-i" middle ("{output}" ∷ []) in
    let outs = count-append "{output}" before ("-i" ∷ "{input}" ∷ tail) in
    let outs' = count-append "{output}" middle ("{output}" ∷ []) in
    let behind : stands_at "-i" (suc (length before) - 1) (before ++ "-i" ∷ "{input}" ∷ tail)
        ≡ true =
      rw less (stands_at-append "-i" before ("{input}" ∷ tail)) in
    let last : ends_with "{output}" (before ++ "-i" ∷ "{input}" ∷ tail) ≡ true =
      ends_with-append "{output}" "-i" before ("{input}" ∷ tail)
      ∙ ends_with-append "{output}" "{output}" ("-i" ∷ "{input}" ∷ middle) []
      ∙ eq_refl "{output}" in
    rw (positions_of_shape before middle b m)
      (ground (arith, behind, flags, flags', outs, outs', last))

output_after_input :
    (post : List String)
    → ends_with "{output}" ("{input}" ∷ post) ≡ true
    → (middle : List String) × (post ≡ middle ++ "{output}" ∷ [])
unfolding ends_with
output_after_input [] h = cc
output_after_input (a ∷ post) h = snoc_of_ends_with "{output}" a post h

is_command_sound : (args : List String) → is_command args ≡ true → IsCommand args
unfolding is_command
is_command_sound args h =
    let (i, one, inner, flag) =
      follows_flag-true (positions "{input}" 0 args) args (ground arith) in
    let (pre, post, whole, index, none_before, none_after) = positions-one "{input}" 0 i args one in
    let before_input : i ≡ length pre = omega (arith, index) in
    let flag' : stands_at "-i" (length pre - 1) (pre ++ "{input}" ∷ post) ≡ true =
      ap₂ (λ n t. stands_at "-i" (n - 1) t) (sym before_input) (sym whole) ∙ flag in
    let (before, flagged) =
      snoc_of_stands_at "-i" pre ("{input}" ∷ post) (λ e. inner (before_input ∙ ap length e))
        flag' in
    let ends : ends_with "{output}" args ≡ true = ground arith in
    let (middle, closed) = output_after_input post (
      sym (ends_with-append "{output}" "{input}" pre post)
      ∙ ap (ends_with "{output}") (sym whole)
      ∙ ends) in
    let shape : args ≡ before ++ "-i" ∷ "{input}" ∷ (middle ++ "{output}" ∷ []) =
      whole
      ∙ ap₂ (λ p q. p ++ "{input}" ∷ q) flagged closed
      ∙ append_assoc before ("-i" ∷ []) ("{input}" ∷ (middle ++ "{output}" ∷ [])) in
    let flags : count "-i" args ≡ 1 = ground arith in
    let outs : count "{output}" args ≡ 1 = ground arith in
    let (b, m) =
      counts-Unmarked before middle (ap (count "-i") (sym shape) ∙ flags)
        (ap (count "{input}") (sym flagged) ∙ none_before)
        (ap (count "{input}") (sym closed) ∙ none_after)
        (ap (count "{output}") (sym shape) ∙ outs) in
    record {
      before = before;
      middle = middle;
      shape = shape;
      plain_before = All-IsPlain_of_Unmarked before b;
      plain_middle = All-IsPlain_of_Unmarked middle m;
    }

is_command_complete : (args : List String) → IsCommand args → is_command args ≡ true
is_command_complete args c = rw c.shape (
    is_command_of_shape c.before c.middle (All-IsPlain-Unmarked c.before c.plain_before)
      (All-IsPlain-Unmarked c.middle c.plain_middle))

-- The checks on the arguments accept exactly the lists of plain options, the one input behind
-- -i, plain options, and the one output at the end.
pub is_command_iff : (args : List String) → (is_command args ≡ true) ↔ IsCommand args
is_command_iff args = (is_command_sound args, is_command_complete args)
