-- ===== src/Model/Job/Laws.antt =====
-- Which jobs are accepted.
use ffmpeg_docker_playground.Base.Text.{bytes, is_blank, is_ascii_alphanumeric}
use ffmpeg_docker_playground.Base.{
  ℕ, ◌≤◌, ◌≡◌, refl, ◌≢◌, ◌↔◌, Bool, true, false, not, ◌||◌, List, [], ◌∷◌, String, len, ltb,
  nat_eq, length, all, any, ok, reject_if, arith, >>=-eq-ok, reject_if-eq-ok, All,
}
use ffmpeg_docker_playground.Model.Types.{Job}
use ffmpeg_docker_playground.Model.Endpoint.{
  Http, bad_id, bad_extension, bad_sizes, bad_args, validate_endpoint,
}
use ffmpeg_docker_playground.Model.Endpoint.Laws.{IsEndpoint, validate_endpoint_iff}
use ffmpeg_docker_playground.Model.Job.{
  is_id_byte, is_bad_id, is_bad_extension, is_oversized, is_command, validate,
}
use ffmpeg_docker_playground.Model.Job.Args.{IsCommand, is_command_iff}

-- A name of some bytes, at most so many, all of them of one class.
pub record IsName (most : ℕ) (class : ℕ → Bool) (s : String) : Type 0 where
  pub filled : s ≢ ""
  pub short : len s ≤ most
  pub clean : All (λ b. class b ≡ true) (bytes s)

abbrev pub IsArg : String → Type 0
IsArg a = (len a ≤ 4096) × All (λ b. b ≢ 0) (bytes a)

pub record IsAcceptable (h : Http) (job : Job) : Type 0 where
  pub id : IsName 80 is_id_byte job.id
  pub extension : IsName 10 is_ascii_alphanumeric job.output_extension
  pub few_args : length job.args ≤ 128
  pub args : All IsArg job.args
  pub command : IsCommand job.args
  pub input : IsEndpoint h job.input
  pub output : IsEndpoint h job.output
  pub callback : IsEndpoint h job.callback

all-All : (p : ℕ → Bool) (bs : List ℕ) → (all p bs ≡ true) ↔ All (λ b. p b ≡ true) bs
all-All p [] = (λ _. tt, λ _. refl)
all-All p (b ∷ bs) =
    let (to, from) = all-All p bs in
    ((λ h. (ground arith, to (ground arith))), λ (e, es). ground (arith, from es))

any-zero : (bs : List ℕ) → (any (λ b. nat_eq b 0) bs ≡ false) ↔ All (λ b. b ≢ 0) bs
any-zero [] = (λ _. tt, λ _. refl)
any-zero (b ∷ bs) =
    let (to, from) = any-zero bs in
    ((λ h. (ground arith, to (ground arith))), λ (e, es). ground (arith, from es))

filled_iff : (s : String) → (is_blank s ≡ false) ↔ (s ≢ "")
filled_iff String.[] = ((λ h. cc), λ n. absurd (n refl))
filled_iff (String.◌∷◌ c s) = ((λ h e. cc), λ n. refl)

is_bad_id_iff : (s : String) → (is_bad_id s ≡ false) ↔ IsName 80 is_id_byte s
unfolding is_bad_id
is_bad_id_iff s = (
  (λ h. record {
    filled = (filled_iff s).0 (ground arith);
    short = ground arith;
    clean = (all-All is_id_byte (bytes s)).0 (ground arith);
  }),
  λ n. ground (arith, (filled_iff s).1 n.filled, (all-All is_id_byte (bytes s)).1 n.clean),
)

is_bad_extension_iff :
    (s : String) → (is_bad_extension s ≡ false) ↔ IsName 10 is_ascii_alphanumeric s
unfolding is_bad_extension
is_bad_extension_iff s = (
  (λ h. record {
    filled = (filled_iff s).0 (ground arith);
    short = ground arith;
    clean = (all-All is_ascii_alphanumeric (bytes s)).0 (ground arith);
  }),
  λ n.
      ground
        (arith, (filled_iff s).1 n.filled, (all-All is_ascii_alphanumeric (bytes s)).1 n.clean),
)

is_oversized_iff : (args : List String) → (any is_oversized args ≡ false) ↔ All IsArg args
unfolding is_oversized
is_oversized_iff [] = (λ _. tt, λ _. refl)
is_oversized_iff (a ∷ args) =
    let (to, from) = is_oversized_iff args in
    let (to0, from0) = any-zero (bytes a) in
    (
      (λ h. ((ground arith, to0 (ground arith)), to (ground arith))),
      λ ((l, z), es). ground (arith, from es, from0 z),
    )

module _ (h : Http) where
  validate_sound : (job : Job) → validate h job ≡ ok tt → IsAcceptable h job
  unfolding validate
  validate_sound job v =
      let (_, e1, h1) = >>=-eq-ok (reject_if (is_bad_id job.id) bad_id) _ v in
      let (_, e2, h2) =
        >>=-eq-ok (reject_if (is_bad_extension job.output_extension) bad_extension) _ h1 in
      let sizes = ltb 128 (length job.args) || any is_oversized job.args in
      let (_, e3, h3) = >>=-eq-ok (reject_if sizes bad_sizes) _ h2 in
      let (_, e4, h4) = >>=-eq-ok (reject_if (not (is_command job.args)) bad_args) _ h3 in
      let (_, e5, h5) = >>=-eq-ok (validate_endpoint h job.input) _ h4 in
      let (_, e6, h6) = >>=-eq-ok (validate_endpoint h job.output) _ h5 in
      let small = reject_if-eq-ok sizes bad_sizes e3 in
      let command = reject_if-eq-ok (not (is_command job.args)) bad_args e4 in
      record {
        id = (is_bad_id_iff job.id).0 (reject_if-eq-ok _ _ e1);
        extension = (is_bad_extension_iff job.output_extension).0 (reject_if-eq-ok _ _ e2);
        few_args = ground (arith, small);
        args = (is_oversized_iff job.args).0 (ground (arith, small));
        command = (is_command_iff job.args).0 (ground (arith, command));
        input = (validate_endpoint_iff h job.input).0 e5;
        output = (validate_endpoint_iff h job.output).0 e6;
        callback = (validate_endpoint_iff h job.callback).0 h6;
      }

  validate_complete : (job : Job) → IsAcceptable h job → validate h job ≡ ok tt
  unfolding validate
  validate_complete job a =
      let e1 = (is_bad_id_iff job.id).1 a.id in
      let e2 = (is_bad_extension_iff job.output_extension).1 a.extension in
      let e3 : (ltb 128 (length job.args) || any is_oversized job.args) ≡ false =
        ground (arith, a.few_args, (is_oversized_iff job.args).1 a.args) in
      let e4 = (is_command_iff job.args).1 a.command in
      let e5 = (validate_endpoint_iff h job.input).1 a.input in
      let e6 = (validate_endpoint_iff h job.output).1 a.output in
      rw (e1, e2, e3, e4, e5, e6) ((validate_endpoint_iff h job.callback).1 a.callback)

  -- A job is accepted exactly when its id and extension are short names without separators, its
  -- arguments are few, bounded and an FFmpeg command, and its three endpoints are allowed.
  pub validate_iff : (job : Job) → (validate h job ≡ ok tt) ↔ IsAcceptable h job
  validate_iff job = (validate_sound job, validate_complete job)
