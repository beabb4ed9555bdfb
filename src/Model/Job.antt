-- ===== src/Model/Job.antt =====
-- agent/src/model.rs: `Job::validate`.
pub mod Marks
pub mod Args
pub mod Laws
use ffmpeg_docker_playground.Base.Text.{bytes, is_blank, is_ascii_alphanumeric}
use ffmpeg_docker_playground.Base.{
  ℕ, zero, suc, ◌+◌, ◌-◌, Bool, true, false, not, ◌&&◌, ◌||◌, Option, none, some, List, [], ◌∷◌,
  String, ◌==◌, len, ltb, nat_eq, length, all, any, Result, ok, err, ◌>>=◌, ◌>>◌, reject_if,
  if◌then◌else◌,
}
use ffmpeg_docker_playground.Model.Types.{Job}
use ffmpeg_docker_playground.Model.Endpoint.{
  Http, Invalid, bad_id, bad_extension, bad_sizes, bad_args, validate_endpoint,
}

-- `c.is_ascii_alphanumeric() || b"-_.".contains(&c)`
abbrev pub is_id_byte : ℕ → Bool
is_id_byte c = is_ascii_alphanumeric c || nat_eq c b'-' || nat_eq c b'_' || nat_eq c b'.'

unfoldable pub is_bad_id : String → Bool
is_bad_id id = is_blank id || ltb 80 (len id) || not (all is_id_byte (bytes id))

unfoldable pub is_bad_extension : String → Bool
is_bad_extension e = is_blank e || ltb 10 (len e) || not (all is_ascii_alphanumeric (bytes e))

-- `a.len() > 4096 || a.contains('\0')`
unfoldable pub is_oversized : String → Bool
is_oversized a = ltb 4096 (len a) || any (λ b. nat_eq b 0) (bytes a)

-- The indices at which the text stands, from the index `k` of the first entry on.
unfoldable pub positions : String → ℕ → List String → List ℕ
positions s k [] = []
positions s k (a ∷ args) = if a == s then k ∷ positions s (suc k) args else positions s (suc k) args

-- `args.iter().filter(|a| a == s).count()`
unfoldable pub count : String → List String → ℕ
count s [] = 0
count s (a ∷ args) = if a == s then suc (count s args) else count s args

-- `args.last() == Some(s)`
unfoldable pub ends_with : String → List String → Bool
ends_with s [] = false
ends_with s (a ∷ []) = a == s
ends_with s (a ∷ b ∷ args) = ends_with s (b ∷ args)

-- `args[i] == s`, for an index within the list.
unfoldable pub stands_at : String → ℕ → List String → Bool
stands_at s i [] = false
stands_at s zero (a ∷ args) = a == s
stands_at s (suc i) (a ∷ args) = stands_at s i args

-- The test on `inputs`, the positions of "{input}": one, not the first, and behind "-i".
unfoldable pub follows_flag : List ℕ → List String → Bool
unfolding stands_at
follows_flag (i ∷ []) args = not (nat_eq i 0) && stands_at "-i" (i - 1) args
follows_flag _ args = false

unfoldable pub is_command : List String → Bool
unfolding positions count ends_with follows_flag
is_command args =
    follows_flag (positions "{input}" 0 args) args
    && nat_eq (count "-i" args) 1
    && nat_eq (count "{output}" args) 1
    && ends_with "{output}" args

module _ (h : Http) where
  unfoldable pub validate : Job → Result Invalid (Unit {0})
  validate job = do
    reject_if (is_bad_id job.id) bad_id
    reject_if (is_bad_extension job.output_extension) bad_extension
    reject_if (ltb 128 (length job.args) || any is_oversized job.args) bad_sizes
    reject_if (not (is_command job.args)) bad_args
    validate_endpoint h job.input
    validate_endpoint h job.output
    validate_endpoint h job.callback
