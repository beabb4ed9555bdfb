-- ===== src/Engine/Progress.antt =====
-- agent/src/engine.rs: `read_progress`, which watches FFmpeg's progress for values that grow.
pub mod Laws
use ffmpeg_docker_playground.Base.Text.{split_once, trim, parse_u64}
use ffmpeg_docker_playground.Base.{
  ℕ, suc, Bool, true, false, Option, none, some, List, [], ◌∷◌, ◌++◌, String, ◌==◌, ltb, nat_eq,
  length, if◌then◌else◌,
}

-- The room of a line, in bytes.
abbrev pub line_limit : ℕ
line_limit = 1024

-- `maxima`, one entry for each key that counts.
pub record Maxima : Type 0 where
  pub frame : ℕ
  pub out_time_us : ℕ
  pub total_size : ℕ

-- The variables of the loop, and how often `touch` was called.
pub record Reader : Type 0 where
  pub line : List ℕ
  pub overflow : Bool
  pub maxima : Maxima
  pub touches : ℕ

abbrev pub fresh : Reader
fresh = record {
  line = [];
  overflow = false;
  maxima = record { frame = 0; out_time_us = 0; total_size = 0 };
  touches = 0;
}

-- The entry of a key, if it is one of the three, and its update.
pub entry : Maxima → String → Option (ℕ × (ℕ → Maxima))
entry m key =
    if key == "frame"
    then some (m.frame, λ n. record m { frame = n })
    else if key == "out_time_us"
    then some (m.out_time_us, λ n. record m { out_time_us = n })
    else if key == "total_size"
    then some (m.total_size, λ n. record m { total_size = n })
    else none

-- `value > maxima[index]`, with what follows from it.
pub raise : Maxima → Option ℕ → ℕ × (ℕ → Maxima) → Option Maxima
raise m none e = none
raise m (some value) (old, set) = if ltb old value then some (set value) else none

pub read_pair : Maxima → Option (String × String) → Option Maxima
unfolding entry raise
read_pair m none = none
read_pair m (some (key, value)) = elim (entry m key) [
  | none ↦ none
  | some e ↦ raise m (parse_u64 (trim value)) e
]

-- `std::str::from_utf8` is the standard library's: the text of the bytes, or a failure.
module _ (from_utf8 : List ℕ → Option String) where
  -- The new maxima, if the line raises one.
  unfoldable pub read_line : Maxima → List ℕ → Option Maxima
  unfolding read_pair
  read_line m line = elim (from_utf8 line) [
    | none ↦ none
    | some text ↦ read_pair m (split_once b'=' (trim text))
  ]

  -- What the loop keeps of a finished line.
  unfoldable pub apply_line : Maxima → ℕ → List ℕ → Bool → Maxima × ℕ
  unfolding read_line
  apply_line m touches line true = (m, touches)
  apply_line m touches line false = elim (read_line m line) [
    | none ↦ (m, touches)
    | some m' ↦ (m', suc touches)
  ]

  unfoldable pub read_byte : Reader → ℕ → Reader
  unfolding apply_line
  read_byte r byte =
      if nat_eq byte b'\n'
      then record {
        line = [];
        overflow = false;
        maxima = (apply_line r.maxima r.touches r.line r.overflow).0;
        touches = (apply_line r.maxima r.touches r.line r.overflow).1;
      }
      else if ltb (length r.line) line_limit
      then record r { line = r.line ++ byte ∷ [] }
      else record r { overflow = true }

  unfoldable pub read_bytes : Reader → List ℕ → Reader
  unfolding read_byte
  read_bytes r [] = r
  read_bytes r (b ∷ bs) = read_bytes (read_byte r b) bs

  -- The reads up to the end of the stream.
  unfoldable pub read_progress : Reader → List (List ℕ) → Reader
  unfolding read_bytes
  read_progress r [] = r
  read_progress r (buffer ∷ buffers) = read_progress (read_bytes r buffer) buffers
