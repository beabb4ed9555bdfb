-- ===== src/Engine/Log.antt =====
-- agent/src/engine.rs: `read_log` of `execute`, which keeps the start and the end of FFmpeg's log.
pub mod Laws
use ffmpeg_docker_playground.Base.{
  ℕ, ◌-◌, min, List, [], ◌∷◌, ◌++◌, ltb, length, take, drop, if◌then◌else◌,
}

-- LOG_LIMIT
abbrev pub log_limit : ℕ
log_limit = 65536

-- The two fields of `Progress` that the loop writes.
pub record Log : Type 0 where
  pub log : List ℕ
  pub log_tail : List ℕ

abbrev pub empty_log : Log
empty_log = record { log = []; log_tail = [] }

-- `if tail.len() > limit { tail.drain(..tail.len() - limit); }`
unfoldable pub trim_tail : ℕ → List ℕ → List ℕ
trim_tail limit tail = if ltb limit (length tail) then drop (length tail - limit) tail else tail

-- One round of the loop, for the bytes of one read.
unfoldable pub append_log : ℕ → Log → List ℕ → Log
unfolding trim_tail
append_log limit p buffer =
    let head_bytes = min (length buffer) (limit - length p.log) in
    record {
      log = p.log ++ take head_bytes buffer;
      log_tail = trim_tail limit (p.log_tail ++ drop head_bytes buffer);
    }

-- The reads up to the end of the stream.
unfoldable pub read_log_from : ℕ → Log → List (List ℕ) → Log
unfolding append_log
read_log_from limit p [] = p
read_log_from limit p (buffer ∷ buffers) = read_log_from limit (append_log limit p buffer) buffers

unfoldable pub read_log : List (List ℕ) → Log
unfolding read_log_from
read_log buffers = read_log_from log_limit empty_log buffers
