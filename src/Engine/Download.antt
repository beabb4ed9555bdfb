-- ===== src/Engine/Download.antt =====
-- agent/src/engine.rs: `download`, one attempt to fetch the input into a file.
pub mod Laws
use ffmpeg_docker_playground.Base.Words.{checked_add}
use ffmpeg_docker_playground.Base.{
  ℕ, suc, Bool, true, false, not, Option, none, some, List, [], ◌∷◌, ◌++◌, ltb, length, Result, ok,
  err, if◌then◌else◌,
}
use ffmpeg_docker_playground.Engine.Retry.{StatusClass, TransferResult, retry_status}

-- A response: each entry of the body is what one call of `chunk` gives, `none` where the connection
-- breaks; behind the last entry the body is at its end.
pub record Response : Type 0 where
  pub status : ℕ
  pub content_length : Option ℕ
  pub body : List (Option (List ℕ))

-- What the network and the file system do: the answer to the request, and whether creating,
-- writing (at an offset) and flushing the file succeed.
pub record Env : Type 0 where
  pub classes : StatusClass
  pub send : Option Response
  pub creates : Bool
  pub writes : ℕ → Bool
  pub flushes : Bool

-- The input file, once it was created, and how often `last_progress` was set. What a failed write
-- leaves of its own chunk is left out.
pub record Saved : Type 0 where
  pub file : Option (List ℕ)
  pub touches : ℕ

abbrev pub content : Option (List ℕ) → List ℕ
content none = []
content (some bytes) = bytes

abbrev pub touched : List ℕ → ℕ → ℕ
touched [] n = n
touched (b ∷ bs) n = suc n

abbrev pub write_chunk : Saved → List ℕ → Saved
write_chunk s chunk = record {
  file = some (content s.file ++ chunk);
  touches = touched chunk s.touches;
}

-- `n.is_some_and(|n| n > max)`
abbrev pub declares_more : Option ℕ → ℕ → Bool
declares_more none max = false
declares_more (some n) max = ltb max n

-- The loop over the chunks, with the count of the bytes before.
unfoldable pub save_body :
    ℕ → (ℕ → Bool) → ℕ → Saved → List (Option (List ℕ)) → TransferResult × Saved
save_body max writes count s [] = (ok tt, s)
save_body max writes count s (none ∷ rest) = (err ("input download interrupted", true), s)
save_body max writes count s (some chunk ∷ rest) = elim (checked_add count (length chunk)) [
  | none ↦ (err ("input exceeds byte limit", false), s)
  | some total ↦
      let more = save_body max writes total (write_chunk s chunk) rest in
      if ltb max total
      then (err ("input exceeds byte limit", false), s)
      else if not (writes count)
      then (err ("cannot write input file", false), s)
      else more
]

unfoldable pub flush : Bool → TransferResult × Saved → TransferResult × Saved
flush flushes (err e, s) = (err e, s)
flush true (ok _, s) = (ok tt, s)
flush false (ok _, s) = (err ("cannot flush input file", false), s)

unfoldable pub receive : Env → ℕ → Saved → Response → TransferResult × Saved
unfolding flush save_body
receive env max s response =
    if not (env.classes.is_success response.status)
    then (
      err ("input GET returned non-success status", retry_status env.classes response.status),
      s,
    )
    else if declares_more response.content_length max
    then (err ("input exceeds byte limit", false), s)
    else if not env.creates
    then (err ("cannot create input file", false), s)
    else flush env.flushes (save_body max env.writes 0 (record s { file = some [] }) response.body)

unfoldable pub download : Env → ℕ → Saved → TransferResult × Saved
unfolding receive
download env max s = elim env.send [
  | none ↦ (err ("input GET failed", true), s)
  | some response ↦ receive env max s response
]
