-- ===== src/Engine/Log/Laws.antt =====
-- The log that a job reports: the first and the last bytes of what FFmpeg wrote, however they came.
use ffmpeg_docker_playground.Base.{
  ℕ, ◌-◌, ◌≡◌, refl, sym, ap, ◌∙◌, min, inl, inr, List, [], ◌∷◌, ◌++◌, append-nil, append_assoc,
  ltb, length, take, drop, length-take, arith, Bool-cases,
}
use mathlib.Core.Path.{ap₂}
use ffmpeg_docker_playground.Base.Cut.{
  keep_last, drop-append, take-append, take-min, drop-min, keep_last-append,
}
use ffmpeg_docker_playground.Engine.Log.{
  log_limit, Log, empty_log, trim_tail, append_log, read_log_from, read_log,
}

abbrev pub concat : List (List ℕ) → List ℕ
concat [] = []
concat (b ∷ bs) = b ++ concat bs

trim_tail-eq : (limit : ℕ) (xs : List ℕ) → trim_tail limit xs ≡ keep_last limit xs
unfolding trim_tail
trim_tail-eq limit xs = elim (Bool-cases (ltb limit (length xs))) [
  | inl e ↦ rw e
  | inr e ↦ let none_over : length xs - limit ≡ 0 = ground arith in rw (e, none_over)
]

-- What the two fields are after all that was read.
abbrev Reports : ℕ → List ℕ → Log → Type 0
Reports limit all p = (p.log ≡ take limit all) × (p.log_tail ≡ keep_last limit (drop limit all))

append_log-Reports :
    (limit : ℕ) (all : List ℕ) (p : Log) (buffer : List ℕ)
    → Reports limit all p
    → Reports limit (all ++ buffer) (append_log limit p buffer)
unfolding append_log
append_log-Reports limit all p buffer (head, tail) =
    let room : limit - length p.log ≡ limit - length all =
      omega (arith, ap length head, length-take limit all) in
    let more = limit - length all in
    (
      ap₂ (λ k t. t ++ take (min (length buffer) k) buffer) room head
          ∙ ap (λ t. take limit all ++ t) (take-min more buffer)
          ∙ sym (take-append limit all buffer),
      trim_tail-eq limit _
          ∙ ap₂ (λ k t. keep_last limit (t ++ drop (min (length buffer) k) buffer)) room tail
          ∙ ap (λ t. keep_last limit (keep_last limit (drop limit all) ++ t)) (drop-min more buffer)
          ∙ keep_last-append limit (drop limit all) (drop more buffer)
          ∙ ap (keep_last limit) (sym (drop-append limit all buffer)),
    )

read_log_from-Reports :
    (limit : ℕ) (all : List ℕ) (p : Log) (buffers : List (List ℕ))
    → Reports limit all p
    → Reports limit (all ++ concat buffers) (read_log_from limit p buffers)
unfolding read_log_from
read_log_from-Reports limit all p [] r = rw append-nil r
read_log_from-Reports limit all p (b ∷ bs) r = rw (← append_assoc) (
    read_log_from-Reports limit (all ++ b) (append_log limit p b) bs
      (append_log-Reports limit all p b r))

-- However FFmpeg's log is cut into reads, log is its first 64 KiB and log_tail the last 64 KiB
-- of the rest.
pub read_log_lem :
    (buffers : List (List ℕ))
    → ((read_log buffers).log ≡ take log_limit (concat buffers))
      × ((read_log buffers).log_tail ≡ keep_last log_limit (drop log_limit (concat buffers)))
unfolding read_log
read_log_lem buffers = read_log_from-Reports log_limit [] empty_log buffers (refl, refl)
