-- ===== src/Engine/Progress/Laws.antt =====
-- FFmpeg's progress, line by line: no reading of bytes in pieces, and no unbounded memory.
use ffmpeg_docker_playground.Base.Cut.{take_all, take-append}
use ffmpeg_docker_playground.Base.{
  ℕ, suc, ◌+◌, ◌-◌, ◌≤◌, ◌≡◌, refl, sym, ap, ◌∙◌, min, true, false, Option, none, some, List, [],
  ◌∷◌, ◌++◌, append-nil, ltb, ltb-false→le, le→ltb-false, lt→ltb, nat_eq, length, length-append,
  length-take, take, String, arith, Bool-cases, inl, inr, if◌then◌else◌,
}
use ffmpeg_docker_playground.Engine.Log.Laws.{concat}
use ffmpeg_docker_playground.Engine.Progress.{
  line_limit, Maxima, Reader, fresh, apply_line, read_line, read_byte, read_bytes, read_progress,
}

-- The lines of a text that a line break ends, with the bytes in front of the first.
unfoldable pub finished_lines : List ℕ → List ℕ → List (List ℕ)
finished_lines held [] = []
finished_lines held (b ∷ bs) =
    if nat_eq b b'\n' then held ∷ finished_lines [] bs else finished_lines (held ++ b ∷ []) bs

ltb-room : (limit n m : ℕ) → n ≤ limit - 1 → 1 ≤ limit → m ≡ n + 1 → ltb limit n ≡ ltb limit m
ltb-room limit n m h pos e =
    le→ltb-false limit n (omega arith) ∙ sym (le→ltb-false limit m (omega arith))

module _ (from_utf8 : List ℕ → Option String) where
  -- A line of more than 1024 bytes counts for nothing; another one counts if it raises a maximum.
  unfoldable pub judge : Maxima × ℕ → List ℕ → Maxima × ℕ
  judge (m, touches) line =
      if ltb line_limit (length line)
      then (m, touches)
      else elim (read_line from_utf8 m line) [ none ↦ (m, touches) | some m' ↦ (m', suc touches) ]

  unfoldable pub judge_all : Maxima × ℕ → List (List ℕ) → Maxima × ℕ
  unfolding judge
  judge_all s [] = s
  judge_all s (line ∷ lines) = judge_all (judge s line) lines

  abbrev seen : Reader → Maxima × ℕ
  seen r = (r.maxima, r.touches)

  -- The reader holds the first bytes of the unfinished line, and whether there were more.
  record Holds (held : List ℕ) (r : Reader) : Type 0 where
    kept : r.line ≡ take line_limit held
    over : r.overflow ≡ ltb line_limit (length held)

  apply_line-judge :
      (held : List ℕ) (r : Reader)
      → Holds held r
      → apply_line from_utf8 r.maxima r.touches r.line r.overflow ≡ judge (seen r) held
  unfolding apply_line judge
  apply_line-judge held r h = elim (Bool-cases (ltb line_limit (length held))) [
    | inl e ↦ rw (h.over, e) refl
    | inr e ↦
        rw (h.over, h.kept, e, take_all line_limit held (ltb-false→le line_limit (length held) e))
          refl
  ]

  -- A line break judges the line, and the next one begins empty.
  read_byte-ends :
      (held : List ℕ) (r : Reader) (b : ℕ)
      → nat_eq b b'\n' ≡ true
      → Holds held r
      → Holds [] (read_byte from_utf8 r b) × (seen (read_byte from_utf8 r b) ≡ judge (seen r) held)
  unfolding read_byte
  read_byte-ends held r b e h =
      rw (e, read_byte) (record { kept = refl; over = refl }, apply_line-judge held r h)

  -- Any other byte is kept while there is room.
  read_byte-Holds :
      (held : List ℕ) (r : Reader) (b : ℕ)
      → nat_eq b b'\n' ≡ false
      → Holds held r
      → Holds (held ++ b ∷ []) (read_byte from_utf8 r b) × (seen (read_byte from_utf8 r b) ≡ seen r)
  unfolding read_byte
  read_byte-Holds held r b other h =
      let size = length-append held (b ∷ []) in
      let held_size : length r.line ≡ min (length held) line_limit =
        ap length h.kept ∙ length-take line_limit held ∙ omega arith in
      elim (Bool-cases (ltb (length r.line) line_limit)) [
        | inl room ↦
            let whole : r.line ≡ held =
              h.kept ∙ take_all line_limit held (ground (arith, room, held_size)) in
            rw (other, room, read_byte)
              (
                record {
                  kept =
                      ap (λ t. t ++ b ∷ []) whole
                      ∙ sym (
                          take_all line_limit (held ++ b ∷ [])
                            (ground (arith, room, held_size, size)));
                  over =
                      h.over
                      ∙ ltb-room line_limit (length held) (length (held ++ b ∷ []))
                          (ground (arith, room, held_size)) (omega arith) size;
                },
                refl,
              )
        | inr full ↦
            let at_least : line_limit ≤ length held =
              omega (arith, ltb-false→le (length r.line) line_limit full, held_size) in
            let none_left : line_limit - length held ≡ 0 = omega (arith, at_least) in
            rw (other, full, read_byte)
              (
                record {
                  kept =
                      h.kept
                      ∙ sym (append-nil (take line_limit held))
                      ∙ ap (λ n. take line_limit held ++ take n (b ∷ [])) (sym none_left)
                      ∙ sym (take-append line_limit held (b ∷ []));
                  over =
                      sym (
                        lt→ltb line_limit (length (held ++ b ∷ []))
                          (omega (arith, at_least, size)));
                },
                refl,
              )
      ]

  read_bytes_lem :
      (held : List ℕ) (r : Reader) (bs : List ℕ)
      → Holds held r
      → seen (read_bytes from_utf8 r bs) ≡ judge_all (seen r) (finished_lines held bs)
  unfolding read_bytes judge_all finished_lines
  read_bytes_lem held r [] h = refl
  read_bytes_lem held r (b ∷ bs) h = elim (Bool-cases (nat_eq b b'\n')) [
    | inl e ↦
        let (next, judged) = read_byte-ends held r b e h in
        rw e (
          read_bytes_lem [] (read_byte from_utf8 r b) bs next
          ∙ ap (λ s. judge_all s (finished_lines [] bs)) judged)
    | inr e ↦
        let (next, same) = read_byte-Holds held r b e h in
        rw e (
          read_bytes_lem (held ++ b ∷ []) (read_byte from_utf8 r b) bs next
          ∙ ap (λ s. judge_all s (finished_lines (held ++ b ∷ []) bs)) same)
  ]

  read_bytes-append :
      (r : Reader) (xs ys : List ℕ)
      → read_bytes from_utf8 r (xs ++ ys) ≡ read_bytes from_utf8 (read_bytes from_utf8 r xs) ys
  unfolding read_bytes
  read_bytes-append r [] ys = refl
  read_bytes-append r (x ∷ xs) ys = read_bytes-append (read_byte from_utf8 r x) xs ys

  read_progress-concat :
      (r : Reader) (buffers : List (List ℕ))
      → read_progress from_utf8 r buffers ≡ read_bytes from_utf8 r (concat buffers)
  unfolding read_progress read_bytes
  read_progress-concat r [] = refl
  read_progress-concat r (b ∷ bs) =
      read_progress-concat (read_bytes from_utf8 r b) bs ∙ sym (read_bytes-append r b (concat bs))

  -- However FFmpeg's progress is cut into reads, the maxima and the number of touches are those
  -- of its finished lines judged one by one, where a line of more than 1024 bytes counts for
  -- nothing.
  pub read_progress_lem :
      (buffers : List (List ℕ))
      → (
        (read_progress from_utf8 fresh buffers).maxima,
        (read_progress from_utf8 fresh buffers).touches,
      )
        ≡ judge_all (fresh.maxima, 0) (finished_lines [] (concat buffers))
  read_progress_lem buffers =
      ap seen (read_progress-concat fresh buffers)
      ∙ read_bytes_lem [] fresh (concat buffers) (record { kept = refl; over = refl })

  read_byte-bounded :
      (r : Reader) (b : ℕ)
      → length r.line ≤ line_limit
      → length (read_byte from_utf8 r b).line ≤ line_limit
  unfolding read_byte
  read_byte-bounded r b h = elim (Bool-cases (ltb (length r.line) line_limit)) [
    | inl e ↦ ground (arith, e, length-append r.line (b ∷ []))
    | inr e ↦ ground (arith, e)
  ]

  read_bytes-bounded :
      (r : Reader) (bs : List ℕ)
      → length r.line ≤ line_limit
      → length (read_bytes from_utf8 r bs).line ≤ line_limit
  unfolding read_bytes
  read_bytes-bounded r [] h = h
  read_bytes-bounded r (b ∷ bs) h =
      read_bytes-bounded (read_byte from_utf8 r b) bs (read_byte-bounded r b h)

  -- Whatever the process has written, the reader, begun with an empty line, holds at most 1024
  -- bytes of a line.
  pub read_progress-bounded :
      (buffers : List (List ℕ)) → length (read_progress from_utf8 fresh buffers).line ≤ line_limit
  read_progress-bounded buffers =
      rw (read_progress-concat fresh buffers)
        (read_bytes-bounded fresh (concat buffers) (omega arith))
