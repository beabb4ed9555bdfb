-- ===== src/Engine/Download/Laws.antt =====
-- What a download leaves on the disk.
use ffmpeg_docker_playground.Base.Words.{checked_add, u64_max}
use ffmpeg_docker_playground.Base.{
  ℕ, ◌+◌, ◌≤◌, ◌≡◌, refl, sym, ap, ◌∙◌, inl, inr, Bool, true, false, Option, none, some, List, [],
  ◌∷◌, ◌++◌, append-nil, append_assoc, length, length-append, ok, err, arith, Option-cases,
}
use ffmpeg_docker_playground.Engine.Retry.{TransferResult}
use ffmpeg_docker_playground.Engine.Download.{
  Response, Env, Saved, content, write_chunk, declares_more, save_body, flush, receive, download,
}

-- The whole body, if it arrives.
unfoldable pub whole : List (Option (List ℕ)) → Option (List ℕ)
whole [] = some []
whole (none ∷ rest) = none
whole (some chunk ∷ rest) = elim (whole rest) [ none ↦ none | some bytes ↦ some (chunk ++ bytes) ]

abbrev pub IsWithin : ℕ → Saved → Type 0
IsWithin max s = length (content s.file) ≤ max

save_body-IsWithin :
    (max : ℕ) (writes : ℕ → Bool) (count : ℕ) (s : Saved) (body : List (Option (List ℕ)))
    → length (content s.file) ≡ count
    → IsWithin max s
    → IsWithin max (save_body max writes count s body).1
unfolding save_body checked_add
save_body-IsWithin max writes count s [] e h = h
save_body-IsWithin max writes count s (none ∷ rest) e h = h
save_body-IsWithin max writes count s (some chunk ∷ rest) e h =
    let grown = length-append (content s.file) chunk in
    ground (
      arith,
      grown,
      save_body-IsWithin max writes (count + length chunk) (write_chunk s chunk) rest,
    )

-- Whatever the server sends and whatever fails, an attempt leaves an input file that was within
-- the byte limit within it.
pub download-IsWithin :
    (env : Env) (max : ℕ) (s : Saved) → IsWithin max s → IsWithin max (download env max s).1
unfolding download receive flush
download-IsWithin env max s h = elim (Option-cases env.send) [
  | inl e ↦ ground (arith, e)
  | inr (r, e) ↦
      ground (arith, e, save_body-IsWithin max env.writes 0 (record s { file = some [] }) r.body)
]

save_body-step :
    (max : ℕ) (writes : ℕ → Bool) (count : ℕ) (s : Saved) (chunk : List ℕ)
    (rest : List (Option (List ℕ)))
    → (save_body max writes count s (some chunk ∷ rest)).0 ≡ ok tt
    → (save_body max writes count s (some chunk ∷ rest)
        ≡ save_body max writes (count + length chunk) (write_chunk s chunk) rest)
      × (count + length chunk ≤ max)
unfolding save_body checked_add
save_body-step max writes count s chunk rest h = (ground arith, ground arith)

whole-cons :
    (chunk bytes : List ℕ) (rest : List (Option (List ℕ)))
    → whole rest ≡ some bytes
    → whole (some chunk ∷ rest) ≡ some (chunk ++ bytes)
unfolding whole
whole-cons chunk bytes rest h = rw h

save_body_sound :
    (max : ℕ) (writes : ℕ → Bool) (count : ℕ) (s : Saved) (body : List (Option (List ℕ)))
    → count ≤ max
    → (save_body max writes count s body).0 ≡ ok tt
    → (bytes : List ℕ) × (whole body ≡ some bytes)
      × (count + length bytes ≤ max)
      × (content (save_body max writes count s body).1.file ≡ content s.file ++ bytes)
unfolding whole save_body
save_body_sound max writes count s [] fits h = ([], refl, omega arith, sym (append-nil _))
save_body_sound max writes count s (none ∷ rest) fits h = cc
save_body_sound max writes count s (some chunk ∷ rest) fits h =
    let (step, within) = save_body-step max writes count s chunk rest h in
    let (bytes, all, fit, saved) =
      save_body_sound max writes (count + length chunk) (write_chunk s chunk) rest within
        (ap (λ (o : TransferResult × Saved). o.0) (sym step) ∙ h) in
    (
      chunk ++ bytes,
      whole-cons chunk bytes rest all,
      omega (arith, fit, length-append chunk bytes),
      ap (λ (o : TransferResult × Saved). content o.1.file) step
          ∙ saved
          ∙ append_assoc (content s.file) chunk bytes,
    )

-- The answer was a success of allowed size whose whole body arrived.
pub record IsFetched (env : Env) (max : ℕ) (bytes : List ℕ) : Type 0 where
  pub response : Response
  pub answered : env.send ≡ some response
  pub success : env.classes.is_success response.status ≡ true
  pub declared : declares_more response.content_length max ≡ false
  pub arrived : whole response.body ≡ some bytes
  pub bounded : length bytes ≤ max

flush-ok :
    (flushes : Bool) (o : TransferResult × Saved)
    → (flush flushes o).0 ≡ ok tt
    → (o.0 ≡ ok tt) × (flushes ≡ true) × ((flush flushes o).1 ≡ o.1)
unfolding flush
flush-ok true (ok _, s) h = (refl, refl, refl)
flush-ok false (ok _, s) h = cc
flush-ok flushes (err e, s) h = cc

receive_sound :
    (env : Env) (max : ℕ) (s : Saved) (r : Response)
    → env.send ≡ some r
    → (receive env max s r).0 ≡ ok tt
    → (bytes : List ℕ) × IsFetched env max bytes × (content (receive env max s r).1.file ≡ bytes)
unfolding receive
receive_sound env max s r sent h =
    let o = save_body max env.writes 0 (record s { file = some [] }) r.body in
    let reached : receive env max s r ≡ flush env.flushes o = ground arith in
    let (good, _, kept) =
      flush-ok env.flushes o (ap (λ (q : TransferResult × Saved). q.0) (sym reached) ∙ h) in
    let (bytes, all, fit, saved) =
      save_body_sound max env.writes 0 (record s { file = some [] }) r.body (omega arith) good in
    (
      bytes,
      record {
        response = r;
        answered = sent;
        success = ground arith;
        declared = ground arith;
        arrived = all;
        bounded = omega (arith, fit);
      },
      ap (λ (q : TransferResult × Saved). content q.1.file) reached
          ∙ ap (λ (q : Saved). content q.file) kept
          ∙ saved,
    )

-- A download that succeeds has stored the whole body of a successful answer within the byte
-- limit, and nothing of earlier attempts.
pub download_sound :
    (env : Env) (max : ℕ) (s : Saved)
    → (download env max s).0 ≡ ok tt
    → (bytes : List ℕ) × IsFetched env max bytes × (content (download env max s).1.file ≡ bytes)
unfolding download
download_sound env max s h = elim (Option-cases env.send) [
  | inl e ↦ absurd (ground (arith, e))
  | inr (r, e) ↦
      let reached : download env max s ≡ receive env max s r = ground (arith, e) in
      let (bytes, fetched, saved) =
        receive_sound env max s r e (ap (λ (q : TransferResult × Saved). q.0) (sym reached) ∙ h) in
      (bytes, fetched, ap (λ (q : TransferResult × Saved). content q.1.file) reached ∙ saved)
]

save_body_complete :
    (max : ℕ) (writes : ℕ → Bool) (count : ℕ) (s : Saved) (body : List (Option (List ℕ)))
    (bytes : List ℕ)
    → max ≤ u64_max
    → ((n : ℕ) → writes n ≡ true)
    → whole body ≡ some bytes
    → count + length bytes ≤ max
    → (save_body max writes count s body).0 ≡ ok tt
unfolding save_body whole checked_add
save_body_complete max writes count s [] bytes word w all fit = refl
save_body_complete max writes count s (none ∷ rest) bytes word w all fit = cc
save_body_complete max writes count s (some chunk ∷ rest) bytes word w all fit =
    elim (Option-cases (whole rest)) [
      | inl e ↦ absurd (ground (arith, e))
      | inr (more, e) ↦
          let joined : chunk ++ more ≡ bytes = ground (arith, e) in
          let size = ap length (sym joined) ∙ length-append chunk more in
          ground (
            arith,
            w count,
            size,
            save_body_complete max writes (count + length chunk) (write_chunk s chunk) rest more
                word w e (omega (arith, size)),
          )
    ]

-- Where the file can be created, written and flushed, and the byte limit is a 64-bit number, a
-- successful answer within the limit that arrives whole is always stored.
pub download_complete :
    (env : Env) (max : ℕ) (s : Saved) (bytes : List ℕ)
    → max ≤ u64_max
    → env.creates ≡ true
    → ((n : ℕ) → env.writes n ≡ true)
    → env.flushes ≡ true
    → IsFetched env max bytes
    → (download env max s).0 ≡ ok tt
unfolding download receive flush
download_complete env max s bytes word creates writes flushes f =
    let saved =
      save_body_complete max env.writes 0 (record s { file = some [] }) f.response.body bytes word
        writes f.arrived (omega (arith, f.bounded)) in
    ground (arith, f.answered, f.success, f.declared, saved)
