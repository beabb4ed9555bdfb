-- ===== src/Engine/Execute/Laws.antt =====
-- What stands behind an upload, and behind a job that succeeds.
use ffmpeg_docker_playground.Base.{
  ℕ, ◌<◌, ◌≡◌, refl, sym, ap, ◌∙◌, subst, ◌≢◌, ◌⊎◌, Bool, true, false, Option, none, some, List,
  String, Result, ok, err, Option-cases, inl, inr, arith,
}
use ffmpeg_docker_playground.Model.Types.{Job}
use ffmpeg_docker_playground.Engine.Retry.{TransferResult, Outcome, retry_transfer}
use ffmpeg_docker_playground.Engine.Retry.Loop.{retry_transfer-succeeded, retry_transfer-kept}
use ffmpeg_docker_playground.Engine.Log.{log_limit, read_log_from}
use ffmpeg_docker_playground.Engine.Download as Download
use ffmpeg_docker_playground.Engine.Download.Laws.{IsFetched, download_sound}
use ffmpeg_docker_playground.Engine.Execute.{
  Exit, Machine, Progress, Stop, failed, enter, stop_of, and_then, succeeded, pause, download_once,
  download_input, upload_output, check_output, conclude, exit_of, encode, execute,
}

yes : (b : Bool) → (b ≡ false → ⊥) → b ≡ true
yes true h = refl
yes false h = absurd (h refl)

pub stop_of-ok : (o : Outcome) → stop_of o ≡ ok tt → o ≡ some (ok tt)
stop_of-ok none h = cc
stop_of-ok (some (ok _)) h = refl
stop_of-ok (some (err e)) h = cc

abbrev pub Res : Type 0
Res = Result Stop (Unit {0}) × Progress

pub clash : {e : Stop} {r : Result Stop (Unit {0})} → r ≡ err e → r ≡ ok tt → ⊥
clash h k = cc

pub and_then-cases :
    (r : Res) (next : Progress → Res)
    → ((e : Stop) × (r.0 ≡ err e) × (and_then r next ≡ (err e, r.1)))
      ⊎ ((r.0 ≡ ok tt) × (and_then r next ≡ next r.1))
unfolding and_then
and_then-cases (ok _, p) next = inr (refl, refl)
and_then-cases (err e, p) next = inl (e, refl, refl)

pub and_then-kept :
    (P : Progress → Type 0) (r : Res) (next : Progress → Res)
    → P r.1
    → ((q : Progress) → P q → P (next q).1)
    → P (and_then r next).1
unfolding and_then
and_then-kept P (ok _, p) next h k = k p h
and_then-kept P (err e, p) next h k = h

module _ (m : Machine) (job : Job) where
  -- A whole input is in the directory, FFmpeg has exited with zero, and its output is neither empty
  -- nor at the limit.
  pub record IsEncoded (exit : Exit) (q : Progress) : Type 0 where
    pub attempt : ℕ
    pub bytes : List ℕ
    pub fetched : IsFetched (m.downloads attempt) m.max_input bytes
    pub stored : Download.content q.saved.file ≡ bytes
    pub joined : exit.joined ≡ true
    pub exited : exit.code ≡ some 0
    pub reported : q.outcome.ffmpeg_exit_code ≡ some 0
    pub sized : exit.size ≡ some q.size
    pub filled : 0 < q.size
    pub bounded : q.size < m.max_output

  IsStored : Progress → Type 0
  IsStored q =
      (attempt : ℕ) × (bytes : List ℕ) × IsFetched (m.downloads attempt) m.max_input bytes
      × (Download.content q.saved.file ≡ bytes)

  download_input_sound :
      (p : Progress) → (download_input m job p).0 ≡ ok tt → IsStored (download_input m job p).1
  unfolding download_input download_once IsStored
  download_input_sound p h =
      let start = enter "downloading" p in
      let last = retry_transfer (download_once m job) pause job.input.retry start in
      let (s, _, e) =
        retry_transfer-succeeded (download_once m job) pause (λ _. Unit {0}) (λ s _. tt)
          (λ d s _. tt) job.input.retry start tt (stop_of-ok last.0 h) in
      let (bytes, fetched, stored) =
        download_sound (m.downloads s.downloads) m.max_input s.saved
          (ap (λ (o : TransferResult × Progress). o.0) e) in
      (
        s.downloads,
        bytes,
        fetched,
        ap (λ (o : TransferResult × Progress). Download.content o.1.saved.file) (sym e) ∙ stored,
      )

  succeeded-zero : (code : Option ℕ) → succeeded code ≡ true → code ≡ some 0
  succeeded-zero none h = cc
  succeeded-zero (some code) h = ground arith

  check_output_sound :
      (size : Option ℕ) (p : Progress)
      → (check_output m job size p).0 ≡ ok tt
      → (n : ℕ) × (size ≡ some n)
        × (0 < n)
        × (n < m.max_output)
        × ((check_output m job size p).1 ≡ record p { size = n })
  unfolding check_output
  check_output_sound none p h = cc
  check_output_sound (some n) p h = (n, refl, ground arith, ground arith, ground arith)

  conclude_sound :
      (exit : Exit) (p : Progress)
      → IsStored p
      → (conclude m job exit p).0 ≡ ok tt
      → IsEncoded exit (conclude m job exit p).1
  unfolding conclude IsStored
  conclude_sound exit p (attempt, bytes, fetched, stored) h =
      let joined : exit.joined ≡ true = yes exit.joined (λ e. ground (arith, e)) in
      let good : succeeded exit.code ≡ true =
        yes (succeeded exit.code) (λ e. ground (arith, joined, e)) in
      let left : Progress = record p {
        log = read_log_from log_limit p.log exit.log;
        outcome = record p.outcome { ffmpeg_exit_code = exit.code };
      } in
      let e : conclude m job exit p ≡ check_output m job exit.size left =
        rw (joined, good, conclude) refl in
      let (size, sized, filled, bounded, same) =
        check_output_sound exit.size left
          (ap (λ (o : Result Stop (Unit {0}) × Progress). o.0) (sym e) ∙ h) in
      let zero_code = succeeded-zero exit.code good in
      subst (IsEncoded exit) (sym (ap (λ (o : Result Stop (Unit {0}) × Progress). o.1) e ∙ same))
        (record {
          attempt = attempt;
          bytes = bytes;
          fetched = fetched;
          stored = stored;
          joined = joined;
          exited = zero_code;
          reported = zero_code;
          sized = sized;
          filled = filled;
          bounded = bounded;
        })

  encode_sound :
      (dir : String) (p : Progress)
      → IsStored p
      → (encode m job dir p).0 ≡ ok tt
      → IsEncoded (exit_of m job dir) (encode m job dir p).1
  unfolding encode IsStored
  encode_sound dir p stored h =
      let spawned : m.spawns ≡ true = yes m.spawns (λ e. ground (arith, e)) in
      let e : encode m job dir p ≡ conclude m job (exit_of m job dir) (enter "encoding" p) =
        rw (spawned, encode) refl in
      subst (λ (o : Result Stop (Unit {0}) × Progress). IsEncoded (exit_of m job dir) o.1) (sym e)
        (conclude_sound (exit_of m job dir) (enter "encoding" p) stored
          (ap (λ (o : Result Stop (Unit {0}) × Progress). o.0) (sym e) ∙ h))

  download_once-uploads :
      (n : ℕ) (p : Progress) → p.uploads ≡ n → (download_once m job p).1.uploads ≡ n
  unfolding download_once
  download_once-uploads n p e = e

  check_output-same :
      (size : Option ℕ) (p : Progress) → (check_output m job size p).1.uploads ≡ p.uploads
  unfolding check_output
  check_output-same none p = refl
  check_output-same (some n) p = ground arith

  conclude-uploads : (exit : Exit) (p : Progress) → (conclude m job exit p).1.uploads ≡ p.uploads
  unfolding conclude
  conclude-uploads exit p =
      let left : Progress = record p {
        log = read_log_from log_limit p.log exit.log;
        outcome = record p.outcome { ffmpeg_exit_code = exit.code };
      } in
      ground (arith, check_output-same exit.size left)

  encode-uploads : (dir : String) (p : Progress) → (encode m job dir p).1.uploads ≡ p.uploads
  unfolding encode
  encode-uploads dir p = ground (arith, conclude-uploads (exit_of m job dir) (enter "encoding" p))

  -- Neither the download nor the encoding uploads anything.
  prepare-uploads :
      (dir : String) (p : Progress)
      → (and_then (download_input m job p) (encode m job dir)).1.uploads ≡ p.uploads
  unfolding download_input
  prepare-uploads dir p =
      and_then-kept (λ q. q.uploads ≡ p.uploads) (download_input m job p) (encode m job dir)
        (retry_transfer-kept (download_once m job) pause (λ q. q.uploads ≡ p.uploads)
          (download_once-uploads p.uploads) (λ d q e. e) job.input.retry (enter "downloading" p)
          refl)
        (λ q e. encode-uploads dir q ∙ e)

  pub prepare_sound :
      (dir : String) (p : Progress)
      → (and_then (download_input m job p) (encode m job dir)).0 ≡ ok tt
      → IsEncoded (exit_of m job dir) (and_then (download_input m job p) (encode m job dir)).1
  prepare_sound dir p h = elim (and_then-cases (download_input m job p) (encode m job dir)) [
    | inl (e, d, whole) ↦ absurd (clash (ap (λ (o : Res). o.0) whole) h)
    | inr (d, whole) ↦
        subst (λ (o : Res). IsEncoded (exit_of m job dir) o.1) (sym whole)
          (encode_sound dir (download_input m job p).1 (download_input_sound p d)
            (ap (λ (o : Res). o.0) (sym whole) ∙ h))
  ]

  -- An execution that makes an attempt to upload has a directory and has passed a point where
  -- the whole input was stored, FFmpeg had exited with zero, and its output was neither empty
  -- nor at the limit.
  pub uploads_need_output :
      (p : Progress)
      → (execute m job p).1.uploads ≢ p.uploads
      → (dir : String) × (q : Progress) × (m.directory ≡ some dir) × IsEncoded (exit_of m job dir) q
  unfolding execute
  uploads_need_output p more = elim (Option-cases m.directory) [
    | inl e ↦
        let stopped : execute m job p ≡ (err (failed "cannot create job directory"), p) =
          rw (e, execute) refl in
        absurd (more (ap (λ (o : Res). o.1.uploads) stopped))
    | inr (dir, e) ↦
        let before = and_then (download_input m job p) (encode m job dir) in
        let all : execute m job p ≡ and_then before (upload_output m job) = rw (e, execute) refl in
        elim (and_then-cases before (upload_output m job)) [
          | inl (_, _, whole) ↦
              absurd (more (ap (λ (o : Res). o.1.uploads) (all ∙ whole) ∙ prepare-uploads dir p))
          | inr (d, _) ↦ (dir, before.1, e, prepare_sound dir p d)
        ]
  ]
