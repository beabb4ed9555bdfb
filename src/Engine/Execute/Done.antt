-- ===== src/Engine/Execute/Done.antt =====
-- A job that succeeds, and a job of validated endpoints.
use ffmpeg_docker_playground.Base.{
  ℕ, ◌≡◌, refl, sym, ap, ◌∙◌, subst, ◌≢◌, Option, none, some, String, Result, ok, err, Option-cases,
  inl, inr, arith,
}
use ffmpeg_docker_playground.Model.Types.{Job}
use ffmpeg_docker_playground.Model.Endpoint.Laws.{RetryIsBounded}
use ffmpeg_docker_playground.Engine.Retry.{TransferResult, Outcome, retry_transfer}
use ffmpeg_docker_playground.Engine.Retry.Laws.{retry_transfer-IsCourse}
use ffmpeg_docker_playground.Engine.Retry.Loop.{retry_transfer-succeeded, retry_transfer-kept}
use ffmpeg_docker_playground.Engine.Log.{log_limit, read_log_from}
use ffmpeg_docker_playground.Engine.Upload.Laws.{IsTaken, upload-ok, upload-code}
use ffmpeg_docker_playground.Engine.Execute.{
  Exit, Machine, Progress, failed, panicked, enter, stop_of, and_then, pause, download_once,
  upload_once, download_input, upload_output, check_output, conclude, exit_of, encode, execute,
}
use ffmpeg_docker_playground.Engine.Execute.Laws.{
  Res, IsEncoded, stop_of-ok, clash, and_then-cases, prepare_sound,
}

stop_of-returned :
    (o : Outcome) (r : Result String (Unit {0})) → o ≡ some r → stop_of o ≢ err panicked
stop_of-returned none r h k = cc
stop_of-returned (some (ok _)) r h k = cc
stop_of-returned (some (err e)) r h k = cc

module _ (m : Machine) (job : Job) where
  -- Everything up to the receipt.
  pub record IsDone (p : Progress) : Type 0 where
    pub dir : String
    pub directory : m.directory ≡ some dir
    pub before : Progress
    pub encoded : IsEncoded m job (exit_of m job dir) before
    pub attempt : ℕ
    pub taken : IsTaken (m.uploads attempt) before.size p.outcome
    pub exit_code : p.outcome.ffmpeg_exit_code ≡ some 0

  upload_once-code :
      (code : Option ℕ) (p : Progress)
      → p.outcome.ffmpeg_exit_code ≡ code
      → (upload_once m job p).1.outcome.ffmpeg_exit_code ≡ code
  unfolding upload_once
  upload_once-code code p e =
      upload-code (m.uploads p.uploads) p.size
        (record { outcome = p.outcome; touches = p.saved.touches })
      ∙ e

  upload_output-code :
      (p : Progress)
      → (upload_output m job p).1.outcome.ffmpeg_exit_code ≡ p.outcome.ffmpeg_exit_code
  unfolding upload_output
  upload_output-code p =
      retry_transfer-kept (upload_once m job) pause
        (λ q. q.outcome.ffmpeg_exit_code ≡ p.outcome.ffmpeg_exit_code)
        (upload_once-code p.outcome.ffmpeg_exit_code) (λ d q e. e) job.output.retry
        (enter "uploading" p) refl

  upload_output_sound :
      (p : Progress)
      → (upload_output m job p).0 ≡ ok tt
      → (n : ℕ) × IsTaken (m.uploads n) p.size (upload_output m job p).1.outcome
  unfolding upload_output upload_once
  upload_output_sound p h =
      let start = enter "uploading" p in
      let last = retry_transfer (upload_once m job) pause job.output.retry start in
      let (s, same, e) =
        retry_transfer-succeeded (upload_once m job) pause (λ q. q.size ≡ p.size) (λ q k. k)
          (λ d q k. k) job.output.retry start refl (stop_of-ok last.0 h) in
      let taken =
        upload-ok (m.uploads s.uploads) s.size
          (record { outcome = s.outcome; touches = s.saved.touches })
          (ap (λ (o : TransferResult × Progress). o.0) e) in
      (
        s.uploads,
        subst (λ n. IsTaken (m.uploads s.uploads) n last.1.outcome) same
            (subst
              (λ (o : TransferResult × Progress). IsTaken (m.uploads s.uploads) s.size o.1.outcome)
              e taken),
      )

  -- A job whose execution succeeds has had its whole input stored within the byte limit, FFmpeg
  -- exited with zero and left an output that is neither empty nor at the limit, and the server
  -- answered a request with the reads of the output file and with its size by a 2xx status; the
  -- outcome has the receipt of that answer and the exit code.
  pub execute_sound : (p : Progress) → (execute m job p).0 ≡ ok tt → IsDone (execute m job p).1
  unfolding execute
  execute_sound p h = elim (Option-cases m.directory) [
    | inl e ↦
        let stopped : execute m job p ≡ (err (failed "cannot create job directory"), p) =
          rw (e, execute) refl in
        absurd (clash (ap (λ (o : Res). o.0) stopped) h)
    | inr (dir, e) ↦
        let before = and_then (download_input m job p) (encode m job dir) in
        let all : execute m job p ≡ and_then before (upload_output m job) = rw (e, execute) refl in
        elim (and_then-cases before (upload_output m job)) [
          | inl (_, _, whole) ↦ absurd (clash (ap (λ (o : Res). o.0) (all ∙ whole)) h)
          | inr (d, whole) ↦
              let encoded = prepare_sound m job dir p d in
              let (attempt, taken) =
                upload_output_sound before.1 (ap (λ (o : Res). o.0) (sym (all ∙ whole)) ∙ h) in
              subst (λ (o : Res). IsDone o.1) (sym (all ∙ whole))
                (record {
                  dir = dir;
                  directory = e;
                  before = before.1;
                  encoded = encoded;
                  attempt = attempt;
                  taken = taken;
                  exit_code = upload_output-code before.1 ∙ encoded.reported;
                })
        ]
  ]

  IsCalm : Res → Type 0
  IsCalm r = r.0 ≢ err panicked

  and_then-IsCalm :
      (r : Res) (next : Progress → Res)
      → IsCalm r
      → ((q : Progress) → IsCalm (next q))
      → IsCalm (and_then r next)
  unfolding and_then IsCalm
  and_then-IsCalm (ok _, p) next h k = k p
  and_then-IsCalm (err e, p) next h k = h

  download_input-IsCalm :
      (p : Progress) → RetryIsBounded job.input.retry → IsCalm (download_input m job p)
  unfolding download_input IsCalm
  download_input-IsCalm p b =
      let (c, _, _) =
        retry_transfer-IsCourse (download_once m job) pause job.input.retry (enter "downloading" p)
          b in
      stop_of-returned _ c.result c.returned

  upload_output-IsCalm :
      (p : Progress) → RetryIsBounded job.output.retry → IsCalm (upload_output m job p)
  unfolding upload_output IsCalm
  upload_output-IsCalm p b =
      let (c, _, _) =
        retry_transfer-IsCourse (upload_once m job) pause job.output.retry (enter "uploading" p)
          b in
      stop_of-returned _ c.result c.returned

  check_output-IsCalm : (size : Option ℕ) (p : Progress) → IsCalm (check_output m job size p)
  unfolding check_output IsCalm
  check_output-IsCalm none p h = cc
  check_output-IsCalm (some n) p h = ground arith

  conclude-IsCalm : (exit : Exit) (p : Progress) → IsCalm (conclude m job exit p)
  unfolding conclude IsCalm
  conclude-IsCalm exit p =
      let left : Progress = record p {
        log = read_log_from log_limit p.log exit.log;
        outcome = record p.outcome { ffmpeg_exit_code = exit.code };
      } in
      let last = check_output-IsCalm exit.size left in λ h. ground (arith, last)

  encode-IsCalm : (dir : String) (p : Progress) → IsCalm (encode m job dir p)
  unfolding encode IsCalm
  encode-IsCalm dir p =
      let last = conclude-IsCalm (exit_of m job dir) (enter "encoding" p) in
      λ h. ground (arith, last)

  -- With the retries of validated endpoints, an execution never reaches the end of a loop of
  -- attempts that the code declares unreachable.
  pub execute-IsCalm :
      (p : Progress)
      → RetryIsBounded job.input.retry
      → RetryIsBounded job.output.retry
      → (execute m job p).0 ≢ err panicked
  unfolding execute IsCalm
  execute-IsCalm p input output = elim (Option-cases m.directory) [
    | inl e ↦ λ h. ground (arith, e)
    | inr (dir, e) ↦
        let calm =
          and_then-IsCalm (and_then (download_input m job p) (encode m job dir))
            (upload_output m job)
            (and_then-IsCalm (download_input m job p) (encode m job dir)
              (download_input-IsCalm p input) (encode-IsCalm dir))
            (λ q. upload_output-IsCalm q output) in
        rw (e, execute) calm
  ]
