-- ===== src/Engine/Execute.antt =====
-- agent/src/engine.rs: `execute`, a job from its directory to the receipt of its output. The calls
-- of the system and the network are arguments, one for each attempt where there are several.
pub mod Laws
pub mod Done
pub mod Tests
use ffmpeg_docker_playground.Base.{
  ℕ, zero, suc, ◌+◌, Bool, true, false, not, ◌||◌, Option, none, some, List, String, nat_eq, leb,
  Result, ok, err, if◌then◌else◌,
}
use ffmpeg_docker_playground.Base.Text.Split.{◌++ₛ◌}
use ffmpeg_docker_playground.Model.Types.{Job}
use ffmpeg_docker_playground.Model.Types as Types
use ffmpeg_docker_playground.Engine.Retry.{TransferResult, Outcome, retry_transfer}
use ffmpeg_docker_playground.Engine.Log.{log_limit, Log, read_log_from}
use ffmpeg_docker_playground.Engine.Command.{command_args}
use ffmpeg_docker_playground.Engine.Download as Download
use ffmpeg_docker_playground.Engine.Upload as Upload

-- What the process leaves: what was read of its log, whether waiting and reading went well, its
-- exit code (`none` behind a signal), and the size of the output file, if there is one.
pub record Exit : Type 0 where
  pub log : List (List ℕ)
  pub joined : Bool
  pub code : Option ℕ
  pub size : Option ℕ

-- The directory of the job, the attempts at the two transfers, the pause between two of them,
-- whether the process starts with its pipes, its run on its arguments, the limits, and the digits
-- of a number.
pub record Machine : Type 0 where
  pub directory : Option String
  pub downloads : ℕ → Download.Env
  pub spawns : Bool
  pub run : List String → Exit
  pub uploads : ℕ → Upload.Env
  pub max_input : ℕ
  pub max_output : ℕ
  pub show : ℕ → String

-- The part of `Active` that `execute` changes, with the files of the job and the local `size`; the
-- counts are those of the attempts made, and the touches in `saved` those of both transfers.
pub record Progress : Type 0 where
  pub phase : String
  pub log : Log
  pub outcome : Types.Outcome
  pub saved : Download.Saved
  pub size : ℕ
  pub downloads : ℕ
  pub uploads : ℕ

-- `failed` is the error that `execute` returns; `panicked` the end of a loop of attempts that may
-- not be reached.
pub data Stop : Type 0 where
  failed : String → Stop
  panicked : Stop

-- `phase`, but for its `touch`.
abbrev pub enter : String → Progress → Progress
enter phase p = record p { phase = phase }

abbrev pub stop_of : Outcome → Result Stop (Unit {0})
stop_of none = err panicked
stop_of (some (ok _)) = ok tt
stop_of (some (err message)) = err (failed message)

-- The part behind a `?`.
unfoldable pub and_then :
    Result Stop (Unit {0}) × Progress
    → (Progress → Result Stop (Unit {0}) × Progress)
    → Result Stop (Unit {0}) × Progress
and_then (err e, p) next = (err e, p)
and_then (ok _, p) next = next p

-- `status.success()` is an exit code of zero.
abbrev pub succeeded : Option ℕ → Bool
succeeded none = false
succeeded (some code) = nat_eq code 0

-- Nothing of this state changes in a pause.
abbrev pub pause : ℕ → Progress → Progress
pause delay p = p

module _ (m : Machine) (job : Job) where
  unfoldable pub download_once : Progress → TransferResult × Progress
  download_once p =
      let (r, saved) = Download.download (m.downloads p.downloads) m.max_input p.saved in
      (r, record p { saved = saved; downloads = p.downloads + 1 })

  unfoldable pub upload_once : Progress → TransferResult × Progress
  upload_once p =
      let (r, sent) =
        Upload.upload (m.uploads p.uploads) p.size
          (record { outcome = p.outcome; touches = p.saved.touches }) in
      (
        r,
        record p {
          outcome = sent.outcome;
          saved = record p.saved { touches = sent.touches };
          uploads = p.uploads + 1;
        },
      )

  unfoldable pub download_input : Progress → Result Stop (Unit {0}) × Progress
  unfolding download_once
  download_input p =
      let (o, q) = retry_transfer download_once pause job.input.retry (enter "downloading" p) in
      (stop_of o, q)

  unfoldable pub upload_output : Progress → Result Stop (Unit {0}) × Progress
  unfolding upload_once
  upload_output p =
      let (o, q) = retry_transfer upload_once pause job.output.retry (enter "uploading" p) in
      (stop_of o, q)

  -- The output file of a process that has ended well.
  unfoldable pub check_output : Option ℕ → Progress → Result Stop (Unit {0}) × Progress
  check_output none p = (err (failed "FFmpeg produced no output"), p)
  check_output (some size) p =
      if nat_eq size 0 || leb m.max_output size
      then (err (failed "output is empty or reached byte limit"), p)
      else (ok tt, record p { size = size })

  -- `try_join!`, and what follows it.
  unfoldable pub conclude : Exit → Progress → Result Stop (Unit {0}) × Progress
  unfolding check_output
  conclude exit p =
      let read = record p { log = read_log_from log_limit p.log exit.log } in
      let left = record read { outcome = record p.outcome { ffmpeg_exit_code = exit.code } } in
      if not exit.joined
      then (err (failed "FFmpeg process I/O failed"), read)
      else if not (succeeded exit.code)
      then (err (failed "FFmpeg exited unsuccessfully"), left)
      else check_output exit.size left

  -- The paths of the input and of the output in the directory.
  abbrev pub paths : String → String × String
  paths dir = (dir ++ₛ "/input", dir ++ₛ "/output." ++ₛ job.output_extension)

  abbrev pub exit_of : String → Exit
  exit_of dir = m.run (command_args (m.show m.max_output) (paths dir).0 (paths dir).1 job.args)

  unfoldable pub encode : String → Progress → Result Stop (Unit {0}) × Progress
  unfolding conclude
  encode dir p =
      if not m.spawns
      then (err (failed "cannot start FFmpeg"), enter "encoding" p)
      else conclude (exit_of dir) (enter "encoding" p)

  unfoldable pub execute : Progress → Result Stop (Unit {0}) × Progress
  unfolding and_then download_input encode upload_output
  execute p = elim m.directory [
    | none ↦ (err (failed "cannot create job directory"), p)
    | some dir ↦ and_then (and_then (download_input p) (encode dir)) upload_output
  ]
