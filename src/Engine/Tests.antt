-- ===== src/Engine/Tests.antt =====
-- Transfers against a toy network, and the output of a toy FFmpeg.
use ffmpeg_docker_playground.Base.Text.{parse_u64, split_once, trim}
use ffmpeg_docker_playground.Base.Words.{checked_add}
use ffmpeg_docker_playground.Base.Cut.{keep_last}
use ffmpeg_docker_playground.Base.Words.{u64_max}
use ffmpeg_docker_playground.Base.{
  All, ◌++◌, String, Option, length, nat_eq, ℕ, ◌≤◌, ◌≡◌, refl, true, false, none, some, List, [],
  ◌∷◌, ltb, leb, take, drop, ◌&&◌, ◌+◌, ok, err, if◌then◌else◌, arith,
}
use ffmpeg_docker_playground.Model.Types.{Retry, Outcome}
use ffmpeg_docker_playground.Model.Endpoint.Laws.{IsBounded}
use ffmpeg_docker_playground.Engine.Retry.{
  StatusClass, TransferResult, retry_status, attempt_from, retry_transfer,
}
use ffmpeg_docker_playground.Engine.Retry.Laws.{IsCourse, retry_transfer-IsCourse}
use ffmpeg_docker_playground.Engine.Log.{log_limit, read_log}
use ffmpeg_docker_playground.Engine.Log.Laws.{concat, read_log_lem}
use ffmpeg_docker_playground.Engine.Progress.{fresh, read_progress}
use ffmpeg_docker_playground.Engine.Progress.Laws.{finished_lines, judge_all, read_progress_lem}
use ffmpeg_docker_playground.Model.Job.Args.{IsPlain, IsCommand}
use ffmpeg_docker_playground.Engine.Notify.{notify}
use ffmpeg_docker_playground.Engine.Notify.Laws.{transfer, outcome_of, notify_lem}
use ffmpeg_docker_playground.Engine.Command.{fixed_args, command_args}
use ffmpeg_docker_playground.Engine.Command.Laws.{command_args_lem}
use ffmpeg_docker_playground.Engine.Download as Download
use ffmpeg_docker_playground.Engine.Download.Laws.{
  whole, IsWithin, IsFetched, download-IsWithin, download_sound, download_complete,
}
use ffmpeg_docker_playground.Engine.Upload as Upload
use ffmpeg_docker_playground.Engine.Upload.Laws.{upload_lem}

abbrev pub classes : StatusClass
classes = record {
  is_success = λ n. leb 200 n && ltb n 300;
  is_server_error = λ n. leb 500 n && ltb n 600;
}

-- The state counts attempts and pauses; the second attempt succeeds.
abbrev attempt : ℕ → TransferResult × ℕ
attempt n = if ltb n 2 then (err ("not yet", true), n + 1) else (ok tt, n + 1)

abbrev pause : ℕ → ℕ → ℕ
pause delay n = n + 1

abbrev retry : Retry
retry = record { max_attempts = 3; delay_ms = 500 }

bounded : IsBounded retry
bounded = record {
  some_attempt = omega arith;
  few_attempts = omega arith;
  short_delay = omega arith;
}

retry_transfer-IsCourse_example :
    (c : IsCourse attempt pause 500 3 1 (retry_transfer attempt pause (some retry) 1)) × (1
      ≤ c.made)
    × (c.made ≤ 3)
retry_transfer-IsCourse_example = retry_transfer-IsCourse attempt pause (some retry) 1 bounded

abbrev response : Download.Response
response = record {
  status = 200;
  content_length = some 3;
  body = some (1 ∷ 2 ∷ []) ∷ some (3 ∷ []) ∷ [];
}

abbrev pub network : Download.Env
network = record {
  classes = classes;
  send = some response;
  creates = true;
  writes = λ n. true;
  flushes = true;
}

-- What an earlier, interrupted attempt left.
abbrev before : Download.Saved
before = record { file = some (9 ∷ []); touches = 1 }

before-IsWithin : IsWithin 10 before
before-IsWithin = omega arith

downloaded : (Download.download network 10 before).0 ≡ ok tt
unfolding Download.download checked_add
downloaded = refl

fetched : IsFetched network 10 (1 ∷ 2 ∷ 3 ∷ [])
unfolding whole
fetched = record {
  response = response;
  answered = refl;
  success = refl;
  declared = refl;
  arrived = refl;
  bounded = omega arith;
}

download-IsWithin_example : IsWithin 10 (Download.download network 10 before).1
download-IsWithin_example = download-IsWithin network 10 before before-IsWithin

download_sound_example :
    (bytes : List ℕ) × IsFetched network 10 bytes
    × (Download.content (Download.download network 10 before).1.file ≡ bytes)
download_sound_example = download_sound network 10 before downloaded

ten_fits : 10 ≤ u64_max
ten_fits = omega arith

download_complete_example : (Download.download network 10 before).0 ≡ ok tt
download_complete_example =
    download_complete network 10 before (1 ∷ 2 ∷ 3 ∷ []) ten_fits refl (λ n. refl) refl fetched

abbrev answer : Upload.Answer
answer = record {
  status = 503;
  headers = ("retry-after", 0x31 ∷ []) ∷ [];
  body = some (1 ∷ []) ∷ some (2 ∷ []) ∷ [];
}

abbrev output : List (Option (List ℕ))
output = some (7 ∷ 8 ∷ []) ∷ some (9 ∷ []) ∷ some [] ∷ []

-- The client gives up the file behind its first read, since the answer is there.
abbrev pub server : Upload.Env
server = record {
  classes = classes;
  opens = some output;
  send = λ put. record { pulled = 1; answer = some answer };
  encode = λ bytes. "encoded";
}

abbrev pub nothing : Outcome
nothing = record { error = none; ffmpeg_exit_code = some 0; upload_response = none }

abbrev unsent : Upload.Sent
unsent = record { outcome = nothing; touches = 4 }

arrives : whole answer.body ≡ some (1 ∷ 2 ∷ [])
unfolding whole
arrives = refl

touched_thrice : (Upload.upload server 3 unsent).1.touches ≡ 7
unfolding Upload.upload
touched_thrice = refl

upload_lem_example :
    ((Upload.upload server 3 unsent).0 ≡ (
      if Upload.is_2xx 503
      then ok tt
      else err ("output PUT returned non-success status", retry_status classes 503)))
    × ((Upload.upload server 3 unsent).1.outcome ≡ record nothing {
      upload_response = some (Upload.receipt server answer (1 ∷ 2 ∷ []) false);
    })
upload_lem_example = upload_lem server 3 unsent output answer (1 ∷ 2 ∷ []) refl refl arrives

abbrev reads : List (List ℕ)
reads = (1 ∷ 2 ∷ []) ∷ (3 ∷ []) ∷ []

read_log_lem_example :
    ((read_log reads).log ≡ take log_limit (concat reads))
    × ((read_log reads).log_tail ≡ keep_last log_limit (drop log_limit (concat reads)))
read_log_lem_example = read_log_lem reads

-- A decoding that knows one line.
abbrev text_of_line : List ℕ → Option String
text_of_line line = if nat_eq (length line) 2 then some "frame=7" else none

abbrev progress : List (List ℕ)
progress = (1 ∷ []) ∷ (2 ∷ b'\n' ∷ 3 ∷ []) ∷ []

watched : (read_progress text_of_line fresh progress).maxima.frame ≡ 7
unfolding read_progress split_once trim parse_u64
watched = refl

read_progress_lem_example :
    (
      (read_progress text_of_line fresh progress).maxima,
      (read_progress text_of_line fresh progress).touches,
    )
    ≡ judge_all text_of_line (fresh.maxima, 0) (finished_lines [] (concat progress))
read_progress_lem_example = read_progress_lem text_of_line progress

-- The server answers 503 until the second attempt.
abbrev send_event : ℕ → Option ℕ × ℕ
send_event n = if ltb n 2 then (some 503, n + 1) else (some 200, n + 1)

notify_lem_example :
    notify classes send_event pause none true 1
    ≡ outcome_of classes send_event pause
        (attempt_from (transfer classes send_event pause) pause 3 0 3 1000 1)
notify_lem_example = notify_lem classes send_event pause none true 1 (omega arith)

abbrev pub arguments : List String
arguments = "-i" ∷ "{input}" ∷ "-vn" ∷ "{output}" ∷ []

vn-IsPlain : All IsPlain ("-vn" ∷ [])
vn-IsPlain = ((λ e. cc, λ e. cc, λ e. cc), tt)

abbrev command : IsCommand arguments
command = record {
  before = [];
  middle = "-vn" ∷ [];
  shape = refl;
  plain_before = tt;
  plain_middle = vn-IsPlain;
}

command_args_lem_example :
    command_args "10" "/in" "/out" arguments
    ≡ fixed_args ++ ("-i" ∷ "/in" ∷ ("-vn" ∷ "-fs" ∷ "10" ∷ "/out" ∷ []))
command_args_lem_example = command_args_lem "10" "/in" "/out" arguments command
