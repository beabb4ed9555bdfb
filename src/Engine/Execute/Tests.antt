-- ===== src/Engine/Execute/Tests.antt =====
-- A job whose input arrives at the second attempt, and whose output is received.
use ffmpeg_docker_playground.Base.{◌≡◌, refl, nat_eq, true, none, some, [], ◌∷◌, ok, if◌then◌else◌}
use ffmpeg_docker_playground.Base.Words.{checked_add}
use ffmpeg_docker_playground.Model.Types.{Job}
use ffmpeg_docker_playground.Model.Tests as JobTests
use ffmpeg_docker_playground.Engine.Retry.{retry_transfer}
use ffmpeg_docker_playground.Engine.Download as Download
use ffmpeg_docker_playground.Engine.Upload as Upload
use ffmpeg_docker_playground.Engine.Tests as TransferTests
use ffmpeg_docker_playground.Engine.Execute.{Exit, Machine, Progress, execute}
use ffmpeg_docker_playground.Engine.Execute.Done.{IsDone, execute_sound}

abbrev exit : Exit
exit = record { log = (5 ∷ []) ∷ []; joined = true; code = some 0; size = some 9 }

abbrev received : Upload.Answer
received = record { status = 201; headers = []; body = [] }

abbrev pub machine : Machine
machine = record {
  directory = some "/work/job-1";
  downloads = λ n.
      if nat_eq n 0 then record TransferTests.network { send = none } else TransferTests.network;
  spawns = true;
  run = λ args. exit;
  uploads = λ n. record TransferTests.server {
    send = λ put. record { pulled = 2; answer = some received };
  };
  max_input = 10;
  max_output = 100;
  show = λ n. "100";
}

abbrev pub begun : Progress
begun = record {
  phase = "queued";
  log = record { log = []; log_tail = [] };
  outcome = record TransferTests.nothing { ffmpeg_exit_code = none };
  saved = record { file = none; touches = 0 };
  size = 0;
  downloads = 0;
  uploads = 0;
}

abbrev pub job : Job
job = JobTests.job

pub succeeds : (execute machine job begun).0 ≡ ok tt
unfolding execute Download.download Upload.upload checked_add retry_transfer
succeeds = refl

attempts :
    ((execute machine job begun).1.downloads ≡ 2) × ((execute machine job begun).1.uploads ≡ 1)
unfolding execute Download.download Upload.upload checked_add retry_transfer
attempts = (refl, refl)

execute_sound_example : IsDone machine job (execute machine job begun).1
execute_sound_example = execute_sound machine job begun succeeds
