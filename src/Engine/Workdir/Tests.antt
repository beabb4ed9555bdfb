-- ===== src/Engine/Workdir/Tests.antt =====
-- A work directory with the lock, a job that was left behind, and a file with a job's name.
use ffmpeg_docker_playground.Base.Text.{strip_prefix}
use ffmpeg_docker_playground.Base.{◌≡◌, refl, true, false, some, [], ◌∷◌, ok, String, Bool}
use ffmpeg_docker_playground.Engine.Workdir.{Entry, Workdir, prepare}
use ffmpeg_docker_playground.Engine.Workdir.Laws.{IsStart, prepare-IsStart}

abbrev entry : String → Bool → Entry
entry name is_dir = record { name = name; is_dir = some is_dir; removes = true }

abbrev workdir : Workdir
workdir = record {
  creates = true;
  opens_lock = true;
  locks = true;
  lists = true;
  entries =
      some (entry ".lock" false) ∷ some (entry "job-old" true) ∷ some (entry "job-note" false) ∷ [];
}

cleaned : prepare workdir ≡ (ok tt, some (entry ".lock" false) ∷ some (entry "job-note" false) ∷ [])
unfolding prepare strip_prefix
cleaned = refl

prepare-IsStart_example : IsStart workdir (prepare workdir)
prepare-IsStart_example = prepare-IsStart workdir
