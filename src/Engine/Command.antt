-- ===== src/Engine/Command.antt =====
-- agent/src/engine.rs: the arguments that `execute` gives to FFmpeg.
pub mod Laws
use ffmpeg_docker_playground.Base.{List, [], ◌∷◌, ◌++◌, String, ◌==◌, if◌then◌else◌}

abbrev pub fixed_args : List String
fixed_args =
    "-nostdin" ∷ "-hide_banner" ∷ "-nostats" ∷ "-progress" ∷ "pipe:1" ∷ "-stats_period" ∷ "1" ∷ "-y"
    ∷ []

-- The limit is the text of `max_output`; the paths are those of the job's directory.
module _ (limit input output : String) where
  unfoldable pub substitute : List String → List String
  substitute [] = []
  substitute (arg ∷ args) =
      if arg == "{input}"
      then input ∷ substitute args
      else if arg == "{output}"
      then "-fs" ∷ limit ∷ output ∷ substitute args
      else arg ∷ substitute args

  unfoldable pub command_args : List String → List String
  unfolding substitute
  command_args args = fixed_args ++ substitute args
