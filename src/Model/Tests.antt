-- ===== src/Model/Tests.antt =====
-- One job through the validation, with a toy reading of URLs and headers.
use ffmpeg_docker_playground.Model.Job.{is_bad_extension, is_bad_id, is_oversized}
use ffmpeg_docker_playground.Base.{contains}
use ffmpeg_docker_playground.Base.Text.{bytes}
use ffmpeg_docker_playground.Base.{◌≡◌, refl, ◌↔◌, true, none, some, List, [], ◌∷◌, String, ok}
use ffmpeg_docker_playground.Model.Types.{Endpoint, Job}
use ffmpeg_docker_playground.Model.Endpoint.{Http, validate_endpoint}
use ffmpeg_docker_playground.Model.Job.{is_command, validate}
use ffmpeg_docker_playground.Model.Job.Args.{IsCommand, is_command_iff}
use ffmpeg_docker_playground.Model.Job.Laws.{IsAcceptable, validate_iff}

-- Every URL names a host, and names and values are read as they stand.
abbrev pub http : Http
http = record {
  parse_url = λ s. some (record {
    scheme = "https";
    host_str = some s;
    username = "";
    password = none;
    fragment = none;
  });
  parse_method = λ s. some s;
  parse_name = λ s. some s;
  parse_value = λ s. some (bytes s);
}

abbrev pub endpoint : Endpoint
endpoint = record {
  url = "https://media/in";
  headers = ("authorization", "x") ∷ [];
  method = some "PUT";
  retry = some (record { max_attempts = 3; delay_ms = 500 });
}

abbrev arguments : List String
arguments = "-y" ∷ "-i" ∷ "{input}" ∷ "-vn" ∷ "{output}" ∷ []

abbrev pub job : Job
job = record {
  id = "job-1";
  input = endpoint;
  output = endpoint;
  callback = endpoint;
  args = arguments;
  output_extension = "mp3";
}

valid : validate http job ≡ ok tt
unfolding validate is_bad_id bytes is_bad_extension is_oversized is_command validate_endpoint
    contains
valid = refl

validate_iff_example : (validate http job ≡ ok tt) ↔ IsAcceptable http job
validate_iff_example = validate_iff http job

is_command_iff_example : (is_command arguments ≡ true) ↔ IsCommand arguments
is_command_iff_example = is_command_iff arguments
