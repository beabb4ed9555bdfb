-- ===== src/Engine/Request/Tests.antt =====
-- A request to a validated endpoint.
use ffmpeg_docker_playground.Base.{
  ◌≡◌, refl, Option, some, [], ◌∷◌, String, ◌==◌, ok, if◌then◌else◌,
}
use ffmpeg_docker_playground.Model.Types.{Endpoint}
use ffmpeg_docker_playground.Base.Text.{bytes}
use ffmpeg_docker_playground.Base.{contains}
use ffmpeg_docker_playground.Model.Endpoint.{Http, header_map, insert_header, validate_endpoint}
use ffmpeg_docker_playground.Model.Tests as JobTests
use ffmpeg_docker_playground.Engine.Request.{Sent, request, IsSent, request_total}

-- Two spellings of one name.
abbrev normal : String → Option String
normal name = if name == "X-A" then some "x-a" else some name

abbrev http : Http
http = record JobTests.http { parse_name = normal }

abbrev endpoint : Endpoint
endpoint = record JobTests.endpoint {
  headers = ("X-A", "1") ∷ ("authorization", "x") ∷ ("x-a", "2") ∷ [];
}

replaces : header_map http endpoint ≡ ok (("x-a", bytes "2") ∷ ("authorization", bytes "x") ∷ [])
unfolding header_map insert_header bytes contains
replaces = refl

sound : validate_endpoint http endpoint ≡ ok tt
unfolding validate_endpoint bytes contains
sound = refl

request_total_example :
    (sent : Sent) × (request http "GET" endpoint ≡ some sent) × IsSent http "GET" endpoint sent
request_total_example = request_total http "GET" endpoint sound
