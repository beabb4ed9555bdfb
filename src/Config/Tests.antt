-- ===== src/Config/Tests.antt =====
-- The configuration of an environment with a key file, an audience, and nothing else.
use ffmpeg_docker_playground.Base.Text.{strip_prefix, parse_u64}
use ffmpeg_docker_playground.Base.{
  ◌≡◌, refl, true, none, some, Option, String, ◌==◌, ok, if◌then◌else◌,
}
use ffmpeg_docker_playground.Auth.Jwks.Tests as KeyTests
use ffmpeg_docker_playground.Auth.Tests as AuthTests
use ffmpeg_docker_playground.Listen.{tcp, parse}
use ffmpeg_docker_playground.Config.{Config, to_string, join, load}
use ffmpeg_docker_playground.Config.Laws.{IsLoaded, load_sound}

abbrev pub parse_addr : String → Option (Unit {0})
parse_addr s = if s == "127.0.0.1:8080" then some tt else none

abbrev pub show_addr : Unit {0} → String
show_addr a = "127.0.0.1:8080"

abbrev pub config : Config (Unit {0})
config = record {
  listen = tcp tt;
  auth = AuthTests.started;
  work_dir = "/tmp/ffmpeg-agent";
  ffmpeg = "ffmpeg";
  concurrency = 1;
  queue = 1;
  heartbeat = 10;
  job_timeout = 0;
  stall_timeout = 120;
  max_input = 17_179_869_184;
  max_output = 17_179_869_184;
}

pub loads :
    load true parse_addr show_addr KeyTests.codec AuthTests.secured 10 AuthTests.disk_of "/tmp"
    ≡ ok config
unfolding load to_string parse_u64 join parse strip_prefix
loads = rw AuthTests.starts refl

load_sound_example :
    IsLoaded true parse_addr show_addr KeyTests.codec AuthTests.secured 10 AuthTests.disk_of "/tmp"
      config
load_sound_example =
    load_sound true parse_addr show_addr KeyTests.codec AuthTests.secured 10 AuthTests.disk_of
      "/tmp" config loads
