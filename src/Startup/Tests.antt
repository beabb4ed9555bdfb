-- ===== src/Startup/Tests.antt =====
-- An agent that starts in an empty work directory, and a request to it.
use ffmpeg_docker_playground.Startup.{bad_work}
use ffmpeg_docker_playground.Engine.Workdir.{in_use}
use ffmpeg_docker_playground.Base.{false, err, some, ◌≡◌, refl, ◌↔◌, ◌⊎◌, true, none, [], ◌∷◌, ok}
use ffmpeg_docker_playground.Auth.Jwks.Tests as KeyTests
use ffmpeg_docker_playground.Auth.Tests as AuthTests
use ffmpeg_docker_playground.Model.Tests as JobTests
use ffmpeg_docker_playground.Intake.{accepted}
use ffmpeg_docker_playground.Intake as Intake
use ffmpeg_docker_playground.Intake.Invariant.{workers}
use ffmpeg_docker_playground.Engine.Workdir.{prepare}
use ffmpeg_docker_playground.Config.Tests as ConfigTests
use ffmpeg_docker_playground.Server.{Server, leaves, cancels, begin, submitted, handle, run}
use ffmpeg_docker_playground.Server.Replies.{IsTaken}
use ffmpeg_docker_playground.Server.Tests as ServerTests
use ffmpeg_docker_playground.Startup.{Host, Start, help, unexpected, command_of, start}
use ffmpeg_docker_playground.Startup.Run.{Service, Ended}
use ffmpeg_docker_playground.Startup.Run as Run
use ffmpeg_docker_playground.Startup.Run.Laws.{IsClean, run-IsClean}
use ffmpeg_docker_playground.Startup.Laws.{IsStarted, agent_lem}

asks_for_help : command_of ("--help" ∷ []) ≡ help
unfolding command_of
asks_for_help = refl

refuses_two : command_of ("--help" ∷ "--version" ∷ []) ≡ unexpected
unfolding command_of
refuses_two = refl

abbrev host : Host (Unit {0})
host = record {
  binds_address = λ a. true;
  builds_client = true;
  system = record {
    inspects = true;
    connects = true;
    removes = true;
    binds = true;
    reinspects = true;
    sets_mode = true;
    identity = (1, 8);
    mode = 0o755;
  };
  sockets = λ path. none;
  workdirs = λ path. record {
    creates = true;
    opens_lock = true;
    locks = true;
    lists = true;
    entries = [];
  };
}

abbrev begun : Start
begun =
    start true ConfigTests.parse_addr ConfigTests.show_addr KeyTests.codec AuthTests.secured 10
      AuthTests.disk_of "/tmp" host

abbrev agent : Server
agent = begin AuthTests.started 1 1

starts : begun.result ≡ ok agent
unfolding start prepare
starts = rw (ConfigTests.loads, start) refl

abbrev busy : Server
busy =
    run ServerTests.codec KeyTests.codec ServerTests.text_of JobTests.http ServerTests.axum agent
      ServerTests.actions

agent_lem_example :
    IsStarted true ConfigTests.parse_addr ConfigTests.show_addr KeyTests.codec AuthTests.secured 10
      AuthTests.disk_of "/tmp" host begun agent
    × (((handle ServerTests.codec KeyTests.codec ServerTests.text_of JobTests.http ServerTests.axum
            busy.auth ServerTests.visit busy.intake).0
          ≡ submitted accepted)
        ↔ IsTaken ServerTests.codec KeyTests.codec ServerTests.text_of JobTests.http
            ServerTests.axum busy.auth ServerTests.visit busy.intake)
    × (((handle ServerTests.codec KeyTests.codec ServerTests.text_of JobTests.http ServerTests.axum
            busy.auth ServerTests.visit busy.intake).1
          ≡ busy.intake)
        ⊎ IsTaken ServerTests.codec KeyTests.codec ServerTests.text_of JobTests.http
            ServerTests.axum busy.auth ServerTests.visit busy.intake)
agent_lem_example =
    agent_lem true ConfigTests.parse_addr ConfigTests.show_addr KeyTests.codec AuthTests.secured 10
      AuthTests.disk_of "/tmp" ServerTests.codec ServerTests.text_of JobTests.http ServerTests.axum
      host agent ServerTests.actions ServerTests.visit starts

-- The same, with another agent in the work directory.
abbrev taken : Host (Unit {0})
taken = record host {
  workdirs = λ path. record {
    creates = true;
    opens_lock = true;
    locks = false;
    lists = true;
    entries = [];
  };
}

refused :
    (start true ConfigTests.parse_addr ConfigTests.show_addr KeyTests.codec AuthTests.secured 10
      AuthTests.disk_of "/tmp" taken).result
    ≡ err (bad_work in_use)
unfolding start prepare
refused = rw (ConfigTests.loads, start) refl

-- A signal comes, the service ends, and the one worker with it.
abbrev day : Service
day = record { actions = cancels ∷ []; served = true; later = leaves ∷ []; panicked = none }

abbrev ended : Ended
ended =
    Run.run ServerTests.codec KeyTests.codec ServerTests.text_of JobTests.http ServerTests.axum host
      begun day

ends_well : ended.result ≡ some (ok tt)
unfolding start prepare Run.run Run.serve workers run begin Intake.initialize Intake.leave
ends_well = rw (ConfigTests.loads, start) refl

run-IsClean_example : IsClean host ConfigTests.config begun day ended
run-IsClean_example =
    run-IsClean true ConfigTests.parse_addr ConfigTests.show_addr KeyTests.codec AuthTests.secured
      10 AuthTests.disk_of "/tmp" ServerTests.codec ServerTests.text_of JobTests.http
      ServerTests.axum host ConfigTests.config day ConfigTests.loads
