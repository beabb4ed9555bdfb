-- ===== src/Startup.antt =====
-- agent/src/main.rs: the arguments of `main`, and the start in `run`: the configuration, the listener
-- and the work directory, in this order; agent/src/engine.rs: the rest of `initialize`.
pub mod Laws
pub mod Failure
pub mod Run
pub mod Tests
use ffmpeg_docker_playground.Base.{
  ℕ, Bool, true, false, not, Option, none, some, List, [], ◌∷◌, String, ◌==◌, Result, ok, err,
  map_err, if◌then◌else◌,
}
use ffmpeg_docker_playground.Auth.Jwks.Types.{KeyCodec}
use ffmpeg_docker_playground.Auth.Jwks.Store.{Disk}
use ffmpeg_docker_playground.Auth.Configure.{OsString}
use ffmpeg_docker_playground.Listen.{Listen, tcp, unix}
use ffmpeg_docker_playground.Listen.Socket.{Node, System, BindError, SocketFile, drop, close, bind}
use ffmpeg_docker_playground.Config.{Config, ConfigError, load}
use ffmpeg_docker_playground.Engine.Workdir.{Entry, Workdir, WorkError, prepare}
use ffmpeg_docker_playground.Server.{Server}
use ffmpeg_docker_playground.Server as Server

-- What `main` does with the arguments behind the program's name.
pub data Command : Type 0 where
  version help unexpected serve : Command

unfoldable pub command_of : List String → Command
command_of [] = serve
command_of (a ∷ []) =
    if a == "--version" then version else if a == "--help" then help else unexpected
command_of (a ∷ b ∷ args) = unexpected

pub data StartError : Type 0 where
  bad_config : ConfigError → StartError
  bad_address no_client : StartError
  bad_socket : BindError → StartError
  bad_work : WorkError → StartError

-- The system under the start: whether an address can be bound and the HTTP client be built, the
-- calls on the socket's path, what each path refers to, and the work directory at a path.
pub record Host (Addr : Type 0) : Type 0 where
  pub binds_address : Addr → Bool
  pub builds_client : Bool
  pub system : System
  pub sockets : String → Option Node
  pub workdirs : String → Workdir

-- The agent, or an error; the socket that it listens on, if it does on one; what is left at the
-- socket's path, and in the work directory, where the start has come that far.
pub record Start : Type 0 where
  pub result : Result StartError Server
  pub file : Option SocketFile
  pub socket : Option Node
  pub work : List (Option Entry)

abbrev pub some_file : Result BindError SocketFile → Result StartError (Option SocketFile)
some_file (ok file) = ok (some file)
some_file (err e) = err (bad_socket e)

module _ {Addr : Type 0} (host : Host Addr) where
  -- `listen::bind`
  unfoldable pub bind_listener : Listen Addr → Result StartError (Option SocketFile) × Option Node
  bind_listener (tcp a) = (if host.binds_address a then ok none else err bad_address, none)
  bind_listener (unix path) =
      let (r, after) = bind host.system (host.sockets path) in (some_file r, after)

  -- The listener goes out of scope: the socket is closed, then its file is dropped.
  abbrev pub give_up : Option SocketFile → Option Node → Option Node
  give_up none after = after
  give_up (some file) after =
      drop host.system.inspects host.system.removes file (close file.identity after)

  -- `initialize`, behind the cleaning of the work directory.
  abbrev pub start_engine :
      Config Addr
      → Result WorkError (Unit {0}) × List (Option Entry)
      → Result StartError Server × List (Option Entry)
  start_engine c (err e, left) = (err (bad_work e), left)
  start_engine c (ok _, left) =
      if host.builds_client
      then (ok (Server.begin c.auth c.concurrency c.queue), left)
      else (err no_client, left)

  unfoldable pub initialize : Config Addr → Result StartError Server × List (Option Entry)
  initialize c = start_engine c (prepare (host.workdirs c.work_dir))

  -- The listener is bound: the rest of the start.
  abbrev pub serve_on :
      Option SocketFile → Option Node → Result StartError Server × List (Option Entry) → Start
  serve_on file after (ok s, left) = record {
    result = ok s;
    file = file;
    socket = after;
    work = left;
  }
  serve_on file after (err e, left) = record {
    result = err e;
    file = none;
    socket = give_up file after;
    work = left;
  }

  abbrev pub start_on : Config Addr → Result StartError (Option SocketFile) × Option Node → Start
  start_on c (err e, after) = record {
    result = err e;
    file = none;
    socket = after;
    work = (host.workdirs c.work_dir).entries;
  }
  start_on c (ok file, after) = serve_on file after (initialize c)

-- `run`, up to the service; the parameters are those of `load`.
module _ {Addr : Type 0} (on_unix : Bool) (parse_addr : String → Option Addr)
    (show_addr : Addr → String) (k : KeyCodec) (get : String → Option OsString) (instant : ℕ)
    (disk_of : String → Disk) (temp_dir : String) where
  abbrev pub start_with : Host Addr → Result ConfigError (Config Addr) → Start
  start_with host (err e) = record {
    result = err (bad_config e);
    file = none;
    socket = none;
    work = [];
  }
  start_with host (ok c) = start_on host c (bind_listener host c.listen)

  unfoldable pub start : Host Addr → Start
  unfolding bind_listener initialize
  start host = start_with host (load on_unix parse_addr show_addr k get instant disk_of temp_dir)
