-- ===== src/Startup/Run.antt =====
-- agent/src/main.rs: `run` as a whole: the start, the service with the requests and the steps of the
-- workers, and its end: the file of the socket is dropped, the agent is cancelled, and the workers
-- are awaited. Signals are among the actions, as what cancels.
pub mod Laws
use ffmpeg_docker_playground.Base.{
  ℕ, Bool, true, false, Option, none, some, List, String, nat_eq, Result, ok, err, if◌then◌else◌,
}
use ffmpeg_docker_playground.Auth.Jwt.Types.{Codec}
use ffmpeg_docker_playground.Auth.Jwks.Types.{KeyCodec}
use ffmpeg_docker_playground.Model.Endpoint.{Http}
use ffmpeg_docker_playground.Intake.{State}
use ffmpeg_docker_playground.Intake.Invariant.{workers}
use ffmpeg_docker_playground.Listen.Socket.{Node}
use ffmpeg_docker_playground.Server.{Server, Axum, Action, cancels, step}
use ffmpeg_docker_playground.Server as Server
use ffmpeg_docker_playground.Startup.{StartError, Host, Start, give_up}

pub data RunError : Type 0 where
  not_started : StartError → RunError
  worker_terminated server_failed : RunError

-- What happens while the service runs, whether it ends well, and what happens behind it; for the
-- first handle whose worker has panicked, if there is one, whether all the handles before it end.
pub record Service : Type 0 where
  pub actions : List Action
  pub served : Bool
  pub later : List Action
  pub panicked : Option Bool

-- What `run` returns, if it does; what is at the socket's path, and the agent, if there is one.
pub record Ended : Type 0 where
  pub result : Option (Result RunError (Unit {0}))
  pub socket : Option Node
  pub server : Option Server

-- The loop over the handles of the workers, in order: it waits until none is left, or comes to the
-- one that has panicked, if those before it end.
unfoldable pub await_workers : Option Bool → State → Option (Result RunError (Unit {0}))
await_workers none s = if nat_eq (workers s) 0 then some (ok tt) else none
await_workers (some true) s = some (err worker_terminated)
await_workers (some false) s = none

-- `result.map_err`, behind the workers.
unfoldable pub end_of :
    Bool → Option (Result RunError (Unit {0})) → Option (Result RunError (Unit {0}))
end_of served none = none
end_of served (some (err e)) = some (err e)
end_of served (some (ok _)) = some (if served then ok tt else err server_failed)

module _ (x : Codec) (k : KeyCodec) (to_str : List ℕ → Option String) (h : Http) (axum : Axum) where
  -- The service, and the shutdown behind it.
  unfoldable pub serve : Server → Service → Server
  serve s v =
      Server.run x k to_str h axum
        (step x k to_str h axum (Server.run x k to_str h axum s v.actions) cancels) v.later

  unfoldable pub run : {Addr : Type 0} → Host Addr → Start → Service → Ended
  unfolding serve await_workers end_of
  run host t v = elim t.result [
    | err e ↦ record { result = some (err (not_started e)); socket = t.socket; server = none }
    | ok s ↦
        let last = serve s v in
        record {
          result = end_of v.served (await_workers v.panicked last.intake);
          socket = give_up host t.file t.socket;
          server = some last;
        }
  ]
