-- ===== src/Server.antt =====
-- agent/src/main.rs: the routes of `run`, with `authenticate` in front of each of them and `submit`
-- behind one. Requests and the steps of the workers follow each other in any order.
pub mod Jobs
pub mod Replies
pub mod Books
pub mod Provenance
pub mod Tests
use ffmpeg_docker_playground.Base.{
  ℕ, zero, suc, true, Option, none, some, List, [], ◌∷◌, String, ltb, length, Result, ok, err,
  if◌then◌else◌,
}
use ffmpeg_docker_playground.Auth.Rejection.{Rejection}
use ffmpeg_docker_playground.Auth.Jwt.Types.{Codec}
use ffmpeg_docker_playground.Auth.Jwks.Types.{KeyCodec}
use ffmpeg_docker_playground.Auth.Jwks.Store.{Disk}
use ffmpeg_docker_playground.Auth.Access.{Authenticator, Principal}
use ffmpeg_docker_playground.Auth.Access as Access
use ffmpeg_docker_playground.Model.Types.{Job}
use ffmpeg_docker_playground.Model.Endpoint.{Http}
use ffmpeg_docker_playground.Intake.{State, Reply}
use ffmpeg_docker_playground.Intake as Intake

-- What the router makes of a method and a path: a job's id, `/healthz`, or neither.
pub data Route : Type 0 where
  to_job : String → Route
  to_health other : Route

-- The values of the `Authorization` header, the method and the path, the value of `Content-Type`,
-- and the body.
pub record Request : Type 0 where
  pub authorization : List (List ℕ)
  pub method : String
  pub path : String
  pub content_type : Option (List ℕ)
  pub body : List ℕ

-- axum's router, and its extractor of a job.
pub record Axum : Type 0 where
  pub route : String → String → Route
  pub json : Option (List ℕ) → List ℕ → Option Job

-- `DefaultBodyLimit::max(65536)`
abbrev pub body_limit : ℕ
body_limit = 65536

-- What the layer and the handlers answer; `extractor` and `fallback` are axum's own answers.
pub data Response : Type 0 where
  unauthorized healthy extractor fallback : Response
  submitted : Reply → Response

-- The requests that wait are those that the layer has let through and whose body is not read yet.
pub record Server : Type 0 where
  pub auth : Authenticator
  pub intake : State
  pub waiting : List Request

-- What `run` starts with: the authenticator of the configuration, and its numbers.
unfoldable pub begin : Authenticator → ℕ → ℕ → Server
begin auth concurrency queue = record {
  auth = auth;
  intake = Intake.initialize concurrency queue;
  waiting = [];
}

-- A request with the moment it comes at: the time of the monotonic clock, the files, and the
-- seconds since the epoch, if the clock is not before it.
pub record Visit : Type 0 where
  pub instant : ℕ
  pub disk : Disk
  pub clock : Option ℕ
  pub request : Request

-- `map_or(0, |d| d.as_secs())`
abbrev pub now_of : Option ℕ → ℕ
now_of none = 0
now_of (some secs) = secs

abbrev put_back : Request → Option (Request × List Request) → Option (Request × List Request)
put_back r none = none
put_back r (some (t, rest)) = some (t, r ∷ rest)

-- One of the requests, and the others.
unfoldable pub pick : ℕ → List Request → Option (Request × List Request)
pick n [] = none
pick zero (r ∷ rs) = some (r, rs)
pick (suc n) (r ∷ rs) = put_back r (pick n rs)

pub data Action : Type 0 where
  arrives : Visit → Action
  answers : ℕ → Action
  finishes : String → Action
  receives releases leaves cancels : Action

abbrev pub admitted : Result Rejection Principal → Request → List Request → List Request
admitted (err rejection) r waiting = waiting
admitted (ok principal) r waiting = r ∷ waiting

module _ (x : Codec) (k : KeyCodec) (to_str : List ℕ → Option String) (h : Http) (axum : Axum) where
  -- The body is read in front of the handler, up to the limit.
  unfoldable pub extract : Request → Option Job
  extract r = if ltb body_limit (length r.body) then none else axum.json r.content_type r.body

  -- `next.run(request)`
  unfoldable pub respond : State → Request → Response × State
  unfolding extract
  respond s r = elim (axum.route r.method r.path) [
    | to_health ↦ (healthy, s)
    | other ↦ (fallback, s)
    | to_job id ↦ elim (extract r) [
      | none ↦ (extractor, s)
      | some job ↦ let (reply, t) = Intake.submit h s id job in (submitted reply, t)
    ]
  ]

  -- The layer: the answer of the authenticator, and its change.
  unfoldable pub check : Authenticator → Visit → Result Rejection Principal × Authenticator
  check auth v =
      Access.authenticate x k to_str auth v.instant v.disk v.request.authorization (now_of v.clock)

  -- One request from its arrival on; the intake is that of the moment at which the body is read.
  unfoldable pub handle : Authenticator → Visit → State → Response × State
  unfolding check respond
  handle auth v s = elim (check auth v).0 [
    | err rejection ↦ (unauthorized, s)
    | ok principal ↦ respond s v.request
  ]

  -- Any request that waits may be the next whose body is read.
  unfoldable pub answer : Server → Option (Request × List Request) → Server
  unfolding respond
  answer s none = s
  answer s (some (r, rest)) = record s { intake = (respond s.intake r).1; waiting = rest }

  -- The workers and the shutdown change the intake alone.
  unfoldable pub step : Server → Action → Server
  unfolding check answer pick
  step s (arrives v) =
      let (o, auth) = check s.auth v in
      record s { auth = auth; waiting = admitted o v.request s.waiting }
  step s (answers n) = answer s (pick n s.waiting)
  step s (finishes id) = record s { intake = Intake.finish s.intake id }
  step s receives = record s { intake = Intake.receive s.intake }
  step s releases = record s { intake = Intake.release s.intake }
  step s leaves = record s { intake = Intake.leave s.intake }
  step s cancels = record s { intake = record s.intake { cancelled = true } }

  unfoldable pub run : Server → List Action → Server
  unfolding step
  run s [] = s
  run s (a ∷ actions) = run (step s a) actions
