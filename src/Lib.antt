-- ===== src/Lib.antt =====
-- ffmpeg-docker-playground: a verification library for the FFmpeg agent (agent/src), the service
-- that accepts transcoding jobs over HTTP, downloads an input, runs FFmpeg on it, uploads the
-- output and reports events to a callback.
--
-- A request is authenticated by the token of its `Authorization` header; the token's signature is
-- checked with a key of a JWKS file that is read again when it changes. A job that is valid takes
-- a permit and a place in the channel to the workers; its id is held until the worker is done
-- with it. A worker downloads, encodes and uploads, with retries.
--
-- Base           helpers: Boolean tests, results, lists, 64-bit sums, and the `str` methods that the
--                source calls, on native strings whose `len` counts the bytes of the UTF-8 form
-- Auth/Rejection the enum of agent/src/auth/mod.rs
-- Auth/Jwt       agent/src/auth/jwt.rs: Types is its data; Compact is the head of `verify`
--                (segments and bytes), Verify its middle (header, key, signature), Claims its end
-- Auth/Bearer    agent/src/auth/mod.rs: `bearer`
-- Auth/Jwks      agent/src/auth/jwks.rs: Parse is `parse` with `coordinate` and `valid_point`;
--                Store is `load` and `KeyStore`, where `key` returns the store after the call
-- Auth/Access    agent/src/auth/mod.rs: `authenticate`, over `JwtVerifier` of agent/src/auth/jwt.rs,
--                with the authenticator after the call; Reads and History follow a list of calls
-- Auth/Configure agent/src/auth/mod.rs: `from_lookup`
-- Model          agent/src/model.rs: the data types, Endpoint (`Retry::validate`,
--                `Endpoint::validate`, `header_map`) and Job (`Job::validate`)
-- Intake         agent/src/main.rs: `submit`; agent/src/engine.rs: the slots and the channel of
--                `initialize`, and the rounds of `worker`, as actions on one state
-- Agent          agent/src/main.rs and agent/src/engine.rs: the jobs of Intake, each with its events
--                and requests (Engine/Wire), from `submit` to the end of the worker's round
-- Server         agent/src/main.rs: `authenticate` in front of the routes of `run`, and what it
--                lets through to `submit`, with the actions of Intake in between
-- Listen         agent/src/listen.rs: `parse` and the printing; Socket is `bind` of a Unix socket
--                and the drop of its file
-- Config         agent/src/config.rs: `number` and `load`, over Auth/Configure and Listen
-- Startup        agent/src/main.rs: `main` and `run`, over Config, Listen, Engine/Workdir and the
--                rest of `initialize`; Run is the service of Server and the end behind it
-- Engine         agent/src/engine.rs: Retry (`retry_status`, `retry_transfer`), Log (`read_log` of
--                `execute`), Progress (`read_progress`), Command (the arguments in `execute`),
--                Download (`download`), Upload (`upload`), Notify (`notify`), Request (`request`),
--                Execute (`execute`, over Retry, Log, Command, Download and Upload), Life
--                (`heartbeat` and a job's round of `worker`, with the events of Notify;
--                Life/Truth puts the result of Execute behind what it reports), Wire (the
--                requests of `notify` under both), Stall (`stalled`) and Workdir (the first half
--                of `initialize`)
--
-- The Tests of Auth/Bearer, Auth/Configure and Listen run cases of the source's own tests.
--
-- Other crates are parameters: base64, serde_json and ring are the records Codec and KeyCodec,
-- reqwest's parsers the record Http (its map of headers is a list in which a later value of a name
-- takes the place of the earlier one), its status classes StatusClass, axum's router and extractor
-- the record Axum, and the network and the file system of a transfer the records Env. What the
-- system does for an execution, a socket and the work directory are the records Machine, System,
-- Workdir and Host, with a flag for each call that may fail. A body is the list of what each read
-- of it gives. Times are numbers that a call takes; the file system that a lookup sees is an
-- argument of it. What may happen at any time (requests, workers, heartbeats, the shutdown) is an
-- action of a list; the runtime has one thread, so what stands between two awaits is one action.
--
-- Fuel: `retry_transfer` and `notify` run on the source's own count of attempts: in the first its
-- end stands for `unreachable!()`, behind the last attempt, which always returns; in the second
-- it is the `false` behind the loop. A look of `stalled` runs on 4099 rounds, one for each of the
-- 4097 entries that it may count, one for the job's own directory and one for the end, since each
-- round takes one directory off the stack. `to_string` of agent/src/config.rs runs on the 20
-- digits of a 64-bit number. Sums that the source saturates or checks are written so
-- (Base/Words). Other sums of the source are of bounded lengths, and stay below 2^64.
--
-- Not modelled: what is inside of the HTTP client, the HTTP service and the TCP listener; the place
-- at which an execution is cut short when its worker stops waiting for it; a second process that
-- changes a path between two calls on it. The messages of errors are constructors, but for those
-- that a callback shows, and what goes to the log of the agent is left out, as are the panics of
-- a poisoned lock of the engine. The image, its build scripts and their tests hold no code of the
-- agent.
pub mod Base
pub mod Auth
pub mod Model
pub mod Engine
pub mod Intake
pub mod Agent
pub mod Server
pub mod Listen
pub mod Config
pub mod Startup
