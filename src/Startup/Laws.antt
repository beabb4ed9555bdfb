-- ===== src/Startup/Laws.antt =====
-- An agent that starts, and what it then does with any request.
use ffmpeg_docker_playground.Base.{
  ℕ, ◌≡◌, refl, sym, ap, ◌∙◌, ◌↔◌, ◌⊎◌, subst, Bool, true, false, Option, none, List, String,
  Result, ok, err, if◌then◌else◌, arith,
}
use ffmpeg_docker_playground.Auth.Jwt.Types.{Codec}
use ffmpeg_docker_playground.Auth.Jwks.Types.{KeyCodec}
use ffmpeg_docker_playground.Auth.Jwks.Store.{Disk}
use ffmpeg_docker_playground.Auth.Configure.{OsString}
use ffmpeg_docker_playground.Model.Endpoint.{Http}
use ffmpeg_docker_playground.Intake.{accepted}
use ffmpeg_docker_playground.Intake.Invariant.{Inv}
use ffmpeg_docker_playground.Listen.{Listen, tcp, unix}
use ffmpeg_docker_playground.Listen.Socket.{Node, BindError, SocketFile, bind}
use ffmpeg_docker_playground.Listen.Socket.Laws.{IsEnd, bind-IsEnd}
use ffmpeg_docker_playground.Engine.Workdir.Laws.{IsStart, prepare-IsStart}
use ffmpeg_docker_playground.Config.{Config, ConfigError, load}
use ffmpeg_docker_playground.Config.Laws.{IsLoaded, load_sound}
use ffmpeg_docker_playground.Engine.Workdir.{Entry, WorkError, prepare}
use ffmpeg_docker_playground.Server.{Server, begin, Axum, Visit, submitted, Action, handle, run}
use ffmpeg_docker_playground.Server.Replies.{IsTaken, handle_lem}
use ffmpeg_docker_playground.Server.Books.{begun-Inv}
use ffmpeg_docker_playground.Startup.{
  StartError, bad_address, no_client, some_file, Host, Start, bind_listener, start_engine,
  initialize, serve_on, start_on, start_with, start,
}

module _ {Addr : Type 0} (host : Host Addr) where
  -- The listener's address is bound, or its path has the agent's socket.
  abbrev pub Listens : Listen Addr → Option Node → Type 0
  Listens (tcp a) after = host.binds_address a ≡ true
  Listens (unix path) after =
      (file : SocketFile) × IsEnd host.system (host.sockets path) (ok file, after)

  address_listens :
      (a : Addr) (b : Bool) (file : Option SocketFile)
      → host.binds_address a ≡ b
      → Result.ok file ≡ (if b then ok none else err bad_address)
      → b ≡ true
  address_listens a true file e h = refl
  address_listens a false file e h = cc

  Listens-socket :
      (path : String) (file : Option SocketFile) (r : Result BindError SocketFile)
      (after : Option Node)
      → IsEnd host.system (host.sockets path) (r, after)
      → some_file r ≡ ok file
      → Listens (unix path) after
  Listens-socket path file (ok f) after e h = (f, e)
  Listens-socket path file (err e) after g h = cc

  bind_listener_sound :
      (l : Listen Addr) (file : Option SocketFile)
      → (bind_listener host l).0 ≡ ok file
      → Listens l (bind_listener host l).1
  unfolding bind_listener
  bind_listener_sound (tcp a) file h = address_listens a (host.binds_address a) file refl (sym h)
  bind_listener_sound (unix path) file h =
      Listens-socket path file (bind host.system (host.sockets path)).0
        (bind host.system (host.sockets path)).1 (bind-IsEnd host.system (host.sockets path)) h

  -- What the agent is made of, and what was done to the system.
  pub record IsMade (c : Config Addr) (t : Start) (s : Server) : Type 0 where
    pub server : s ≡ begin c.auth c.concurrency c.queue
    pub listens : Listens c.listen t.socket
    pub cleaned : IsStart (host.workdirs c.work_dir) (ok tt, t.work)

  abbrev Answer : Type 0
  Answer = Result StartError Server × List (Option Entry)

  built :
      (b : Bool) (a s : Server) (left : List (Option Entry))
      → (let o : Answer = if b then (ok a, left) else (err no_client, left) in
          o.0 ≡ ok s → (s ≡ a) × (o.1 ≡ left))
  built true a s left h = (cc, refl)
  built false a s left h = cc

  start_engine_sound :
      (c : Config Addr) (o : Result WorkError (Unit {0}) × List (Option Entry)) (s : Server)
      → (start_engine host c o).0 ≡ ok s
      → (o ≡ (ok tt, (start_engine host c o).1)) × (s ≡ begin c.auth c.concurrency c.queue)
  start_engine_sound c (err e, left) s h = cc
  start_engine_sound c (ok _, left) s h =
      let (same, kept) = built host.builds_client (begin c.auth c.concurrency c.queue) s left h in
      (ap (λ l. (ok tt, l)) (sym kept), same)

  serve_on_sound :
      (file : Option SocketFile) (after : Option Node) (o : Answer) (s : Server)
      → (serve_on host file after o).result ≡ ok s
      → (o.0 ≡ ok s)
        × ((serve_on host file after o).socket ≡ after)
        × ((serve_on host file after o).work ≡ o.1)
  serve_on_sound file after (err e, left) s h = cc
  serve_on_sound file after (ok t, left) s h = (h, refl, refl)

  start_on_sound :
      (c : Config Addr) (o : Result StartError (Option SocketFile) × Option Node) (s : Server)
      → ((file : Option SocketFile) → o.0 ≡ ok file → Listens c.listen o.1)
      → (start_on host c o).result ≡ ok s
      → IsMade c (start_on host c o) s
  unfolding initialize
  start_on_sound c (err e, after) s l h = cc
  start_on_sound c (ok file, after) s l h =
      let w = host.workdirs c.work_dir in
      let (done, socket, work) = serve_on_sound file after (initialize host c) s h in
      let (clean, server) = start_engine_sound c (prepare w) s done in
      record {
        server = server;
        listens = subst (Listens c.listen) (sym socket) (l file refl);
        cleaned = subst (IsStart w) (clean ∙ ap (λ r. (ok tt, r)) (sym work)) (prepare-IsStart w);
      }

module _ {Addr : Type 0} (on_unix : Bool) (parse_addr : String → Option Addr)
    (show_addr : Addr → String) (k : KeyCodec) (get : String → Option OsString) (instant : ℕ)
    (disk_of : String → Disk) (temp_dir : String) where
  pub record IsStarted (host : Host Addr) (t : Start) (s : Server) : Type 0 where
    pub config : Config Addr
    pub loaded : IsLoaded on_unix parse_addr show_addr k get instant disk_of temp_dir config
    pub made : IsMade host config t s

  start_with_sound :
      (host : Host Addr) (o : Result ConfigError (Config Addr)) (s : Server)
      → load on_unix parse_addr show_addr k get instant disk_of temp_dir ≡ o
      → (start_with on_unix parse_addr show_addr k get instant disk_of temp_dir host o).result
        ≡ ok s
      → IsStarted host
          (start_with on_unix parse_addr show_addr k get instant disk_of temp_dir host o)
          s
  start_with_sound host (err e) s l h = cc
  start_with_sound host (ok c) s l h = record {
    config = c;
    loaded = load_sound on_unix parse_addr show_addr k get instant disk_of temp_dir c l;
    made =
        start_on_sound host c (bind_listener host c.listen) s (bind_listener_sound host c.listen) h;
  }

  pub start_sound :
      (host : Host Addr) (s : Server)
      → (start on_unix parse_addr show_addr k get instant disk_of temp_dir host).result ≡ ok s
      → IsStarted host (start on_unix parse_addr show_addr k get instant disk_of temp_dir host) s
  unfolding start
  start_sound host s h =
      start_with_sound host (load on_unix parse_addr show_addr k get instant disk_of temp_dir) s
        refl h

  module _ (x : Codec) (to_str : List ℕ → Option String) (h : Http) (axum : Axum) where
    -- An agent that starts has a configuration that the environment gives and that is within its
    -- bounds, listens where it says without having touched a live socket or what is no socket,
    -- and has removed nothing but directories of jobs from its work directory; after any
    -- requests and steps of its workers a request is then answered 202 exactly if the
    -- authenticator lets it in, it is sent to the id of a job, its body is within the limit and
    -- is a job that passes validation under that id, and the agent runs with room for it and
    -- does not have the id in flight; no other request changes the state.
    pub agent_lem :
        (host : Host Addr) (s : Server) (actions : List Action) (v : Visit)
        → (start on_unix parse_addr show_addr k get instant disk_of temp_dir host).result ≡ ok s
        → let t = run x k to_str h axum s actions in
          IsStarted host (start on_unix parse_addr show_addr k get instant disk_of temp_dir host) s
          × (((handle x k to_str h axum t.auth v t.intake).0 ≡ submitted accepted)
              ↔ IsTaken x k to_str h axum t.auth v t.intake)
          × (((handle x k to_str h axum t.auth v t.intake).1 ≡ t.intake)
              ⊎ IsTaken x k to_str h axum t.auth v t.intake)
    agent_lem host s actions v e =
        let started = start_sound host s e in
        let c = started.config in
        let t = run x k to_str h axum s actions in
        let books : Inv c.concurrency t.intake =
          subst (λ b. Inv c.concurrency (run x k to_str h axum b actions).intake)
            (sym started.made.server)
            (begun-Inv x k to_str h axum c.auth c.concurrency c.queue actions) in
        let (taken, kept) =
          handle_lem x k to_str h axum c.concurrency t.intake books
            (omega (arith, started.loaded.concurrency.low)) t.auth v in
        (started, taken, kept)
