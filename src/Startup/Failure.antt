-- ===== src/Startup/Failure.antt =====
-- What is left of a start once its socket is gone.
use ffmpeg_docker_playground.Base.{
  if-elim, ℕ, ◌≡◌, refl, sym, ◌⊎◌, inl, inr, subst, Bool, Option, none, some, List, String, Result,
  ok, err,
}
use ffmpeg_docker_playground.Auth.Jwks.Types.{KeyCodec}
use ffmpeg_docker_playground.Auth.Jwks.Store.{Disk}
use ffmpeg_docker_playground.Auth.Configure.{OsString}
use ffmpeg_docker_playground.Listen.{Listen, tcp, unix}
use ffmpeg_docker_playground.Listen.Socket.{Node, BindError, SocketFile, close, bind}
use ffmpeg_docker_playground.Listen.Socket.Laws.{
  IsFree, IsBound, IsEnd, close-IsFree, drop-IsFree, bind-IsEnd,
}
use ffmpeg_docker_playground.Config.{Config, load}
use ffmpeg_docker_playground.Engine.Workdir.{Entry, WorkError, prepare}
use ffmpeg_docker_playground.Engine.Workdir.Laws.{IsLeft, IsStart-IsLeft, prepare-IsStart}
use ffmpeg_docker_playground.Server.{Server}
use ffmpeg_docker_playground.Startup.{
  StartError, some_file, Host, Start, bind_listener, give_up, start_engine, initialize, serve_on,
  start_on, start,
}

module _ {Addr : Type 0} (host : Host Addr) where
  -- The path is as it was, or it had nothing of value and has nothing of value.
  abbrev pub Spares : Listen Addr → Option Node → Type 0
  Spares (tcp a) after = Unit
  Spares (unix path) after =
      (after ≡ host.sockets path) ⊎ (IsFree (host.sockets path) × IsFree after)

  give_up-IsFree :
      (file : SocketFile) (after : Option Node)
      → IsBound host.system file after
      → IsFree (give_up host (some file) after)
  give_up-IsFree file after b =
      drop-IsFree host.system.inspects host.system.removes file (close file.identity after)
        (rw (b.own, b.present) (close-IsFree host.system 0o666))

  abbrev undo : Result StartError (Option SocketFile) × Option Node → Option Node
  undo (ok file, after) = give_up host file after
  undo (err e, after) = after

  IsEnd-Spares :
      (path : String) (o : Result BindError SocketFile × Option Node)
      → IsEnd host.system (host.sockets path) o
      → Spares (unix path) (undo (some_file o.0, o.1))
  IsEnd-Spares path _ (IsEnd.bound file after free b) = inr (free, give_up-IsFree file after b)
  IsEnd-Spares path _ (IsEnd.refused e) = inl refl
  IsEnd-Spares path _ (IsEnd.freed e after before free) = inr (before, free)

  bind_listener-Spares : (l : Listen Addr) → Spares l (undo (bind_listener host l))
  unfolding bind_listener
  bind_listener-Spares (tcp a) = tt
  bind_listener-Spares (unix path) =
      IsEnd-Spares path (bind host.system (host.sockets path))
        (bind-IsEnd host.system (host.sockets path))

  -- The path once the agent has gone, and the work directory, of which nothing is lost but
  -- directories of jobs.
  pub record IsHarmless (c : Config Addr) (t : Start) : Type 0 where
    pub socket : Spares c.listen (give_up host t.file t.socket)
    pub failed : (e : StartError) → t.result ≡ err e → t.file ≡ none
    pub work : IsLeft (host.workdirs c.work_dir).entries t.work

  initialize-IsLeft :
      (c : Config Addr) → IsLeft (host.workdirs c.work_dir).entries (initialize host c).1
  unfolding initialize
  initialize-IsLeft c =
      let w = host.workdirs c.work_dir in
      kept (prepare w) (IsStart-IsLeft w (prepare w) (prepare-IsStart w))
    where
      kept :
          (o : Result WorkError (Unit {0}) × List (Option Entry))
          → IsLeft (host.workdirs c.work_dir).entries o.1
          → IsLeft (host.workdirs c.work_dir).entries (start_engine host c o).1
      kept (err e, left) h = h
      kept (ok _, left) h =
          if-elim
            (λ (o : Result StartError Server × List (Option Entry)).
              IsLeft (host.workdirs c.work_dir).entries o.1)
            host.builds_client _ _ (λ _. h) (λ _. h)

  serve_on-IsHarmless :
      (c : Config Addr) (file : Option SocketFile) (after : Option Node)
      (o : Result StartError Server × List (Option Entry))
      → Spares c.listen (give_up host file after)
      → IsLeft (host.workdirs c.work_dir).entries o.1
      → IsHarmless c (serve_on host file after o)
  serve_on-IsHarmless c file after (ok s, left) h l = record {
    socket = h;
    failed = λ e g. cc;
    work = l;
  }
  serve_on-IsHarmless c file after (err d, left) h l = record {
    socket = h;
    failed = λ e g. refl;
    work = l;
  }

  start_on-IsHarmless :
      (c : Config Addr) (o : Result StartError (Option SocketFile) × Option Node)
      → Spares c.listen (undo o)
      → IsHarmless c (start_on host c o)
  start_on-IsHarmless c (err d, after) h = record {
    socket = h;
    failed = λ e g. refl;
    work = IsLeft.all _;
  }
  start_on-IsHarmless c (ok file, after) h =
      serve_on-IsHarmless c file after (initialize host c) h (initialize-IsLeft c)

module _ {Addr : Type 0} (on_unix : Bool) (parse_addr : String → Option Addr)
    (show_addr : Addr → String) (k : KeyCodec) (get : String → Option OsString) (instant : ℕ)
    (disk_of : String → Disk) (temp_dir : String) where
  start_of_config :
      (host : Host Addr) (c : Config Addr)
      → load on_unix parse_addr show_addr k get instant disk_of temp_dir ≡ ok c
      → start on_unix parse_addr show_addr k get instant disk_of temp_dir host
        ≡ start_on host c (bind_listener host c.listen)
  unfolding start
  start_of_config host c e = rw (e, start) refl

  -- A start with a configuration, if what it has bound is given up in the end.
  pub start-IsHarmless :
      (host : Host Addr) (c : Config Addr)
      → load on_unix parse_addr show_addr k get instant disk_of temp_dir ≡ ok c
      → IsHarmless host c (start on_unix parse_addr show_addr k get instant disk_of temp_dir host)
  start-IsHarmless host c loaded = subst (IsHarmless host c) (sym (start_of_config host c loaded)) (
      start_on-IsHarmless host c (bind_listener host c.listen) (bind_listener-Spares host c.listen))
