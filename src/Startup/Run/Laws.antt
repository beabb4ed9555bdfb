-- ===== src/Startup/Run/Laws.antt =====
-- How a run of the agent ends.
use ffmpeg_docker_playground.Base.{
  ℕ, ◌≡◌, refl, sym, ap, ◌∙◌, subst, inl, inr, Bool, true, false, Option, none, some, List, [],
  String, Result, ok, err, Result-cases, arith,
}
use ffmpeg_docker_playground.Auth.Jwt.Types.{Codec}
use ffmpeg_docker_playground.Auth.Jwks.Types.{KeyCodec}
use ffmpeg_docker_playground.Auth.Jwks.Store.{Disk}
use ffmpeg_docker_playground.Auth.Configure.{OsString}
use ffmpeg_docker_playground.Model.Endpoint.{Http}
use ffmpeg_docker_playground.Intake.{State}
use ffmpeg_docker_playground.Intake as Intake
use ffmpeg_docker_playground.Intake.Invariant.{workers, Inv}
use ffmpeg_docker_playground.Intake.Replies.{IsDrained, Inv-IsDrained}
use ffmpeg_docker_playground.Config.{Config, load}
use ffmpeg_docker_playground.Engine.Workdir.Laws.{IsLeft}
use ffmpeg_docker_playground.Server.{Server, begin, Axum, cancels, step}
use ffmpeg_docker_playground.Server as Server
use ffmpeg_docker_playground.Server.Books.{begun-Inv, run-Inv, step-Inv}
use ffmpeg_docker_playground.Startup.{StartError, Host, Start, give_up, start}
use ffmpeg_docker_playground.Startup.Laws.{IsStarted, start_sound}
use ffmpeg_docker_playground.Startup.Failure.{Spares, start-IsHarmless}
use ffmpeg_docker_playground.Startup.Run.{
  RunError, not_started, Service, Ended, await_workers, end_of, serve, run,
}

await_workers-ok :
    (panicked : Option Bool) (s : State) → await_workers panicked s ≡ some (ok tt) → workers s ≡ 0
unfolding await_workers
await_workers-ok none s h = ground arith
await_workers-ok (some true) s h = cc
await_workers-ok (some false) s h = cc

end_of-ok :
    (served : Bool) (o : Option (Result RunError (Unit {0})))
    → end_of served o ≡ some (ok tt)
    → (o ≡ some (ok tt)) × (served ≡ true)
unfolding end_of
end_of-ok served none h = cc
end_of-ok served (some (err e)) h = cc
end_of-ok true (some (ok _)) h = (refl, refl)
end_of-ok false (some (ok _)) h = cc

not_ok :
    (e : StartError) (o : Option (Result RunError (Unit {0})))
    → o ≡ some (err (not_started e))
    → o ≡ some (ok tt)
    → ⊥
not_ok e o g h = cc

-- The service has ended well, and nothing is left of any job.
pub record IsServed (v : Service) (e : Ended) : Type 0 where
  pub served : v.served ≡ true
  pub server : Server
  pub last : e.server ≡ some server
  pub drained : IsDrained server.intake

module _ {Addr : Type 0} (host : Host Addr) where
  -- What a run with a configuration leaves.
  pub record IsClean (c : Config Addr) (t : Start) (v : Service) (e : Ended) : Type 0 where
    pub socket : Spares host c.listen e.socket
    pub work : IsLeft (host.workdirs c.work_dir).entries t.work
    pub served : e.result ≡ some (ok tt) → IsServed v e

module _ {Addr : Type 0} (on_unix : Bool) (parse_addr : String → Option Addr)
    (show_addr : Addr → String) (k : KeyCodec) (get : String → Option OsString) (instant : ℕ)
    (disk_of : String → Disk) (temp_dir : String) (x : Codec) (to_str : List ℕ → Option String)
    (h : Http) (axum : Axum) where
  serve-Inv :
      (concurrency : ℕ) (s : Server) (v : Service)
      → Inv concurrency s.intake
      → Inv concurrency (serve x k to_str h axum s v).intake
  unfolding serve
  serve-Inv c s v b =
      run-Inv x k to_str h axum c _ v.later
        (step-Inv x k to_str h axum c _ cancels (run-Inv x k to_str h axum c s v.actions b))

  run_of_started :
      (host : Host Addr) (t : Start) (s : Server) (v : Service)
      → t.result ≡ ok s
      → run x k to_str h axum host t v ≡ record {
        result = end_of v.served (await_workers v.panicked (serve x k to_str h axum s v).intake);
        socket = give_up host t.file t.socket;
        server = some (serve x k to_str h axum s v);
      }
  unfolding run
  run_of_started host t s v e = rw (e, run) refl

  run_of_failed :
      (host : Host Addr) (t : Start) (s : StartError) (v : Service)
      → t.result ≡ err s
      → run x k to_str h axum host t v
        ≡ record { result = some (err (not_started s)); socket = t.socket; server = none }
  unfolding run
  run_of_failed host t s v e = rw (e, run) refl

  run-IsServed :
      (host : Host Addr) (t : Start) (s : Server) (v : Service)
      → IsStarted on_unix parse_addr show_addr k get instant disk_of temp_dir host t s
      → t.result ≡ ok s
      → (run x k to_str h axum host t v).result ≡ some (ok tt)
      → IsServed v (run x k to_str h axum host t v)
  unfolding Server.begin Intake.initialize Server.run
  run-IsServed host t s v started e r =
      let c = started.config in
      let last = serve x k to_str h axum s v in
      let whole = run_of_started host t s v e in
      let (awaited, served) =
        end_of-ok v.served (await_workers v.panicked last.intake)
          (ap (λ (o : Ended). o.result) (sym whole) ∙ r) in
      let books = serve-Inv c.concurrency s v (
        subst (λ b. Inv c.concurrency b.intake) (sym started.made.server)
          (begun-Inv x k to_str h axum c.auth c.concurrency c.queue [])) in
      record {
        served = served;
        server = last;
        last = ap (λ (o : Ended). o.server) whole;
        drained =
            Inv-IsDrained c.concurrency last.intake (omega (arith, started.loaded.concurrency.low))
              books (await_workers-ok v.panicked last.intake awaited);
      }

  -- Where nothing else changes the path of the listener, whatever a run that has loaded its
  -- configuration meets, it leaves that path as it was or, if it had nothing of value there,
  -- with nothing of value; its start has lost nothing of the work directory but directories of
  -- jobs; and if the run returns success, the service has ended well, the agent is cancelled, no
  -- job is queued or running, no id is held and every permit is back.
  pub run-IsClean :
      (host : Host Addr) (c : Config Addr) (v : Service)
      → load on_unix parse_addr show_addr k get instant disk_of temp_dir ≡ ok c
      → let t = start on_unix parse_addr show_addr k get instant disk_of temp_dir host in
        IsClean host c t v (run x k to_str h axum host t v)
  run-IsClean host c v loaded =
      let t = start on_unix parse_addr show_addr k get instant disk_of temp_dir host in
      let harmless =
        start-IsHarmless on_unix parse_addr show_addr k get instant disk_of temp_dir host c
          loaded in
      elim (Result-cases t.result) [
        | inl (s, e) ↦
            let whole = run_of_started host t s v e in
            record {
              socket =
                  subst (λ (o : Ended). Spares host c.listen o.socket) (sym whole) harmless.socket;
              work = harmless.work;
              served = λ r.
                  run-IsServed host t s v
                    (start_sound on_unix parse_addr show_addr k get instant disk_of temp_dir host s
                      e)
                    e r;
            }
        | inr (s, e) ↦
            let whole = run_of_failed host t s v e in
            record {
              socket =
                  subst (λ (o : Ended). Spares host c.listen o.socket) (sym whole)
                    (subst (λ f. Spares host c.listen (give_up host f t.socket))
                      (harmless.failed s e) harmless.socket);
              work = harmless.work;
              served = λ r. absurd (not_ok s _ (ap (λ (o : Ended). o.result) whole) r);
            }
      ]
