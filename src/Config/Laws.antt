-- ===== src/Config/Laws.antt =====
-- What a configuration that was loaded has to do with the environment.
use ffmpeg_docker_playground.Base.Text.{parse_u64}
use ffmpeg_docker_playground.Base.{
  ℕ, ◌*◌, ◌≤◌, ◌≡◌, refl, ap, ◌∙◌, subst, Bool, not, Option, none, some, String, in_range, Result,
  ok, reject_if, or_err, map_err, >>=-eq-ok, reject_if-eq-ok, or_err-eq-ok, arith,
}
use ffmpeg_docker_playground.Auth.Jwks.Types.{KeyCodec}
use ffmpeg_docker_playground.Auth.Jwks.Store.{Disk}
use ffmpeg_docker_playground.Auth.Configure.{OsString, utf8, from_lookup}
use ffmpeg_docker_playground.Auth.Configure.Settings.{map_err-eq-ok}
use ffmpeg_docker_playground.Auth.Configure.Laws.{Explains, from_lookup_sound}
use ffmpeg_docker_playground.Listen.{parse}
use ffmpeg_docker_playground.Listen.Laws.{Says, parse_sound}
use ffmpeg_docker_playground.Config.{
  Config, ConfigError, bad_auth, bad_listen, invalid, out_of_range, text_or, to_string, gibibyte,
  number, join, load,
}

-- What an environment variable says of a number: its own value if it is text, else the default.
abbrev pub Gives : ℕ → ℕ → Option OsString → Type 0
Gives default value none = value ≡ default
Gives default value (some OsString.other) = value ≡ default
Gives default value (some (utf8 v)) = parse_u64 v ≡ some value

pub record IsNumber (o : Option OsString) (default min max value : ℕ) : Type 0 where
  pub given : Gives default value o
  pub low : min ≤ value
  pub high : value ≤ max

some-inj : {a b : ℕ} {o : Option ℕ} → o ≡ some a → o ≡ some b → b ≡ a
some-inj h k = cc

parse-Gives :
    (default value : ℕ) (o : Option OsString)
    → parse_u64 (to_string default) ≡ some default
    → parse_u64 (text_or (to_string default) o) ≡ some value
    → Gives default value o
parse-Gives default value none r h = some-inj r h
parse-Gives default value (some OsString.other) r h = some-inj r h
parse-Gives default value (some (utf8 v)) r h = h

number_sound :
    (get : String → Option OsString) (name : String) (default min max value : ℕ)
    → parse_u64 (to_string default) ≡ some default
    → number get name default min max ≡ ok value
    → IsNumber (get name) default min max value
unfolding number
number_sound get name default min max value r h =
    let (n, e, h1) =
      >>=-eq-ok (or_err (parse_u64 (text_or (to_string default) (get name))) (invalid name)) _ h in
    let (_, bounds, h2) =
      >>=-eq-ok (reject_if (not (in_range min max n)) (out_of_range name)) _ h1 in
    let same : n ≡ value = cc in
    let inside = reject_if-eq-ok (not (in_range min max n)) (out_of_range name) bounds in
    record {
      given = parse-Gives default value (get name) r (
          or_err-eq-ok (parse_u64 (text_or (to_string default) (get name))) (invalid name) e
          ∙ ap some same);
      low = ground (arith, inside, same);
      high = ground (arith, inside, same);
    }

abbrev Loaded : Type 0 → Type 0
Loaded Addr = Result ConfigError (Config Addr)

ok-inj : {Addr : Type 0} {a b : Config Addr} {r : Loaded Addr} → r ≡ ok a → r ≡ ok b → a ≡ b
ok-inj h k = cc

module _ {Addr : Type 0} (on_unix : Bool) (parse_addr : String → Option Addr)
    (show_addr : Addr → String) (k : KeyCodec) (get : String → Option OsString) (instant : ℕ)
    (disk_of : String → Disk) (temp_dir : String) where
  -- Every field has a source in the environment, and every number is within its bounds.
  pub record IsLoaded (c : Config Addr) : Type 0 where
    pub auth : Explains k get instant disk_of c.auth
    pub listen :
        Says on_unix parse_addr show_addr
          (text_or "127.0.0.1:8080" (get "FFMPEG_AGENT_LISTEN"))
          c.listen
    pub work_dir : c.work_dir ≡ text_or (join temp_dir "ffmpeg-agent") (get "FFMPEG_AGENT_WORK_DIR")
    pub ffmpeg : c.ffmpeg ≡ text_or "ffmpeg" (get "FFMPEG_AGENT_FFMPEG")
    pub concurrency : IsNumber (get "FFMPEG_AGENT_CONCURRENCY") 1 1 16 c.concurrency
    pub queue : IsNumber (get "FFMPEG_AGENT_QUEUE_CAPACITY") 1 1 64 c.queue
    pub heartbeat : IsNumber (get "FFMPEG_AGENT_HEARTBEAT_SECS") 10 1 300 c.heartbeat
    pub job_timeout : IsNumber (get "FFMPEG_AGENT_JOB_TIMEOUT_SECS") 0 0 86400 c.job_timeout
    pub stall_timeout : IsNumber (get "FFMPEG_AGENT_STALL_TIMEOUT_SECS") 120 1 3600 c.stall_timeout
    pub max_input :
        IsNumber
          (get "FFMPEG_AGENT_MAX_INPUT_BYTES")
          (16 * gibibyte)
          1
          (1024 * gibibyte)
          c.max_input
    pub max_output :
        IsNumber
          (get "FFMPEG_AGENT_MAX_OUTPUT_BYTES")
          (16 * gibibyte)
          1
          (1024 * gibibyte)
          c.max_output

  -- An agent that loads its configuration has an authenticator that the environment explains, a
  -- listener that the text of its variable says, and numbers that are the given ones, or the
  -- defaults where a variable is unset or not text, each within its bounds: 1 to 16 workers, 1
  -- to 64 waiting places, and so on.
  pub load_sound :
      (c : Config Addr)
      → load on_unix parse_addr show_addr k get instant disk_of temp_dir ≡ ok c
      → IsLoaded c
  unfolding load to_string parse_u64
  load_sound c h =
      let (auth, e1, h1) = >>=-eq-ok (map_err bad_auth (from_lookup k get instant disk_of)) _ h in
      let (listen, e2, h2) =
        >>=-eq-ok
          (map_err bad_listen (
            parse on_unix parse_addr show_addr
              (text_or "127.0.0.1:8080" (get "FFMPEG_AGENT_LISTEN"))))
          _ h1 in
      let (concurrency, n0, k0) = >>=-eq-ok (number get "FFMPEG_AGENT_CONCURRENCY" 1 1 16) _ h2 in
      let (queue, n1, k1) = >>=-eq-ok (number get "FFMPEG_AGENT_QUEUE_CAPACITY" 1 1 64) _ k0 in
      let (heartbeat, n2, k2) =
        >>=-eq-ok (number get "FFMPEG_AGENT_HEARTBEAT_SECS" 10 1 300) _ k1 in
      let (job_timeout, n3, k3) =
        >>=-eq-ok (number get "FFMPEG_AGENT_JOB_TIMEOUT_SECS" 0 0 86400) _ k2 in
      let (stall_timeout, n4, k4) =
        >>=-eq-ok (number get "FFMPEG_AGENT_STALL_TIMEOUT_SECS" 120 1 3600) _ k3 in
      let (max_input, n5, k5) =
        >>=-eq-ok (number get "FFMPEG_AGENT_MAX_INPUT_BYTES" (16 * gibibyte) 1 (1024 * gibibyte)) _
          k4 in
      let (max_output, n6, k6) =
        >>=-eq-ok (number get "FFMPEG_AGENT_MAX_OUTPUT_BYTES" (16 * gibibyte) 1 (1024 * gibibyte)) _
          k5 in
      subst IsLoaded (ok-inj refl k6) (record {
        auth =
            from_lookup_sound k get instant disk_of auth
              (map_err-eq-ok bad_auth (from_lookup k get instant disk_of) e1);
        listen =
            parse_sound on_unix parse_addr show_addr
              (text_or "127.0.0.1:8080" (get "FFMPEG_AGENT_LISTEN")) listen
              (map_err-eq-ok bad_listen _ e2);
        work_dir = refl;
        ffmpeg = refl;
        concurrency = number_sound get "FFMPEG_AGENT_CONCURRENCY" 1 1 16 concurrency refl n0;
        queue = number_sound get "FFMPEG_AGENT_QUEUE_CAPACITY" 1 1 64 queue refl n1;
        heartbeat = number_sound get "FFMPEG_AGENT_HEARTBEAT_SECS" 10 1 300 heartbeat refl n2;
        job_timeout =
            number_sound get "FFMPEG_AGENT_JOB_TIMEOUT_SECS" 0 0 86400 job_timeout refl n3;
        stall_timeout =
            number_sound get "FFMPEG_AGENT_STALL_TIMEOUT_SECS" 120 1 3600 stall_timeout refl n4;
        max_input =
            number_sound get "FFMPEG_AGENT_MAX_INPUT_BYTES" (16 * gibibyte) 1 (1024 * gibibyte)
              max_input refl n5;
        max_output =
            number_sound get "FFMPEG_AGENT_MAX_OUTPUT_BYTES" (16 * gibibyte) 1 (1024 * gibibyte)
              max_output refl n6;
      })
