-- ===== src/Config.antt =====
-- agent/src/config.rs: `number` and `Config::load`. The environment, the disk, the clock and the
-- directory for temporary files are arguments; what is not UTF-8 counts as unset, as in `env::var`.
-- A `u64` fits a `usize`: the agent runs on 64 bits.
pub mod Laws
pub mod Tests
use Prim.Native.String
use Prim.Native.Char.{code}
use ffmpeg_docker_playground.Base.Text.{parse_u64}
use ffmpeg_docker_playground.Base.Text.Split.{◌++ₛ◌}
use ffmpeg_docker_playground.Base.{
  ℕ, zero, suc, ◌*◌, ◌/◌, ◌%◌, Bool, true, false, not, Option, none, some, List, [], ◌∷◌, String,
  nat_eq, in_range, is_empty, Result, ok, err, ◌>>=◌, ◌>>◌, reject_if, or_err, map_err,
  if◌then◌else◌,
}
use ffmpeg_docker_playground.Auth.Jwks.Types.{KeyCodec}
use ffmpeg_docker_playground.Auth.Jwks.Store.{Disk}
use ffmpeg_docker_playground.Auth.Access.{Authenticator}
use ffmpeg_docker_playground.Auth.Configure.{OsString, utf8, from_lookup}
use ffmpeg_docker_playground.Auth.Configure as Configure
use ffmpeg_docker_playground.Listen.{Listen, ListenError, parse}

pub record Config (Addr : Type 0) : Type 0 where
  pub listen : Listen Addr
  pub auth : Authenticator
  pub work_dir : String
  pub ffmpeg : String
  pub concurrency : ℕ
  pub queue : ℕ
  pub heartbeat : ℕ
  pub job_timeout : ℕ
  pub stall_timeout : ℕ
  pub max_input : ℕ
  pub max_output : ℕ

pub data ConfigError : Type 0 where
  bad_auth : Configure.ConfigError → ConfigError
  bad_listen : ListenError → ConfigError
  invalid out_of_range : String → ConfigError

-- `env::var(name).unwrap_or_else(…)`
abbrev pub text_or : String → Option OsString → String
text_or default none = default
text_or default (some OsString.other) = default
text_or default (some (utf8 v)) = v

abbrev digit : ℕ → String
digit n =
    if nat_eq n 0
    then "0"
    else if nat_eq n 1
    then "1"
    else if nat_eq n 2
    then "2"
    else if nat_eq n 3
    then "3"
    else if nat_eq n 4
    then "4"
    else if nat_eq n 5
    then "5"
    else if nat_eq n 6
    then "6"
    else if nat_eq n 7
    then "7"
    else if nat_eq n 8
    then "8"
    else "9"

-- The decimal digits in front of a text; a `u64` has at most twenty.
digits_before : ℕ → ℕ → String → String
digits_before zero n text = text
digits_before (suc fuel) n text =
    let here = digit (n % 10) ++ₛ text in
    let more = digits_before fuel (n / 10) here in if nat_eq (n / 10) 0 then here else more

-- `u64::to_string`
unfoldable pub to_string : ℕ → String
unfolding digits_before
to_string n = digits_before 20 n ""

abbrev pub gibibyte : ℕ
gibibyte = 1_073_741_824

module _ (get : String → Option OsString) where
  unfoldable pub number : String → ℕ → ℕ → ℕ → Result ConfigError ℕ
  unfolding to_string
  number name default min max = do
    value ← or_err (parse_u64 (text_or (to_string default) (get name))) (invalid name)
    reject_if (not (in_range min max value)) (out_of_range name)
    ok value

-- `Path::join` with a relative path.
ends_in_slash : String → Bool
ends_in_slash String.[] = false
ends_in_slash (String.◌∷◌ c String.[]) = nat_eq (code c) b'/'
ends_in_slash (String.◌∷◌ c (String.◌∷◌ d s)) = ends_in_slash (String.◌∷◌ d s)

unfoldable pub join : String → String → String
unfolding ends_in_slash
join String.[] name = name
join (String.◌∷◌ c s) name =
    let dir = String.◌∷◌ c s in if ends_in_slash dir then dir ++ₛ name else dir ++ₛ "/" ++ₛ name

module _ {Addr : Type 0} (on_unix : Bool) (parse_addr : String → Option Addr)
    (show_addr : Addr → String) (k : KeyCodec) (get : String → Option OsString) (instant : ℕ)
    (disk_of : String → Disk) (temp_dir : String) where
  unfoldable pub load : Result ConfigError (Config Addr)
  unfolding number join
  load = do
    auth ← map_err bad_auth (from_lookup k get instant disk_of)
    listen ←
        map_err bad_listen (
          parse on_unix parse_addr show_addr (text_or "127.0.0.1:8080" (get "FFMPEG_AGENT_LISTEN")))
    concurrency ← number get "FFMPEG_AGENT_CONCURRENCY" 1 1 16
    queue ← number get "FFMPEG_AGENT_QUEUE_CAPACITY" 1 1 64
    heartbeat ← number get "FFMPEG_AGENT_HEARTBEAT_SECS" 10 1 300
    job_timeout ← number get "FFMPEG_AGENT_JOB_TIMEOUT_SECS" 0 0 86400
    stall_timeout ← number get "FFMPEG_AGENT_STALL_TIMEOUT_SECS" 120 1 3600
    max_input ← number get "FFMPEG_AGENT_MAX_INPUT_BYTES" (16 * gibibyte) 1 (1024 * gibibyte)
    max_output ← number get "FFMPEG_AGENT_MAX_OUTPUT_BYTES" (16 * gibibyte) 1 (1024 * gibibyte)
    ok (record {
      listen = listen;
      auth = auth;
      work_dir = text_or (join temp_dir "ffmpeg-agent") (get "FFMPEG_AGENT_WORK_DIR");
      ffmpeg = text_or "ffmpeg" (get "FFMPEG_AGENT_FFMPEG");
      concurrency = concurrency;
      queue = queue;
      heartbeat = heartbeat;
      job_timeout = job_timeout;
      stall_timeout = stall_timeout;
      max_input = max_input;
      max_output = max_output;
    })
