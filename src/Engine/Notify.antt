-- ===== src/Engine/Notify.antt =====
-- agent/src/engine.rs: `notify`, which reports an event to the callback of a job.
pub mod Laws
use ffmpeg_docker_playground.Base.Words.{u64_max}
use ffmpeg_docker_playground.Base.{
  ℕ, zero, suc, ◌+◌, Bool, true, false, not, ◌&&◌, Option, none, some, List, [], ◌∷◌, String, ltb,
  nat_eq, is_empty, if◌then◌else◌,
}
use ffmpeg_docker_playground.Model.Types.{Retry, Event}
use ffmpeg_docker_playground.Model.Types as Types
use ffmpeg_docker_playground.Engine.Retry.{StatusClass, retry_status, delay_ms}

-- The fields of `Progress` and `Active` that an event is made of.
pub record Active : Type 0 where
  pub id : String
  pub sequence : ℕ
  pub phase : String
  pub outcome : Types.Outcome
  pub log : List ℕ
  pub log_tail : List ℕ

-- `AtomicU64::fetch_add` of one wraps.
unfoldable pub next_sequence : Active → Active
next_sequence a = record a { sequence = if nat_eq a.sequence u64_max then 0 else a.sequence + 1 }

-- `terminal.then_some(value)`
abbrev pub then_some {ℓ} : {A : Type ℓ} → Bool → A → Option A
then_some true a = some a
then_some false a = none

-- `String::from_utf8_lossy` is the standard library's.
unfoldable pub event_of : (List ℕ → String) → Active → Bool → Event
event_of lossy a terminal = record {
  version = 1;
  id = a.id;
  sequence = a.sequence;
  state = a.phase;
  terminal = terminal;
  result = then_some terminal a.outcome;
  ffmpeg_log = then_some terminal (lossy a.log);
  ffmpeg_log_tail = then_some (terminal && not (is_empty a.log_tail)) (lossy a.log_tail);
}

abbrev pub attempts_of : Bool → Option Retry → ℕ
attempts_of terminal none = if terminal then 3 else 1
attempts_of terminal (some retry) = retry.max_attempts

-- The `match` on one answer: the end, or what stands behind it.
unfoldable pub judge_answer {ℓ} : {S : Type ℓ} → StatusClass → Option ℕ → S → Bool × S → Bool × S
judge_answer c none s more = more
judge_answer c (some status) s more =
    if c.is_success status
    then (true, s)
    else if not (retry_status c status)
    then (false, s)
    else more

-- Sending the event changes the world and may give a status; so does the pause.
module _ {ℓ} {S : Type ℓ} (c : StatusClass) (send : S → Option ℕ × S) (sleep : ℕ → S → S) where
  unfoldable pub pause_if : Bool → ℕ → S → S
  pause_if true delay s = sleep delay s
  pause_if false delay s = s

  -- The rounds of `for attempt in 0..attempts` that are left.
  unfoldable pub send_from : ℕ → ℕ → ℕ → ℕ → S → Bool × S
  unfolding judge_answer pause_if
  send_from zero attempt attempts delay s = (false, s)
  send_from (suc left) attempt attempts delay s =
      let (answer, t) = send s in
      let more =
        send_from left (attempt + 1) attempts delay
          (pause_if (ltb (attempt + 1) attempts) delay t) in
      judge_answer c answer t more

  -- The loop of `notify`: whether the event was acknowledged.
  unfoldable pub notify : Option Retry → Bool → S → Bool × S
  unfolding send_from
  notify retry terminal s =
      send_from (attempts_of terminal retry) 0 (attempts_of terminal retry) (delay_ms retry) s
