-- ===== src/Engine/Retry.antt =====
-- agent/src/engine.rs: `retry_status` and `retry_transfer`, the loop of attempts of a transfer.
pub mod Laws
pub mod Loop
use ffmpeg_docker_playground.Base.{
  ℕ, zero, suc, ◌+◌, Bool, true, false, not, ◌||◌, Option, none, some, String, nat_eq, Result, ok,
  err, if◌then◌else◌,
}
use ffmpeg_docker_playground.Model.Types.{Retry}

-- `StatusCode::is_success` and `is_server_error` are the http crate's.
pub record StatusClass : Type 0 where
  pub is_success : ℕ → Bool
  pub is_server_error : ℕ → Bool

unfoldable pub retry_status : StatusClass → ℕ → Bool
retry_status c status = c.is_server_error status || nat_eq status 408 || nat_eq status 429

-- The message of a failed attempt, and whether another one may help.
abbrev pub TransferResult : Type 0
TransferResult = Result (String × Bool) (Unit {0})

abbrev pub max_attempts : ℕ → Option Retry → ℕ
max_attempts default none = default
max_attempts default (some retry) = retry.max_attempts

abbrev pub delay_ms : Option Retry → ℕ
delay_ms none = 1000
delay_ms (some retry) = retry.delay_ms

abbrev pub Outcome : Type 0
Outcome = Option (Result String (Unit {0}))

-- The `match` on the result of one attempt: return, or go on with what stands behind the pause.
unfoldable pub decide {ℓ} :
    {S : Type ℓ} → Bool → (S → Outcome × S) → TransferResult × S → Outcome × S
decide is_last again (ok _, s) = (some (ok tt), s)
decide is_last again (err (message, retryable), s) =
    let more = again s in if not retryable || is_last then (some (err message), s) else more

-- One attempt acts on the world, and so does the pause between two attempts.
module _ {ℓ} {S : Type ℓ} (operation : S → TransferResult × S) (sleep : ℕ → S → S) where
  -- The rounds of `for attempt in 0..attempts` that are left; `none` is the `unreachable!()` behind
  -- the loop.
  unfoldable pub attempt_from : ℕ → ℕ → ℕ → ℕ → S → Outcome × S
  unfolding decide
  attempt_from zero attempt attempts delay s = (none, s)
  attempt_from (suc left) attempt attempts delay s =
      decide (nat_eq (attempt + 1) attempts)
        (λ s'. attempt_from left (attempt + 1) attempts delay (sleep delay s')) (operation s)

  unfoldable pub retry_transfer : Option Retry → S → Outcome × S
  unfolding attempt_from
  retry_transfer retry s =
      attempt_from (max_attempts 1 retry) 0 (max_attempts 1 retry) (delay_ms retry) s
