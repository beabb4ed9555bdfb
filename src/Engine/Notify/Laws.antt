-- ===== src/Engine/Notify/Laws.antt =====
-- The loop of `notify` is the loop of `retry_transfer`, written a second time.
use ffmpeg_docker_playground.Base.{
  ℕ, zero, suc, ◌+◌, ◌≤◌, ◌≡◌, refl, ◌∙◌, Bool, true, false, Option, none, some, ltb, nat_eq, ok,
  err, arith, Bool-cases, inl, inr, if◌then◌else◌,
}
use ffmpeg_docker_playground.Model.Types.{Retry}
use ffmpeg_docker_playground.Engine.Retry.{
  StatusClass, TransferResult, Outcome, retry_status, delay_ms, decide, attempt_from,
}
use ffmpeg_docker_playground.Engine.Notify.{judge_answer, pause_if, send_from, notify, attempts_of}

-- An answer as the result of a transfer.
abbrev pub result_of : StatusClass → Option ℕ → TransferResult
result_of c none = err ("", true)
result_of c (some status) = if c.is_success status then ok tt else err ("", retry_status c status)

abbrev pub acknowledged : Outcome → Bool
acknowledged (some (ok _)) = true
acknowledged _ = false

module _ {ℓ} {S : Type ℓ} (c : StatusClass) (send : S → Option ℕ × S) (sleep : ℕ → S → S) where
  abbrev pub transfer : S → TransferResult × S
  transfer s = (result_of c (send s).0, (send s).1)

  abbrev pub outcome_of : Outcome × S → Bool × S
  outcome_of o = (acknowledged o.0, o.1)

  judge_answer-decide :
      (answer : Option ℕ) (t : S) (is_last : Bool) (more : Bool × S) (again : S → Outcome × S)
      → more ≡ (if is_last then (false, t) else outcome_of (again t))
      → judge_answer c answer t more ≡ outcome_of (decide is_last again (result_of c answer, t))
  unfolding judge_answer decide
  judge_answer-decide none t true more again e = e
  judge_answer-decide none t false more again e = e
  judge_answer-decide (some status) t is_last more again e =
      elim (Bool-cases (c.is_success status)) [
        | inl s ↦ rw s refl
        | inr s ↦ elim (Bool-cases (retry_status c status)) [
          | inl r ↦ rw (s, r) (e ∙ last is_last)
          | inr r ↦ rw (s, r) refl
        ]
      ]
    where
      last :
          (b : Bool)
          → (if b then (false, t) else outcome_of (again t))
            ≡ outcome_of (if b then (some (err ""), t) else again t)
      last true = refl
      last false = refl

  send_from-attempt_from :
      (left attempt attempts delay : ℕ) (s : S)
      → attempt + suc left ≡ attempts
      → send_from c send sleep (suc left) attempt attempts delay s
        ≡ outcome_of (attempt_from transfer sleep (suc left) attempt attempts delay s)
  unfolding send_from attempt_from pause_if
  send_from-attempt_from zero attempt attempts delay s total =
      let last : nat_eq (attempt + 1) attempts ≡ true = ground arith in
      let none_left : ltb (attempt + 1) attempts ≡ false = ground arith in
      judge_answer-decide (send s).0 (send s).1 (nat_eq (attempt + 1) attempts) _ _
        (rw (last, none_left) refl)
  send_from-attempt_from (suc left) attempt attempts delay s total =
      let early : nat_eq (attempt + 1) attempts ≡ false = ground arith in
      let some_left : ltb (attempt + 1) attempts ≡ true = ground arith in
      let t = (send s).1 in
      judge_answer-decide (send s).0 t (nat_eq (attempt + 1) attempts) _ _ (
        rw (early, some_left)
          (send_from-attempt_from left (attempt + 1) attempts delay (sleep delay t) (omega arith)))

  -- With at least one attempt, an event is sent by the same attempts and pauses as a transfer
  -- with the same retries, and is acknowledged exactly if that transfer succeeds.
  pub notify_lem :
      (retry : Option Retry) (terminal : Bool) (s : S)
      → 1 ≤ attempts_of terminal retry
      → notify c send sleep retry terminal s
        ≡ outcome_of (
            attempt_from transfer sleep
              (attempts_of terminal retry)
              0
              (attempts_of terminal retry)
              (delay_ms retry)
              s)
  unfolding notify
  notify_lem retry terminal s some_attempt = from_pos (attempts_of terminal retry) some_attempt
    where
      from_pos :
          (n : ℕ)
          → 1 ≤ n
          → send_from c send sleep n 0 n (delay_ms retry) s
            ≡ outcome_of (attempt_from transfer sleep n 0 n (delay_ms retry) s)
      from_pos zero h = absurd (omega arith)
      from_pos (suc n) h = send_from-attempt_from n 0 (suc n) (delay_ms retry) s (omega arith)
