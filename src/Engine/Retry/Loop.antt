-- ===== src/Engine/Retry/Loop.antt =====
-- What holds behind the loop of attempts, whatever the operation.
use ffmpeg_docker_playground.Base.{
  Option, ℕ, zero, suc, ◌+◌, ◌≡◌, refl, subst, Bool, true, false, some, nat_eq, ok, err,
}
use ffmpeg_docker_playground.Model.Types.{Retry}
use ffmpeg_docker_playground.Engine.Retry.{
  TransferResult, Outcome, max_attempts, delay_ms, decide, attempt_from, retry_transfer,
}

module _ {ℓ} {S : Type ℓ} (operation : S → TransferResult × S) (sleep : ℕ → S → S) where
  module _ {κ} (P : S → Type κ) (acts : (s : S) → P s → P (operation s).1)
      (sleeps : (delay : ℕ) (s : S) → P s → P (sleep delay s)) where
    decide-kept :
        (is_last : Bool) (again : S → Outcome × S) (o : TransferResult × S)
        → P o.1
        → ((t : S) → P t → P (again t).1)
        → P (decide is_last again o).1
    unfolding decide
    decide-kept is_last again (ok _, t) h rest = h
    decide-kept is_last again (err (m, false), t) h rest = h
    decide-kept true again (err (m, true), t) h rest = h
    decide-kept false again (err (m, true), t) h rest = rest t h

    attempt_from-kept :
        (left attempt attempts delay : ℕ) (s : S)
        → P s
        → P (attempt_from operation sleep left attempt attempts delay s).1
    unfolding attempt_from
    attempt_from-kept zero attempt attempts delay s h = h
    attempt_from-kept (suc left) attempt attempts delay s h =
        decide-kept (nat_eq (attempt + 1) attempts) _ (operation s) (acts s h) (λ t e.
          attempt_from-kept left (attempt + 1) attempts delay (sleep delay t) (sleeps delay t e))

    -- What every attempt and every pause keeps is kept by a transfer.
    pub retry_transfer-kept :
        (retry : Option Retry) (s : S) → P s → P (retry_transfer operation sleep retry s).1
    unfolding retry_transfer
    retry_transfer-kept retry s h =
        attempt_from-kept (max_attempts 1 retry) 0 (max_attempts 1 retry) (delay_ms retry) s h

    decide-succeeded :
        (is_last : Bool) (again : S → Outcome × S) (o : TransferResult × S) (s : S)
        → P s
        → operation s ≡ o
        → (decide is_last again o).0 ≡ some (ok tt)
        → ((t : S)
            → P t
            → (again t).0 ≡ some (ok tt)
            → (s' : S) × P s' × (operation s' ≡ (ok tt, (again t).1)))
        → (s' : S) × P s' × (operation s' ≡ (ok tt, (decide is_last again o).1))
    unfolding decide
    decide-succeeded is_last again (ok _, t) s v e h rest = (s, v, e)
    decide-succeeded is_last again (err (m, false), t) s v e h rest = cc
    decide-succeeded true again (err (m, true), t) s v e h rest = cc
    decide-succeeded false again (err (m, true), t) s v e h rest =
        rest t (subst (λ (o : TransferResult × S). P o.1) e (acts s v)) h

    attempt_from-succeeded :
        (left attempt attempts delay : ℕ) (s : S)
        → P s
        → (attempt_from operation sleep left attempt attempts delay s).0 ≡ some (ok tt)
        → (s' : S) × P s'
          × (operation s' ≡ (ok tt, (attempt_from operation sleep left attempt attempts delay s).1))
    unfolding attempt_from
    attempt_from-succeeded zero attempt attempts delay s v h = cc
    attempt_from-succeeded (suc left) attempt attempts delay s v h =
        decide-succeeded (nat_eq (attempt + 1) attempts) _ (operation s) s v refl h (λ t k e.
          attempt_from-succeeded left (attempt + 1) attempts delay (sleep delay t)
            (sleeps delay t k) e)

    -- A transfer that succeeds ends with an attempt that does, from a state that the attempts and
    -- the pauses before it have kept.
    pub retry_transfer-succeeded :
        (retry : Option Retry) (s : S)
        → P s
        → (retry_transfer operation sleep retry s).0 ≡ some (ok tt)
        → (s' : S) × P s' × (operation s' ≡ (ok tt, (retry_transfer operation sleep retry s).1))
    unfolding retry_transfer
    retry_transfer-succeeded retry s v h =
        attempt_from-succeeded (max_attempts 1 retry) 0 (max_attempts 1 retry) (delay_ms retry) s v
          h
