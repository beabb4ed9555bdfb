-- ===== src/Engine/Retry/Laws.antt =====
-- How a transfer is retried.
use ffmpeg_docker_playground.Base.{
  ℕ, zero, suc, ◌+◌, ◌-◌, ◌≤◌, ◌≡◌, refl, sym, subst, Bool, true, false, Option, none, some, String,
  nat_eq, Result, ok, err, arith,
}
use ffmpeg_docker_playground.Model.Types.{Retry}
use ffmpeg_docker_playground.Model.Endpoint.Laws.{RetryIsBounded}
use ffmpeg_docker_playground.Engine.Retry.{
  TransferResult, Outcome, max_attempts, delay_ms, decide, attempt_from, retry_transfer,
}

module _ {ℓ} {S : Type ℓ} (operation : S → TransferResult × S) (sleep : ℕ → S → S) (delay : ℕ) where
  -- A course of attempts, with how many may be made and how many were: it ends with the first that
  -- succeeds or fails for good, or with the last that is allowed; a pause stands between two.
  pub data Course : ℕ → ℕ → S → Result String (Unit {0}) → S → Type ℓ where
    succeeds : {n : ℕ} {s t : S} → operation s ≡ (ok tt, t) → Course (suc n) 1 s (ok tt) t
    gives_up :
        {n : ℕ} {s t : S} {message : String}
        → operation s ≡ (err (message, false), t)
        → Course (suc n) 1 s (err message) t
    runs_out :
        {s t : S} {message : String}
        → operation s ≡ (err (message, true), t)
        → Course 1 1 s (err message) t
    goes_on :
        {n k : ℕ} {s t u : S} {message : String} {r : Result String (Unit {0})}
        → operation s ≡ (err (message, true), t)
        → Course (suc n) k (sleep delay t) r u
        → Course (suc (suc n)) (suc k) s r u

  Course-bounded :
      {n k : ℕ} {s t : S} {r : Result String (Unit {0})} → Course n k s r t → (1 ≤ k) × (k ≤ n)
  Course-bounded (succeeds e) = (omega arith, omega arith)
  Course-bounded (gives_up e) = (omega arith, omega arith)
  Course-bounded (runs_out e) = (omega arith, omega arith)
  Course-bounded (goes_on e c) = (omega arith, omega (arith, Course-bounded c))

  pub record IsCourse (n : ℕ) (s : S) (o : Outcome × S) : Type ℓ where
    pub made : ℕ
    pub result : Result String (Unit {0})
    pub returned : o.0 ≡ some result
    pub course : Course n made s result o.1

  abbrev is_zero : ℕ → Bool
  is_zero zero = true
  is_zero (suc n) = false

  decide-IsCourse :
      (s : S) (left : ℕ) (again : S → Outcome × S) (o : TransferResult × S)
      → operation s ≡ o
      → ((n : ℕ) (t : S) → left ≡ suc n → IsCourse left (sleep delay t) (again t))
      → IsCourse (suc left) s (decide (is_zero left) again o)
  unfolding decide
  decide-IsCourse s left again (ok _, t) e rest = record {
    made = 1;
    result = ok tt;
    returned = refl;
    course = succeeds e;
  }
  decide-IsCourse s left again (err (m, false), t) e rest = record {
    made = 1;
    result = err m;
    returned = refl;
    course = gives_up e;
  }
  decide-IsCourse s zero again (err (m, true), t) e rest = record {
    made = 1;
    result = err m;
    returned = refl;
    course = runs_out e;
  }
  decide-IsCourse s (suc n) again (err (m, true), t) e rest =
      let c = rest n t refl in
      record {
        made = suc c.made;
        result = c.result;
        returned = c.returned;
        course = goes_on e c.course;
      }

  attempt_from-IsCourse :
      (left attempt attempts : ℕ) (s : S)
      → attempt + suc left ≡ attempts
      → IsCourse (suc left) s (attempt_from operation sleep (suc left) attempt attempts delay s)
  unfolding attempt_from
  attempt_from-IsCourse zero attempt attempts s total =
      let last : nat_eq (attempt + 1) attempts ≡ true = ground arith in
      rw last (decide-IsCourse s zero _ (operation s) refl (λ n t e. absurd (omega arith)))
  attempt_from-IsCourse (suc left) attempt attempts s total =
      let early : nat_eq (attempt + 1) attempts ≡ false = ground arith in
      rw early (
        decide-IsCourse s (suc left) _ (operation s) refl (λ n t e.
          attempt_from-IsCourse left (attempt + 1) attempts (sleep delay t) (omega arith)))

module _ {ℓ} {S : Type ℓ} (operation : S → TransferResult × S) (sleep : ℕ → S → S) where
  retry_transfer-IsCourse_pos :
      (retry : Option Retry) (n : ℕ) (s : S)
      → max_attempts 1 retry ≡ suc n
      → IsCourse operation sleep
          (delay_ms retry)
          (max_attempts 1 retry)
          s
          (retry_transfer operation sleep retry s)
  unfolding retry_transfer
  retry_transfer-IsCourse_pos retry n s e =
      subst
        (λ k.
          IsCourse operation sleep (delay_ms retry) k s
            (attempt_from operation sleep k 0 k (delay_ms retry) s))
        (sym e) (attempt_from-IsCourse operation sleep (delay_ms retry) n 0 (suc n) s (omega arith))

  retry_transfer-IsCourse_of_bounded :
      (retry : Option Retry) (s : S)
      → RetryIsBounded retry
      → IsCourse operation sleep
          (delay_ms retry)
          (max_attempts 1 retry)
          s
          (retry_transfer operation sleep retry s)
  retry_transfer-IsCourse_of_bounded none s b = retry_transfer-IsCourse_pos none 0 s refl
  retry_transfer-IsCourse_of_bounded (some retry) s b =
      retry_transfer-IsCourse_pos (some retry) (retry.max_attempts - 1) s
        (omega (arith, b.some_attempt))

  -- With the retries of a validated endpoint a transfer always returns, by a course of at least
  -- one attempt and at most as many as allowed that stops at the first success or final failure,
  -- or at the last attempt allowed, with a pause between two attempts.
  pub retry_transfer-IsCourse :
      (retry : Option Retry) (s : S)
      → RetryIsBounded retry
      → (c : IsCourse operation sleep
          (delay_ms retry)
          (max_attempts 1 retry)
          s
          (retry_transfer operation sleep retry s))
        × (1 ≤ c.made)
        × (c.made ≤ max_attempts 1 retry)
  retry_transfer-IsCourse retry s b =
      let c = retry_transfer-IsCourse_of_bounded retry s b in
      let (low, high) = Course-bounded operation sleep (delay_ms retry) c.course in (c, low, high)
