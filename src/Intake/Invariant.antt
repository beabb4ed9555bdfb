-- ===== src/Intake/Invariant.antt =====
-- The books of the agent: permits, places and workers add up, and no id is in flight twice.
use ffmpeg_docker_playground.Base.{
  ℕ, suc, ◌+◌, ◌≤◌, ◌≡◌, refl, ◌⊎◌, inl, inr, true, false, List, [], ◌∷◌, ◌++◌, String, eq_iff,
  eq_refl, length, contains, length-append, arith, Bool-cases, Result-cases,
}
use ffmpeg_docker_playground.Model.Job.{count, validate}
use ffmpeg_docker_playground.Model.Types.{Job}
use ffmpeg_docker_playground.Model.Endpoint.{Http}
use ffmpeg_docker_playground.Intake.{
  State, initialize, remove, try_send, admit, submit, receive, finish, release, leave, Action,
  admits, finishes, receives, releases, leaves, cancels, step, run,
}

unfoldable pub workers : State → ℕ
workers s = s.idle + length s.running + s.releasing

-- Jobs in flight and permits; every id in flight is queued or running, once; and workers leave
-- only at shutdown, with nothing left to do.
pub record Inv (concurrency : ℕ) (s : State) : Type 0 where
  pub slots : s.permits + length s.queue + length s.running + s.releasing ≡ s.capacity
  pub tracked : (id : String) → count id s.jobs ≡ count id s.queue + count id s.running
  pub once : (id : String) → count id s.jobs ≤ 1
  pub staffed : workers s ≤ concurrency
  pub loyal : (workers s ≡ concurrency) ⊎ ((s.cancelled ≡ true) × (s.queue ≡ []))

pub count-append_one :
    (id : String) (xs : List String) (x : String)
    → count id (xs ++ x ∷ []) ≡ count id xs + count id (x ∷ [])
unfolding count
count-append_one id [] x = ground arith
count-append_one id (y ∷ xs) x = ground (arith, count-append_one id xs x)

pub count-remove :
    (id x : String) (xs : List String)
    → contains x xs ≡ true
    → count id xs ≡ count id (x ∷ []) + count id (remove x xs)
unfolding count remove contains
count-remove id x [] h = cc
count-remove id x (y ∷ xs) h =
    ground (arith, eq_iff y x, eq_iff y id, eq_iff x id, count-remove id x xs)

pub length-remove :
    (x : String) (xs : List String) → contains x xs ≡ true → length xs ≡ suc (length (remove x xs))
unfolding remove contains
length-remove x [] h = cc
length-remove x (y ∷ xs) h = ground (arith, length-remove x xs)

pub contains-count : (x : String) (xs : List String) → contains x xs ≡ false → count x xs ≡ 0
unfolding contains count
contains-count x [] h = refl
contains-count x (y ∷ xs) h = ground (arith, contains-count x xs)

pub count-pos : (x : String) (xs : List String) → contains x xs ≡ true → 1 ≤ count x xs
unfolding contains count
count-pos x [] h = cc
count-pos x (y ∷ xs) h = ground (arith, count-pos x xs)

pub contains_of_count : (x : String) (xs : List String) → 1 ≤ count x xs → contains x xs ≡ true
contains_of_count x xs h = elim (Bool-cases (contains x xs)) [
  | inl e ↦ e
  | inr e ↦ absurd (omega (arith, contains-count x xs e))
]

module _ (concurrency : ℕ) {s : State} (v : Inv concurrency s) where
  pub receive-Inv : Inv concurrency (receive s)
  unfolding receive count workers
  receive-Inv = record {
    slots = ground (arith, v.slots);
    tracked = λ i. ground (arith, v.tracked i);
    once = λ i. ground (arith, v.once i);
    staffed = ground (arith, v.staffed);
    loyal = ground (arith, v.loyal);
  }

  pub finish-Inv : (id : String) → Inv concurrency (finish s id)
  unfolding finish workers
  finish-Inv id = elim (Bool-cases (contains id s.running)) [
    | inr e ↦ rw e v
    | inl e ↦
        let held : contains id s.jobs ≡ true =
          contains_of_count id s.jobs (omega (arith, v.tracked id, count-pos id s.running e)) in
        rw e (record {
          slots = omega (arith, v.slots, length-remove id s.running e);
          tracked = λ i.
              omega
                (arith, v.tracked i, count-remove i id s.running e, count-remove i id s.jobs held);
          once = λ i. omega (arith, v.once i, count-remove i id s.jobs held);
          staffed = omega (arith, v.staffed, length-remove id s.running e);
          loyal = ground (arith, v.loyal, length-remove id s.running e);
        })
  ]

  pub release-Inv : Inv concurrency (release s)
  unfolding release workers
  release-Inv = record {
    slots = ground (arith, v.slots);
    tracked = λ i. ground (arith, v.tracked i);
    once = λ i. ground (arith, v.once i);
    staffed = ground (arith, v.staffed);
    loyal = ground (arith, v.loyal);
  }

  pub leave-Inv : Inv concurrency (leave s)
  unfolding leave workers
  leave-Inv = record {
    slots = ground (arith, v.slots);
    tracked = λ i. ground (arith, v.tracked i);
    once = λ i. ground (arith, v.once i);
    staffed = ground (arith, v.staffed);
    loyal = ground (arith, v.loyal);
  }

  pub cancel-Inv : Inv concurrency (record s { cancelled = true })
  unfolding workers
  cancel-Inv = record {
    slots = v.slots;
    tracked = v.tracked;
    once = v.once;
    staffed = v.staffed;
    loyal = ground (arith, v.loyal);
  }

  pub admit-Inv : (id : String) → Inv concurrency (admit s id).1
  unfolding admit try_send workers count
  admit-Inv id = record {
    slots = ground (arith, v.slots, length-append s.queue (id ∷ []));
    tracked =
        λ i. ground (arith, v.tracked i, eq_refl id, eq_iff id i, count-append_one i s.queue id);
    once = λ i. ground (arith, v.once i, eq_refl id, eq_iff id i, contains-count id s.jobs);
    staffed = ground (arith, v.staffed);
    loyal = ground (arith, v.loyal);
  }

initialize-Inv : (concurrency queue : ℕ) → Inv concurrency (initialize concurrency queue)
unfolding initialize workers count
initialize-Inv concurrency queue = record {
  slots = omega arith;
  tracked = λ i. refl;
  once = λ i. omega arith;
  staffed = omega arith;
  loyal = inl (omega arith);
}

-- Every action of a client, of a worker or of the shutdown keeps the books.
pub step-Inv :
    (concurrency : ℕ) (s : State) (a : Action) → Inv concurrency s → Inv concurrency (step s a)
unfolding step
step-Inv c s (admits id) v = admit-Inv c v id
step-Inv c s (finishes id) v = finish-Inv c v id
step-Inv c s receives v = receive-Inv c v
step-Inv c s releases v = release-Inv c v
step-Inv c s leaves v = leave-Inv c v
step-Inv c s cancels v = cancel-Inv c v

pub run-Inv :
    (concurrency : ℕ) (s : State) (actions : List Action)
    → Inv concurrency s
    → Inv concurrency (run s actions)
unfolding run
run-Inv c s [] v = v
run-Inv c s (a ∷ actions) v = run-Inv c (step s a) actions (step-Inv c s a v)

-- After any interleaving of requests, workers and shutdown, permits and jobs in flight add up to
-- the capacity, an id in flight is queued or running exactly once, and workers end only at
-- shutdown with an empty queue.
pub reachable-Inv :
    (concurrency queue : ℕ) (actions : List Action)
    → Inv concurrency (run (initialize concurrency queue) actions)
reachable-Inv c q actions = run-Inv c _ actions (initialize-Inv c q)

pub submit-Inv :
    (h : Http) (concurrency : ℕ) (s : State) (id : String) (job : Job)
    → Inv concurrency s
    → Inv concurrency (submit h s id job).1
unfolding submit
submit-Inv h c s id job v = elim (Result-cases (validate h (record job { id = id }))) [
  | inr (bad, e) ↦ rw (e, submit) v
  | inl (_, e) ↦ rw (e, submit) (admit-Inv c v id)
]
