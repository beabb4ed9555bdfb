-- ===== src/Engine/Life/Truth.antt =====
-- What a last event that says "succeeded" stands for.
use mathlib.Core.Bool.{false≢true}
use ffmpeg_docker_playground.Base.{
  ℕ, ◌≡◌, refl, ap, ◌∙◌, inl, inr, Bool, true, false, Option, none, some, List, [], ◌∷◌, String,
  Memᴰ, All, All-append, All-mem, Result, ok, err, Option-cases, if-elim, arith,
}
use ffmpeg_docker_playground.Model.Types.{Job, Event}
use ffmpeg_docker_playground.Engine.Notify.{event_of}
use ffmpeg_docker_playground.Engine.Execute.{Machine, Progress, Stop, failed, execute}
use ffmpeg_docker_playground.Engine.Execute.Done.{IsDone, execute_sound}
use ffmpeg_docker_playground.Engine.Life.{
  Life, begin, Poll, select, last_phase, settle, Action, beats, stops, cancels, reports, polls,
  emit, finish, step, run,
}

-- What the worker's `select!` sees of an execution that has returned: a panic returns nothing.
pub data Returns : Result Stop (Unit {0}) → Result String (Unit {0}) → Type 0 where
  done : Returns (ok tt) (ok tt)
  stopped : (message : String) → Returns (err (failed message)) (err message)

Returns-ok :
    {r : Result Stop (Unit {0})} {q : Result String (Unit {0})}
    → Returns r q
    → q ≡ ok tt
    → r ≡ ok tt
Returns-ok done e = refl
Returns-ok (stopped message) e = cc

abbrev pub Sees : Result Stop (Unit {0}) → Option (Result String (Unit {0})) → Type 0
Sees r none = Unit
Sees r (some q) = Returns r q

-- A poll sees nothing of the execution, or that it has returned what it returns.
abbrev pub IsHonest : Result Stop (Unit {0}) → Action → Type 0
IsHonest r (polls p) = Sees r p.executed
IsHonest r beats = Unit
IsHonest r stops = Unit
IsHonest r cancels = Unit
IsHonest r (reports report) = Unit

Sees-ok :
    (r : Result Stop (Unit {0})) (o : Option (Result String (Unit {0})))
    → Sees r o
    → o ≡ some (ok tt)
    → r ≡ ok tt
Sees-ok r none h e = cc
Sees-ok r (some q) h e = let done : q ≡ ok tt = cc in Returns-ok h done

select-ok :
    (cancelled : Bool) (p : Poll) → select cancelled p ≡ some (ok tt) → p.executed ≡ some (ok tt)
unfolding select
select-ok cancelled p h = ground arith

module _ (lossy : List ℕ → String) (r : Result Stop (Unit {0})) where
  -- A last event tells of a success only if there is one.
  abbrev IsTrue : Event → Type 0
  IsTrue e = e.terminal ≡ true → e.state ≡ "succeeded" → r ≡ ok tt

  emit-IsTrue :
      (terminal : Bool) (s : Life)
      → (terminal ≡ true → s.active.phase ≡ "succeeded" → r ≡ ok tt)
      → All IsTrue s.sent
      → All IsTrue (emit lossy terminal s).sent
  unfolding emit event_of
  emit-IsTrue terminal s h a = All-append IsTrue s.sent _ a (h, tt)

  phase_of_ok : (q : Result String (Unit {0})) → last_phase q ≡ "succeeded" → q ≡ ok tt
  phase_of_ok (ok _) e = refl
  phase_of_ok (err message) e = cc

  finish-IsTrue :
      (q : Result String (Unit {0})) (s : Life)
      → (q ≡ ok tt → r ≡ ok tt)
      → All IsTrue s.sent
      → All IsTrue (finish lossy q s).sent
  unfolding finish
  finish-IsTrue q s h a =
      emit-IsTrue true (record s { active = settle s.active q; beating = false; ended = true })
        (λ _ e. h (phase_of_ok q e)) a

  TellsTruth : Life → Type 0
  TellsTruth s = All IsTrue s.sent

  step-IsTrue : (s : Life) (a : Action) → IsHonest r a → TellsTruth s → TellsTruth (step lossy s a)
  unfolding step TellsTruth
  step-IsTrue s beats h t =
      if-elim TellsTruth s.beating (emit lossy false s) s
        (λ _. emit-IsTrue false s (λ e. absurd (false≢true e)) t) (λ _. t)
  step-IsTrue s stops h t =
      if-elim TellsTruth s.cancelled (record s { beating = false }) s (λ _. t) (λ _. t)
  step-IsTrue s cancels h t = t
  step-IsTrue s (reports report) h t = if-elim TellsTruth s.ended _ _ (λ _. t) (λ _. t)
  step-IsTrue s (polls p) h t = elim (Option-cases (select s.cancelled p)) [
    | inl e ↦ rw e (if-elim TellsTruth s.ended s s (λ _. t) (λ _. t))
    | inr (q, e) ↦ rw e (
        if-elim TellsTruth s.ended s (finish lossy q s) (λ _. t)
          (λ _.
            finish-IsTrue q s
              (λ done. Sees-ok r p.executed h (select-ok s.cancelled p (e ∙ ap some done))) t))
  ]

  run-IsTrue :
      (s : Life) (actions : List Action)
      → All (IsHonest r) actions
      → TellsTruth s
      → TellsTruth (run lossy s actions)
  unfolding run
  run-IsTrue s [] h t = t
  run-IsTrue s (a ∷ actions) (h, hs) t =
      run-IsTrue (step lossy s a) actions hs (step-IsTrue s a h t)

-- If the worker sees of an execution nothing, or that it has returned what it returns, then
-- whatever the heartbeat, the worker and the shutdown do, a terminal event that says succeeded
-- is sent only if the whole input was stored within the byte limit, FFmpeg exited with zero and
-- left an output that is neither empty nor at the limit, and the server answered a request with
-- the reads of the output file and with its size by a 2xx status.
pub success_is_true :
    (m : Machine) (job : Job) (p : Progress) (lossy : List ℕ → String) (id : String)
    (actions : List Action) (e : Event)
    → All (IsHonest (execute m job p).0) actions
    → Memᴰ e (run lossy (begin id) actions).sent
    → e.terminal ≡ true
    → e.state ≡ "succeeded"
    → IsDone m job (execute m job p).1
unfolding begin TellsTruth
success_is_true m job p lossy id actions e honest told terminal succeeded =
    let r = (execute m job p).0 in
    let truth = run-IsTrue lossy r (begin id) actions honest tt in
    execute_sound m job p (All-mem (IsTrue lossy r) truth told terminal succeeded)
