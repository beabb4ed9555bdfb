-- ===== src/Engine/Wire/Laws.antt =====
-- What the callback of a job receives, in which order, and how often.
use ffmpeg_docker_playground.Base.{
  if-elim, ℕ, zero, suc, ◌+◌, ◌≤◌, ◌<◌, ◌≡◌, refl, sym, subst, Bool, true, false, Option, none,
  some, List, [], ◌∷◌, String, All, All-append, length, length-append, Result, arith,
}
use ffmpeg_docker_playground.Model.Types.{Retry, Event}
use ffmpeg_docker_playground.Engine.Notify.{event_of, attempts_of}
use ffmpeg_docker_playground.Engine.Life.{Life, Poll, begin, select, settle, emit, finish}
use ffmpeg_docker_playground.Engine.Life as Life
use ffmpeg_docker_playground.Engine.Life.Laws.{IsConversation}
use ffmpeg_docker_playground.Engine.Life.Laws as Said
use ffmpeg_docker_playground.Engine.Wire.{
  Wire, begin_wire, Action, attempts, settles, lives, attempt, launch, beat, conclude, halt, step,
  run,
}
use ffmpeg_docker_playground.Engine.Wire.Order.{
  IsSorted, copies, append-IsSorted, copies-append, copies_none, All-weaken, All-before,
}
use ffmpeg_docker_playground.Engine.Wire.Told.{step-life}

attempts_of-le :
    (terminal : Bool) (retry : Option Retry) → attempts_of terminal retry ≤ attempts_of true retry
attempts_of-le true none = omega arith
attempts_of-le false none = omega arith
attempts_of-le terminal (some retry) = omega arith

emit-length :
    (lossy : List ℕ → String) (terminal : Bool) (s : Life)
    → length (emit lossy terminal s).sent ≡ suc (length s.sent)
unfolding emit
emit-length lossy terminal s =
    omega (arith, length-append s.sent (event_of lossy s.active terminal ∷ []))

-- The requests about a job: in the order of the events, each about an event that has been made, no
-- more than the attempts of `notify` for one event.
pub record IsOrdered (retry : Option Retry) (id : String) (w : Wire) : Type 0 where
  pub sorted : IsSorted w.requests
  pub within : All (λ i. i < length w.life.sent) w.requests
  pub few : (i : ℕ) → copies i w.requests ≤ attempts_of true retry
  pub conversation : IsConversation id w.life.ended w.life.sent

module _ (lossy : List ℕ → String) (retry : Option Retry) (id : String) where
  abbrev pub most : ℕ
  most = attempts_of true retry

  abbrev pub Now : ℕ → List ℕ → Option (ℕ × ℕ) → Type 0
  Now n requests none = Unit
  Now n requests (some (i, left)) = (suc i ≡ n) × (copies i requests + left ≤ most)

  pub record Inv (w : Wire) : Type 0 where
    sorted : IsSorted w.requests
    within : All (λ i. i < length w.life.sent) w.requests
    few : (i : ℕ) → copies i w.requests ≤ most
    now : Now (length w.life.sent) w.requests w.sending

  attempt-Inv : (o : Option (ℕ × ℕ)) (w : Wire) → w.sending ≡ o → Inv w → Inv (attempt o w)
  unfolding attempt copies
  attempt-Inv none w e v = v
  attempt-Inv (some (i, zero)) w e v = record {
    sorted = v.sorted;
    within = v.within;
    few = v.few;
    now = tt;
  }
  attempt-Inv (some (i, suc left)) w e v =
      let (last, room) = subst (Now (length w.life.sent) w.requests) e v.now in
      let below =
        All-before i w.requests (subst (λ n. All (λ j. j < n) w.requests) (sym last) v.within) in
      record {
        sorted = append-IsSorted w.requests i v.sorted below;
        within =
            All-append (λ j. j < length w.life.sent) w.requests (i ∷ []) v.within (omega arith, tt);
        few = λ j. ground (arith, copies-append j w.requests i, v.few j, room);
        now = (last, ground (arith, copies-append i w.requests i, room));
      }

  launch-Inv :
      (terminal : Bool) (life : Life) (w : Wire)
      → length life.sent ≡ suc (length w.life.sent)
      → Inv w
      → Inv (launch lossy retry terminal life w)
  unfolding launch
  launch-Inv terminal life w e v = record {
    sorted = v.sorted;
    within = All-weaken (length w.life.sent) (length life.sent) w.requests (omega arith) v.within;
    few = v.few;
    now = (
      sym e,
      omega (
        arith,
        copies_none (length w.life.sent) w.requests v.within,
        attempts_of-le terminal retry,
      ),
    );
  }

  live-Inv :
      (life : Life) (w : Wire) → life.sent ≡ w.life.sent → Inv w → Inv (record w { life = life })
  live-Inv life w e v = record {
    sorted = v.sorted;
    within = subst (λ (es : List Event). All (λ i. i < length es) w.requests) (sym e) v.within;
    few = v.few;
    now = subst (λ (es : List Event). Now (length es) w.requests w.sending) (sym e) v.now;
  }

  beat-Inv : (o : Option (ℕ × ℕ)) (w : Wire) → Inv w → Inv (beat lossy retry o w)
  unfolding beat
  beat-Inv none w v =
      if-elim Inv w.life.beating _ _
        (λ _. launch-Inv false (emit lossy false w.life) w (emit-length lossy false w.life) v)
        (λ _. v)
  beat-Inv (some busy) w v = v

  conclude-Inv :
      (o : Option (Result String (Unit {0}))) (w : Wire) → Inv w → Inv (conclude lossy retry o w)
  unfolding conclude finish
  conclude-Inv none w v = v
  conclude-Inv (some result) w v =
      launch-Inv true (finish lossy result w.life) w
        (emit-length lossy true
          (record w.life { active = settle w.life.active result; beating = false; ended = true }))
        v

  halt-Inv : (o : Option (ℕ × ℕ)) (w : Wire) → Inv w → Inv (halt lossy retry o w)
  unfolding halt Life.step
  halt-Inv none w v =
      live-Inv (Life.step lossy w.life Life.Action.stops) w
        (if-elim (λ (s : Life). s.sent ≡ w.life.sent) w.life.cancelled _ _ (λ _. refl) (λ _. refl))
        v
  halt-Inv (some busy) w v = v

  step-Inv : (w : Wire) (a : Action) → Inv w → Inv (step lossy retry w a)
  unfolding step Life.step
  step-Inv w attempts v = attempt-Inv w.sending w refl v
  step-Inv w settles v = record { sorted = v.sorted; within = v.within; few = v.few; now = tt }
  step-Inv w (lives Life.Action.beats) v = beat-Inv w.sending w v
  step-Inv w (lives (Life.Action.polls p)) v =
      if-elim Inv w.life.ended _ _ (λ _. v) (λ _. conclude-Inv (select w.life.cancelled p) w v)
  step-Inv w (lives Life.Action.stops) v = halt-Inv w.sending w v
  step-Inv w (lives Life.Action.cancels) v =
      live-Inv (Life.step lossy w.life Life.Action.cancels) w refl v
  step-Inv w (lives (Life.Action.reports r)) v =
      live-Inv (Life.step lossy w.life (Life.Action.reports r)) w
        (if-elim (λ (s : Life). s.sent ≡ w.life.sent) w.life.ended _ _ (λ _. refl) (λ _. refl)) v

  begin_wire-Inv : Inv (begin_wire id)
  unfolding begin_wire begin copies
  begin_wire-Inv = record { sorted = tt; within = tt; few = λ i. omega arith; now = tt }

  -- The requests and the events are in order.
  abbrev pub Told : Wire → Type 0
  Told w = Inv w × Said.Inv lossy id w.life

  pub begin_wire-Told : Told (begin_wire id)
  unfolding begin_wire
  begin_wire-Told = (begin_wire-Inv, Said.begin-Inv lossy id)

  pub step-Told : (w : Wire) (a : Action) → Told w → Told (step lossy retry w a)
  step-Told w a (v, said) = (step-Inv w a v, step-life lossy retry id w a said)

  run-Told : (w : Wire) (actions : List Action) → Told w → Told (run lossy retry w actions)
  unfolding run
  run-Told w [] v = v
  run-Told w (a ∷ actions) v = run-Told (step lossy retry w a) actions (step-Told w a v)

  pub Told-IsOrdered : (w : Wire) → Told w → IsOrdered retry id w
  Told-IsOrdered w (v, said) = record {
    sorted = v.sorted;
    within = v.within;
    few = v.few;
    conversation = Said.Inv-IsConversation lossy id w.life said;
  }

  -- Whatever the heartbeat, the worker, the execution and the shutdown do, and in whatever
  -- order, the events of a job are numbered one by one from 0, modulo 2^64; while the job runs
  -- none is terminal, and once it has ended the last one is, and only that one, with an outcome
  -- that has an error exactly if its state is failed; and the requests to the callback go out in
  -- the order of the events, each for an event that has been made, and no more for one event
  -- than the attempts that its retries allow, or three without retries.
  pub run-IsOrdered :
      (actions : List Action) → IsOrdered retry id (run lossy retry (begin_wire id) actions)
  run-IsOrdered actions =
      Told-IsOrdered (run lossy retry (begin_wire id) actions)
        (run-Told (begin_wire id) actions begin_wire-Told)
