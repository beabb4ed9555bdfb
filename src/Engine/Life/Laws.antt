-- ===== src/Engine/Life/Laws.antt =====
-- The conversation about a job, as its callback sees it.
use mathlib.Core.Bool.{false≢true}
use ffmpeg_docker_playground.Base.Words.{u64_max}
use ffmpeg_docker_playground.Base.{
  if-elim, ℕ, suc, ◌+◌, ◌%◌, ◌^◌, ◌≡◌, refl, sym, ap, ◌∙◌, ◌⊎◌, inl, inr, Bool, true, false, none,
  some, List, [], ◌∷◌, ◌++◌, String, length, length-append, nat_eq, Result, arith, Bool-cases,
  Option-cases, subst,
}
use ffmpeg_docker_playground.Model.Types.{Event}
use ffmpeg_docker_playground.Model.Types as Types
use ffmpeg_docker_playground.Engine.Notify.{Active, next_sequence, event_of}
use ffmpeg_docker_playground.Engine.Life.{
  Life, begin, select, error_of, last_phase, settle, Action, beats, stops, cancels, reports, polls,
  emit, finish, step, run,
}

-- The n-th event, while the job runs: it tells nothing of the result.
pub record IsBeat (id : String) (n : ℕ) (e : Event) : Type 0 where
  pub version : e.version ≡ 1
  pub same_id : e.id ≡ id
  pub numbered : e.sequence ≡ n % 2 ^ 64
  pub open_ended : e.terminal ≡ false
  pub no_result : e.result ≡ none
  pub no_log : e.ffmpeg_log ≡ none
  pub no_tail : e.ffmpeg_log_tail ≡ none

-- The last one: it has the outcome, which has an error exactly if the job has failed.
pub record IsLast (id : String) (n : ℕ) (e : Event) : Type 0 where
  pub version : e.version ≡ 1
  pub same_id : e.id ≡ id
  pub numbered : e.sequence ≡ n % 2 ^ 64
  pub terminal : e.terminal ≡ true
  pub result : Result String (Unit {0})
  pub state : e.state ≡ last_phase result
  pub outcome : Types.Outcome
  pub has_outcome : e.result ≡ some outcome
  pub error : outcome.error ≡ error_of result
  pub log : String
  pub has_log : e.ffmpeg_log ≡ some log

abbrev pub AreBeats : String → ℕ → List Event → Type 0
AreBeats id n [] = Unit
AreBeats id n (e ∷ es) = IsBeat id n e × AreBeats id (suc n) es

-- Beats without end, or beats and a last event.
pub data IsConversation (id : String) : Bool → List Event → Type 0 where
  running : (es : List Event) → AreBeats id 0 es → IsConversation id false es
  over :
      (es : List Event) (e : Event)
      → AreBeats id 0 es
      → IsLast id (length es) e
      → IsConversation id true (es ++ e ∷ [])

AreBeats-append :
    (id : String) (n : ℕ) (es : List Event) (e : Event)
    → AreBeats id n es
    → IsBeat id (n + length es) e
    → AreBeats id n (es ++ e ∷ [])
AreBeats-append id n [] e h b = (subst (λ k. IsBeat id k e) (omega arith) b, tt)
AreBeats-append id n (x ∷ es) e (h, hs) b =
    (h, AreBeats-append id (suc n) es e hs (subst (λ k. IsBeat id k e) (omega arith) b))

next_sequence-numbered :
    (a : Active) (n : ℕ) → a.sequence ≡ n % 2 ^ 64 → (next_sequence a).sequence ≡ suc n % 2 ^ 64
unfolding next_sequence
next_sequence-numbered a n h = elim (Bool-cases (nat_eq a.sequence u64_max)) [
  | inl e ↦ rw e (ground (arith, e))
  | inr e ↦ rw e (ground (arith, e))
]

module _ (lossy : List ℕ → String) (id : String) where
  pub record IsOpen (s : Life) : Type 0 where
    same_id : s.active.id ≡ id
    not_ended : s.ended ≡ false
    numbered : s.active.sequence ≡ length s.sent % 2 ^ 64
    said : AreBeats id 0 s.sent

  pub record IsClosed (s : Life) : Type 0 where
    ended : s.ended ≡ true
    silent : s.beating ≡ false
    said : IsConversation id true s.sent

  abbrev pub Inv : Life → Type 0
  Inv s = IsOpen s ⊎ IsClosed s

  next_sequence-id : (a : Active) → (next_sequence a).id ≡ a.id
  unfolding next_sequence
  next_sequence-id a = refl

  length-snoc : (es : List Event) (e : Event) → length (es ++ e ∷ []) ≡ suc (length es)
  length-snoc es e = length-append es (e ∷ []) ∙ omega arith

  event_of-IsBeat :
      (a : Active) (n : ℕ)
      → a.id ≡ id
      → a.sequence ≡ n % 2 ^ 64
      → IsBeat id n (event_of lossy a false)
  unfolding event_of
  event_of-IsBeat a n i q = record {
    version = refl;
    same_id = i;
    numbered = q;
    open_ended = refl;
    no_result = refl;
    no_log = refl;
    no_tail = refl;
  }

  emit-IsOpen : (s : Life) → IsOpen s → IsOpen (emit lossy false s)
  unfolding emit
  emit-IsOpen s o = record {
    same_id = next_sequence-id s.active ∙ o.same_id;
    not_ended = o.not_ended;
    numbered =
        next_sequence-numbered s.active (length s.sent) o.numbered
        ∙ ap (λ n. n % 2 ^ 64) (sym (length-snoc s.sent (event_of lossy s.active false)));
    said = AreBeats-append id 0 s.sent (event_of lossy s.active false) o.said (
        subst (λ n. IsBeat id n (event_of lossy s.active false)) (omega arith)
          (event_of-IsBeat s.active (length s.sent) o.same_id o.numbered));
  }

  finish-IsClosed :
      (s : Life) (result : Result String (Unit {0})) → IsOpen s → IsClosed (finish lossy result s)
  unfolding finish event_of
  finish-IsClosed s result o = record {
    ended = refl;
    silent = refl;
    said = IsConversation.over s.sent _ o.said (record {
      version = refl;
      same_id = o.same_id;
      numbered = o.numbered;
      terminal = refl;
      result = result;
      state = refl;
      outcome = (settle s.active result).outcome;
      has_outcome = refl;
      error = refl;
      log = lossy s.active.log;
      has_log = refl;
    });
  }

  pub step-Inv : (s : Life) (a : Action) → Inv s → Inv (step lossy s a)
  unfolding step
  step-Inv s beats (inl o) =
      if-elim Inv s.beating (emit lossy false s) s (λ _. inl (emit-IsOpen s o)) (λ _. inl o)
  step-Inv s beats (inr c) =
      if-elim Inv s.beating (emit lossy false s) s (λ e. absurd (false≢true (sym c.silent ∙ e)))
        (λ _. inr c)
  step-Inv s stops (inl o) =
      if-elim Inv s.cancelled (record s { beating = false }) s
        (λ _. inl (record {
          same_id = o.same_id;
          not_ended = o.not_ended;
          numbered = o.numbered;
          said = o.said;
        }))
        (λ _. inl o)
  step-Inv s stops (inr c) =
      if-elim Inv s.cancelled (record s { beating = false }) s
        (λ _. inr (record { ended = c.ended; silent = refl; said = c.said })) (λ _. inr c)
  step-Inv s cancels (inl o) = inl (record {
    same_id = o.same_id;
    not_ended = o.not_ended;
    numbered = o.numbered;
    said = o.said;
  })
  step-Inv s cancels (inr c) = inr (record { ended = c.ended; silent = c.silent; said = c.said })
  step-Inv s (reports r) (inl o) =
      if-elim Inv s.ended _ _ (λ _. inl o)
        (λ _. inl (record {
          same_id = o.same_id;
          not_ended = o.not_ended;
          numbered = o.numbered;
          said = o.said;
        }))
  step-Inv s (reports r) (inr c) =
      if-elim Inv s.ended _ _ (λ _. inr c) (λ e. absurd (false≢true (sym e ∙ c.ended)))
  step-Inv s (polls p) (inl o) = elim (Option-cases (select s.cancelled p)) [
    | inl e ↦ rw (o.not_ended, e) (inl o)
    | inr (result, e) ↦ rw (o.not_ended, e) (inr (finish-IsClosed s result o))
  ]
  step-Inv s (polls p) (inr c) =
      if-elim Inv s.ended _ _ (λ _. inr c) (λ e. absurd (false≢true (sym e ∙ c.ended)))

  run-Inv : (s : Life) (actions : List Action) → Inv s → Inv (run lossy s actions)
  unfolding run
  run-Inv s [] v = v
  run-Inv s (a ∷ actions) v = run-Inv (step lossy s a) actions (step-Inv s a v)

  pub Inv-IsConversation : (s : Life) → Inv s → IsConversation id s.ended s.sent
  Inv-IsConversation s (inl o) =
      subst (λ b. IsConversation id b s.sent) (sym o.not_ended)
        (IsConversation.running s.sent o.said)
  Inv-IsConversation s (inr c) = subst (λ b. IsConversation id b s.sent) (sym c.ended) c.said

  pub begin-Inv : Inv (begin id)
  unfolding begin
  begin-Inv = inl (record { same_id = refl; not_ended = refl; numbered = refl; said = tt })

  -- Whatever the heartbeat, the worker, the execution and the shutdown do, and in whatever
  -- order, the events of a job are numbered one by one from 0, modulo 2^64; while the job runs
  -- none is terminal; and once it has ended the last one is, and only that one, with an outcome
  -- that has an error exactly if its state is failed.
  pub run-IsConversation :
      (actions : List Action)
      → IsConversation id (run lossy (begin id) actions).ended (run lossy (begin id) actions).sent
  run-IsConversation actions =
      Inv-IsConversation (run lossy (begin id) actions) (run-Inv (begin id) actions begin-Inv)
