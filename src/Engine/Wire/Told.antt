-- ===== src/Engine/Wire/Told.antt =====
-- What the requests carry is what Engine/Life has said.
use ffmpeg_docker_playground.Base.{
  if-elim, ℕ, zero, suc, ◌≡◌, refl, sym, subst, false, Option, none, some, List, String, Result,
  if◌then◌else◌,
}
use ffmpeg_docker_playground.Model.Types.{Retry}
use ffmpeg_docker_playground.Engine.Life.{Life, Poll, begin, select, settle, emit, finish}
use ffmpeg_docker_playground.Engine.Life as Life
use ffmpeg_docker_playground.Engine.Life.Laws.{IsConversation}
use ffmpeg_docker_playground.Engine.Life.Laws as Said
use ffmpeg_docker_playground.Engine.Wire.{
  Wire, Action, attempts, settles, lives, attempt, launch, beat, conclude, halt, step,
}

module _ (lossy : List ℕ → String) (retry : Option Retry) (id : String) where
  beat-life :
      (o : Option (ℕ × ℕ)) (w : Wire)
      → Said.Inv lossy id w.life
      → Said.Inv lossy id (beat lossy retry o w).life
  unfolding beat launch Life.step
  beat-life none w v =
      if-elim (λ (n : Wire). Said.Inv lossy id n.life) w.life.beating _ _
        (λ e.
          subst (λ b. Said.Inv lossy id (if b then emit lossy false w.life else w.life)) e
            (Said.step-Inv lossy id w.life Life.Action.beats v))
        (λ _. v)
  beat-life (some busy) w v = v

  halt-life :
      (o : Option (ℕ × ℕ)) (w : Wire)
      → Said.Inv lossy id w.life
      → Said.Inv lossy id (halt lossy retry o w).life
  unfolding halt
  halt-life none w v = Said.step-Inv lossy id w.life Life.Action.stops v
  halt-life (some busy) w v = v

  attempt-life : (o : Option (ℕ × ℕ)) (w : Wire) → (attempt o w).life ≡ w.life
  unfolding attempt
  attempt-life none w = refl
  attempt-life (some (i, zero)) w = refl
  attempt-life (some (i, suc left)) w = refl

  abbrev concluded : Option (Result String (Unit {0})) → Life → Life
  concluded none life = life
  concluded (some result) life = finish lossy result life

  conclude-life :
      (o : Option (Result String (Unit {0}))) (w : Wire)
      → Said.Inv lossy id (concluded o w.life)
      → Said.Inv lossy id (conclude lossy retry o w).life
  unfolding conclude launch
  conclude-life none w v = v
  conclude-life (some result) w v = v

  select-life :
      (p : Poll) (o : Option (Result String (Unit {0}))) (life : Life)
      → select life.cancelled p ≡ o
      → life.ended ≡ false
      → Said.Inv lossy id life
      → Said.Inv lossy id (concluded o life)
  unfolding Life.step
  select-life p none life e runs v = v
  select-life p (some result) life e runs v =
      subst (Said.Inv lossy id) (rw (runs, e) refl)
        (Said.step-Inv lossy id life (Life.Action.polls p) v)

  poll-life :
      (p : Poll) (w : Wire)
      → Said.Inv lossy id w.life
      → Said.Inv lossy id (step lossy retry w (lives (Life.Action.polls p))).life
  unfolding step
  poll-life p w v =
      if-elim (λ (n : Wire). Said.Inv lossy id n.life) w.life.ended _ _ (λ _. v)
        (λ e.
          conclude-life (select w.life.cancelled p) w
            (select-life p (select w.life.cancelled p) w.life refl e v))

  pub step-life :
      (w : Wire) (a : Action)
      → Said.Inv lossy id w.life
      → Said.Inv lossy id (step lossy retry w a).life
  unfolding step
  step-life w attempts v = subst (Said.Inv lossy id) (sym (attempt-life w.sending w)) v
  step-life w settles v = v
  step-life w (lives Life.Action.beats) v = beat-life w.sending w v
  step-life w (lives (Life.Action.polls p)) v = poll-life p w v
  step-life w (lives Life.Action.stops) v = halt-life w.sending w v
  step-life w (lives Life.Action.cancels) v = Said.step-Inv lossy id w.life Life.Action.cancels v
  step-life w (lives (Life.Action.reports r)) v =
      Said.step-Inv lossy id w.life (Life.Action.reports r) v
