-- ===== src/Agent/Cases.antt =====
-- Lists of jobs, by their ids, and what was promised to whom.
use ffmpeg_docker_playground.Base.{
  if-elim, ℕ, zero, suc, ◌+◌, ◌≡◌, refl, ap, Bool, true, false, Option, none, some, List, [], ◌∷◌,
  ◌++◌, String, ◌==◌, eq_iff, contains, All, All-append, arith,
}
use ffmpeg_docker_playground.Model.Job.{count}
use ffmpeg_docker_playground.Intake.{
  remove, Reply, bad_request, unavailable, conflict, busy, accepted,
}
use ffmpeg_docker_playground.Engine.Wire as Wire
use ffmpeg_docker_playground.Agent.{Case, put_back, take_case, enqueue, act, change, cancel_all}

unfoldable pub ids : List Case → List String
ids [] = []
ids (c ∷ cs) = c.job.id ∷ ids cs

-- A reply of 202 is a promise.
unfoldable pub promised_to : String → Reply → List String
promised_to id accepted = id ∷ []
promised_to id unavailable = []
promised_to id conflict = []
promised_to id busy = []
promised_to id (bad_request message) = []

unfoldable pub promised : List (String × Reply) → List String
unfolding promised_to
promised [] = []
promised ((id, reply) ∷ replies) = promised_to id reply ++ promised replies

pub count-append :
    (id : String) (xs ys : List String) → count id (xs ++ ys) ≡ count id xs + count id ys
unfolding count
count-append id [] ys = omega arith
count-append id (x ∷ xs) ys = ground (arith, count-append id xs ys)

pub count-promised-append :
    (id : String) (replies : List (String × Reply)) (to : String) (reply : Reply)
    → count id (promised (replies ++ (to, reply) ∷ []))
      ≡ count id (promised replies) + count id (promised_to to reply)
unfolding promised count
count-promised-append id [] to reply = omega (arith, count-append id (promised_to to reply) [])
count-promised-append id ((of, r) ∷ replies) to reply = omega (
  arith,
  count-append id (promised_to of r) (promised (replies ++ (to, reply) ∷ [])),
  count-append id (promised_to of r) (promised replies),
  count-promised-append id replies to reply,
)

pub ids-append : (cs : List Case) (c : Case) → ids (cs ++ c ∷ []) ≡ ids cs ++ c.job.id ∷ []
unfolding ids
ids-append [] c = refl
ids-append (d ∷ cs) c = ap (λ is. d.job.id ∷ is) (ids-append cs c)

-- What is taken out is there, and has the id; the others keep their order.
pub record IsTakenOut (id : String) (cs : List Case) (c : Case) (rest : List Case) : Type 0 where
  pub same_id : c.job.id ≡ id
  pub held : contains id (ids cs) ≡ true
  pub left : ids rest ≡ remove id (ids cs)

module _ (P : Case → Type 0) where
  -- Nothing is taken out, or what is.
  abbrev pub Taken : String → List Case → Option (Case × List Case) → Type 0
  Taken id cs none = Unit
  Taken id cs (some (c, rest)) = IsTakenOut id cs c rest × P c × All P rest

  put_back-Taken :
      (id : String) (d : Case) (cs : List Case) (o : Option (Case × List Case))
      → d.job.id == id ≡ false
      → P d
      → Taken id cs o
      → Taken id (d ∷ cs) (put_back d o)
  unfolding ids contains remove
  put_back-Taken id d cs none e p h = tt
  put_back-Taken id d cs (some (c, rest)) e p (t, q, qs) = (
    record { same_id = t.same_id; held = rw (e, t.held) refl; left = rw (e, t.left) refl },
    q,
    (p, qs),
  )

  pub take_case-Taken : (id : String) (cs : List Case) → All P cs → Taken id cs (take_case id cs)
  unfolding take_case ids contains remove
  take_case-Taken id [] h = tt
  take_case-Taken id (d ∷ cs) (p, ps) =
      if-elim (Taken id (d ∷ cs)) (d.job.id == id) _ _
        (λ e. (
          record { same_id = (eq_iff d.job.id id).0 e; held = rw e refl; left = rw e refl },
          p,
          ps,
        ))
        (λ e. put_back-Taken id d cs (take_case id cs) e p (take_case-Taken id cs ps))

  pub enqueue-All :
      (reply : Reply) (c : Case) (cs : List Case)
      → (reply ≡ accepted → P c)
      → All P cs
      → All P (enqueue reply c cs)
  unfolding enqueue
  enqueue-All accepted c cs p ps = All-append P cs (c ∷ []) ps (p refl, tt)
  enqueue-All unavailable c cs p ps = ps
  enqueue-All conflict c cs p ps = ps
  enqueue-All busy c cs p ps = ps
  enqueue-All (bad_request message) c cs p ps = ps

module _ (lossy : List ℕ → String) where
  act-id : (in_hand : Bool) (a : Wire.Action) (c : Case) → (act lossy in_hand a c).job.id ≡ c.job.id
  unfolding act
  act-id in_hand a c = ground arith

  pub ids-change :
      (in_hand : Bool) (n : ℕ) (a : Wire.Action) (cs : List Case)
      → ids (change lossy in_hand n a cs) ≡ ids cs
  unfolding change ids
  ids-change in_hand n a [] = refl
  ids-change in_hand zero a (c ∷ cs) = ap (λ i. i ∷ ids cs) (act-id in_hand a c)
  ids-change in_hand (suc n) a (c ∷ cs) = ap (λ is. c.job.id ∷ is) (ids-change in_hand n a cs)

  pub ids-cancel_all : (cs : List Case) → ids (cancel_all lossy cs) ≡ ids cs
  unfolding cancel_all ids
  ids-cancel_all [] = refl
  ids-cancel_all (c ∷ cs) = ap (λ is. c.job.id ∷ is) (ids-cancel_all cs)

  module _ (P : Case → Type 0) (in_hand : Bool) (a : Wire.Action)
      (acts : (c : Case) → P c → P (act lossy in_hand a c)) where
    pub change-All : (n : ℕ) (cs : List Case) → All P cs → All P (change lossy in_hand n a cs)
    unfolding change
    change-All n [] h = tt
    change-All zero (c ∷ cs) (p, ps) = (acts c p, ps)
    change-All (suc n) (c ∷ cs) (p, ps) = (p, change-All n cs ps)
