-- ===== src/Engine/Workdir/Laws.antt =====
-- What an agent removes from its work directory when it starts.
use ffmpeg_docker_playground.Base.{
  if-elim, ◌≡◌, refl, Bool, true, false, not, Option, none, some, List, [], ◌∷◌, All, Result, ok,
  err, arith,
}
use ffmpeg_docker_playground.Engine.Workdir.{
  Entry, Workdir, WorkError, cannot_read_entry, cannot_inspect, cannot_clean, in_use, cannot_create,
  cannot_open_lock, cannot_read, has_job_name, keep, remove_if, clean, prepare,
}

-- The directory of a job.
pub record IsJobDir (e : Entry) : Type 0 where
  pub named : has_job_name e ≡ true
  pub directory : e.is_dir ≡ some true

-- Something else, of which this is known.
pub data IsOther : Option Entry → Type 0 where
  other_name : (e : Entry) → has_job_name e ≡ false → IsOther (some e)
  no_directory : (e : Entry) → e.is_dir ≡ some false → IsOther (some e)

-- The entries left, in order: none is missing but directories of jobs.
pub data IsLeft : List (Option Entry) → List (Option Entry) → Type 0 where
  all : (es : List (Option Entry)) → IsLeft es es
  kept :
      (e : Option Entry) (es rest : List (Option Entry))
      → IsLeft es rest
      → IsLeft (e ∷ es) (e ∷ rest)
  removed :
      (e : Entry) (es rest : List (Option Entry))
      → IsJobDir e
      → IsLeft es rest
      → IsLeft (some e ∷ es) rest

data IsClean (es : List (Option Entry))
    : Result WorkError (Unit {0}) × List (Option Entry) → Type 0 where
  done : (rest : List (Option Entry)) → IsLeft es rest → All IsOther rest → IsClean es (ok tt, rest)
  broken : (e : WorkError) (rest : List (Option Entry)) → IsLeft es rest → IsClean es (err e, rest)

-- How the start ends: with the lock, and no directory of a job left; with the lock, at an entry
-- that cannot be handled; or without a change.
pub data IsStart (d : Workdir) : Result WorkError (Unit {0}) × List (Option Entry) → Type 0 where
  started :
      (rest : List (Option Entry))
      → d.locks ≡ true
      → IsLeft d.entries rest
      → All IsOther rest
      → IsStart d (ok tt, rest)
  stopped :
      (e : WorkError) (rest : List (Option Entry))
      → d.locks ≡ true
      → IsLeft d.entries rest
      → IsStart d (err e, rest)
  untouched : (e : WorkError) → IsStart d (err e, d.entries)

keep-IsClean :
    (e : Entry) (es : List (Option Entry)) (o : Result WorkError (Unit {0}) × List (Option Entry))
    → IsOther (some e)
    → IsClean es o
    → IsClean (some e ∷ es) (keep (some e) o)
keep-IsClean e es _ other (IsClean.done rest l a) =
    IsClean.done (some e ∷ rest) (IsLeft.kept (some e) es rest l) (other, a)
keep-IsClean e es _ other (IsClean.broken w rest l) =
    IsClean.broken w (some e ∷ rest) (IsLeft.kept (some e) es rest l)

skip-IsClean :
    (e : Entry) (es : List (Option Entry)) (o : Result WorkError (Unit {0}) × List (Option Entry))
    → IsJobDir e
    → IsClean es o
    → IsClean (some e ∷ es) o
skip-IsClean e es _ job (IsClean.done rest l a) =
    IsClean.done rest (IsLeft.removed e es rest job l) a
skip-IsClean e es _ job (IsClean.broken w rest l) =
    IsClean.broken w rest (IsLeft.removed e es rest job l)

remove_if-IsClean :
    (o : Option Bool) (e : Entry) (es : List (Option Entry))
    (more : Result WorkError (Unit {0}) × List (Option Entry))
    → e.is_dir ≡ o
    → has_job_name e ≡ true
    → IsClean es more
    → IsClean (some e ∷ es) (remove_if o e es more)
remove_if-IsClean none e es more d n c = IsClean.broken cannot_inspect (some e ∷ es) (IsLeft.all _)
remove_if-IsClean (some false) e es more d n c = keep-IsClean e es more (IsOther.no_directory e d) c
remove_if-IsClean (some true) e es more d n c =
    if-elim (IsClean (some e ∷ es)) e.removes more (err cannot_clean, some e ∷ es)
      (λ r. skip-IsClean e es more (record { named = n; directory = d }) c)
      (λ r. IsClean.broken cannot_clean (some e ∷ es) (IsLeft.all _))

clean-IsClean : (es : List (Option Entry)) → IsClean es (clean es)
unfolding clean
clean-IsClean [] = IsClean.done [] (IsLeft.all []) tt
clean-IsClean (none ∷ es) = IsClean.broken cannot_read_entry (none ∷ es) (IsLeft.all _)
clean-IsClean (some e ∷ es) =
    if-elim (IsClean (some e ∷ es)) (has_job_name e) (remove_if e.is_dir e es (clean es))
      (keep (some e) (clean es))
      (λ n. remove_if-IsClean e.is_dir e es (clean es) refl n (clean-IsClean es))
      (λ n. keep-IsClean e es (clean es) (IsOther.other_name e n) (clean-IsClean es))

locked-IsStart :
    (d : Workdir) (o : Result WorkError (Unit {0}) × List (Option Entry))
    → d.locks ≡ true
    → IsClean d.entries o
    → IsStart d o
locked-IsStart d _ k (IsClean.done rest l a) = IsStart.started rest k l a
locked-IsStart d _ k (IsClean.broken e rest l) = IsStart.stopped e rest k l

-- A start removes nothing from the work directory but directories whose name begins with job-,
-- and these only under the lock; if it succeeds, none of them is left; and what it leaves keeps
-- its order.
pub prepare-IsStart : (d : Workdir) → IsStart d (prepare d)
unfolding prepare
prepare-IsStart d =
    if-elim (IsStart d) (not d.creates) _ _ (λ h. IsStart.untouched cannot_create)
      (λ h.
        if-elim (IsStart d) (not d.opens_lock) _ _ (λ h. IsStart.untouched cannot_open_lock)
          (λ h.
            if-elim (IsStart d) (not d.locks) _ _ (λ h. IsStart.untouched in_use)
              (λ held.
                if-elim (IsStart d) (not d.lists) _ _ (λ h. IsStart.untouched cannot_read)
                  (λ h.
                    locked-IsStart d (clean d.entries) (ground (arith, held))
                      (clean-IsClean d.entries)))))

pub IsStart-IsLeft :
    (d : Workdir) (o : Result WorkError (Unit {0}) × List (Option Entry))
    → IsStart d o
    → IsLeft d.entries o.1
IsStart-IsLeft d _ (IsStart.started rest k l a) = l
IsStart-IsLeft d _ (IsStart.stopped e rest k l) = l
IsStart-IsLeft d _ (IsStart.untouched e) = IsLeft.all d.entries
