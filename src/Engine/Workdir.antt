-- ===== src/Engine/Workdir.antt =====
-- agent/src/engine.rs: the work directory in `initialize`, which one agent holds by a lock, and which
-- is cleaned of the directories of jobs that an earlier agent has left.
pub mod Laws
pub mod Tests
use ffmpeg_docker_playground.Base.{
  Bool, true, false, not, Option, none, some, List, [], ◌∷◌, String, Result, ok, err, if◌then◌else◌,
}
use ffmpeg_docker_playground.Base.Text.{strip_prefix}

-- The name as `to_string_lossy` gives it, whether the entry is a directory, if that can be told,
-- and whether it can be removed.
pub record Entry : Type 0 where
  pub name : String
  pub is_dir : Option Bool
  pub removes : Bool

-- The entries that are read in order, `none` where reading one fails.
pub record Workdir : Type 0 where
  pub creates : Bool
  pub opens_lock : Bool
  pub locks : Bool
  pub lists : Bool
  pub entries : List (Option Entry)

pub data WorkError : Type 0 where
  cannot_create cannot_open_lock in_use cannot_read cannot_read_entry : WorkError
  cannot_inspect cannot_clean : WorkError

abbrev is_prefixed : Option String → Bool
is_prefixed none = false
is_prefixed (some rest) = true

-- `starts_with("job-")`
unfoldable pub has_job_name : Entry → Bool
unfolding strip_prefix
has_job_name e = is_prefixed (strip_prefix "job-" e.name)

abbrev keep :
    Option Entry
    → Result WorkError (Unit {0}) × List (Option Entry)
    → Result WorkError (Unit {0}) × List (Option Entry)
keep e (r, rest) = (r, e ∷ rest)

abbrev pub remove_if :
    Option Bool
    → Entry
    → List (Option Entry)
    → Result WorkError (Unit {0}) × List (Option Entry)
    → Result WorkError (Unit {0}) × List (Option Entry)
remove_if none e es more = (err cannot_inspect, some e ∷ es)
remove_if (some false) e es more = keep (some e) more
remove_if (some true) e es more = if e.removes then more else (err cannot_clean, some e ∷ es)

-- The loop, with the entries that are left; what a failed removal has removed inside of its entry
-- is left out.
unfoldable pub clean : List (Option Entry) → Result WorkError (Unit {0}) × List (Option Entry)
unfolding has_job_name
clean [] = (ok tt, [])
clean (none ∷ es) = (err cannot_read_entry, none ∷ es)
clean (some e ∷ es) =
    let more = clean es in
    if has_job_name e then remove_if e.is_dir e es more else keep (some e) more

unfoldable pub prepare : Workdir → Result WorkError (Unit {0}) × List (Option Entry)
unfolding clean
prepare d =
    if not d.creates
    then (err cannot_create, d.entries)
    else if not d.opens_lock
    then (err cannot_open_lock, d.entries)
    else if not d.locks
    then (err in_use, d.entries)
    else if not d.lists
    then (err cannot_read, d.entries)
    else clean d.entries
