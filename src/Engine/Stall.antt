-- ===== src/Engine/Stall.antt =====
-- agent/src/engine.rs: `stalled`, the watchdog of a job. It looks at the files of the job's
-- directory four times a second, and ends when there was no progress for too long.
pub mod Walk
pub mod Laws
pub mod Unordered
pub mod Tests
use ffmpeg_docker_playground.Base.{
  ℕ, zero, suc, ◌+◌, ◌-◌, Bool, true, false, ◌||◌, Option, none, some, List, [], ◌∷◌, ◌++◌, String,
  ◌==◌, ltb, leb, if◌then◌else◌,
}

-- The entries that a look inspects at most.
abbrev pub scan_limit : ℕ
scan_limit = 4096

-- What an entry shows: its kind may be unknown, and so may the size of a file.
pub data Kind : Type 0 where
  directory other unknown : Kind
  file : Option ℕ → Kind

pub record Entry : Type 0 where
  pub path : String
  pub kind : Kind

-- `HashMap<PathBuf, u64>`, with one entry for a path.
abbrev pub Sizes : Type 0
Sizes = List (String × ℕ)

unfoldable pub insert : String → ℕ → Sizes → Sizes
insert path size [] = (path, size) ∷ []
insert path size ((p, n) ∷ sizes) =
    if p == path then (path, size) ∷ sizes else (p, n) ∷ insert path size sizes

-- `*previous.get(path).unwrap_or(&0)`
unfoldable pub size_of : String → Sizes → ℕ
size_of path [] = 0
size_of path ((p, n) ∷ sizes) = if p == path then n else size_of path sizes

unfoldable pub any_grew : Sizes → Sizes → Bool
unfolding size_of
any_grew previous [] = false
any_grew previous ((path, size) ∷ sizes) =
    ltb (size_of path previous) size || any_grew previous sizes

-- The variables of a look; `pending` is a stack with its top in front.
pub record Scan : Type 0 where
  pub pending : List String
  pub inspected : ℕ
  pub sizes : Sizes

abbrev pub take_entry : Entry → Scan → Scan
take_entry e s = elim e.kind [
  | directory ↦ record s { pending = e.path ∷ s.pending }
  | file none ↦ s
  | file (some size) ↦ record s { sizes = insert e.path size s.sizes }
  | other ↦ s
  | unknown ↦ s
]

-- The loop over the entries of one directory, up to the limit.
unfoldable pub inspect : List Entry → Scan → Scan
unfolding insert
inspect [] s = s
inspect (e ∷ es) s =
    let counted : Scan = record s { inspected = s.inspected + 1 } in
    let more = inspect es (take_entry e counted) in
    if ltb scan_limit (s.inspected + 1) then counted else more

-- The directories are what `read_dir` gives for a path, up to the first entry that fails.
module _ (read_dir : String → Option (List Entry)) where
  unfoldable pub open_dir : String → Scan → Scan
  unfolding inspect
  open_dir path s = elim (read_dir path) [ none ↦ s | some entries ↦ inspect entries s ]

  -- The loop over the directories, on fuel.
  unfoldable pub scan_from : ℕ → Scan → Option Sizes
  unfolding open_dir
  scan_from zero s = none
  scan_from (suc fuel) s = elim s.pending [
    | [] ↦ some s.sizes
    | path ∷ rest ↦
        let next = open_dir path (record s { pending = rest }) in
        let more = scan_from fuel next in
        if ltb scan_limit next.inspected then some next.sizes else more
  ]

abbrev pub pending_of : Option String → List String
pending_of none = []
pending_of (some dir) = dir ∷ []

-- The fuel covers every entry of a look, its directory and the end.
unfoldable pub scan : (String → Option (List Entry)) → Option String → Option Sizes
unfolding scan_from
scan read_dir dir =
    scan_from read_dir (scan_limit + 3)
      (record { pending = pending_of dir; inspected = 0; sizes = [] })

-- A look: the time, what it found, and the last touch by the job since the look before.
pub record Look : Type 0 where
  pub now : ℕ
  pub sizes : Sizes
  pub touched : Option ℕ

abbrev pub touch_of : Option ℕ → ℕ → ℕ
touch_of none last = last
touch_of (some t) last = t

-- `last_progress` behind a look, before the test of its age.
unfoldable pub progress_at : Sizes → ℕ → Look → ℕ
unfolding any_grew
progress_at previous last look =
    if any_grew previous look.sizes then look.now else touch_of look.touched last

-- Whether the watchdog ends the job at one of the looks.
unfoldable pub watch : ℕ → Sizes → ℕ → List Look → Bool
unfolding progress_at
watch timeout previous last [] = false
watch timeout previous last (look ∷ looks) =
    let at = progress_at previous last look in
    let more = watch timeout look.sizes at looks in
    if leb timeout (look.now - at) then true else more
