-- ===== src/Engine/Stall/Walk.antt =====
-- A look at the files of a job ends, however many there are, and keeps few of them.
use ffmpeg_docker_playground.Base.{
  if-elim, ℕ, zero, suc, ◌+◌, ◌-◌, ◌≤◌, ◌<◌, ◌≡◌, refl, ap, Option, none, some, List, [], ◌∷◌,
  String, length, ltb, ltb-false→le, arith, Option-cases, inl, inr,
}
use ffmpeg_docker_playground.Engine.Stall.{
  scan_limit, Kind, directory, other, unknown, file, Entry, Sizes, insert, Scan, take_entry,
  inspect, open_dir, scan_from, pending_of, scan,
}

length-insert :
    (path : String) (n : ℕ) (sizes : Sizes) → length (insert path n sizes) ≤ suc (length sizes)
unfolding insert
length-insert path n [] = omega arith
length-insert path n ((p, m) ∷ sizes) = ground (arith, length-insert path n sizes)

-- Every directory that waits, and every file that is kept, was inspected.
pub record Inv (s : Scan) : Type 0 where
  pub kept : length s.sizes ≤ s.inspected
  pub bounded : s.inspected ≤ suc scan_limit

-- What is left to do: each round of the loop lowers it.
abbrev left : Scan → ℕ
left s = length s.pending + (suc scan_limit - s.inspected)

-- One entry more, in sizes and in what is left to do.
take_entry_lem :
    (k : Kind) (path : String) (s : Scan)
    → let t =
        take_entry (record { path = path; kind = k }) (record s { inspected = s.inspected + 1 }) in
      (length t.sizes ≤ suc (length s.sizes))
      × (length t.pending ≤ suc (length s.pending))
      × (t.inspected ≡ s.inspected + 1)
take_entry_lem directory path s = (omega arith, omega arith, refl)
take_entry_lem other path s = (omega arith, omega arith, refl)
take_entry_lem unknown path s = (omega arith, omega arith, refl)
take_entry_lem (file none) path s = (omega arith, omega arith, refl)
take_entry_lem (file (some n)) path s = (length-insert path n s.sizes, omega arith, refl)

abbrev Goes : Scan → Scan → Type 0
Goes s t = Inv t × (left t ≤ left s)

inspect_lem :
    (es : List Entry) (s : Scan) → Inv s → s.inspected ≤ scan_limit → Goes s (inspect es s)
unfolding inspect
inspect_lem [] s v h = (v, omega arith)
inspect_lem (e ∷ es) s v h =
    let counted : Scan = record s { inspected = s.inspected + 1 } in
    let t = take_entry e counted in
    let (kept, waits, more) = take_entry_lem e.kind e.path s in
    if-elim (Goes s) (ltb scan_limit (s.inspected + 1)) counted (inspect es t)
      (λ full. (record { kept = omega (arith, v.kept); bounded = omega arith }, omega arith))
      (λ room.
        let fits = ltb-false→le scan_limit (s.inspected + 1) room in
        let w : Inv t = record {
          kept = omega (arith, v.kept, kept, more);
          bounded = omega (arith, more, fits);
        } in
        let (u, less) = inspect_lem es t w (omega (arith, more, fits)) in
        (u, omega (arith, less, waits, more, fits)))

module _ (read_dir : String → Option (List Entry)) where
  open_dir_lem :
      (path : String) (s : Scan)
      → Inv s
      → s.inspected ≤ scan_limit
      → Goes s (open_dir read_dir path s)
  unfolding open_dir
  open_dir_lem path s v h = elim (Option-cases (read_dir path)) [
    | inl e ↦ rw (e, open_dir) (v, omega arith)
    | inr (entries, e) ↦ rw (e, open_dir) (inspect_lem entries s v h)
  ]

  IsFound : Option Sizes → Type 0
  IsFound o = (sizes : Sizes) × (o ≡ some sizes) × (length sizes ≤ suc scan_limit)

  scan_from_lem :
      (fuel : ℕ) (pending : List String) (s : Scan)
      → s.pending ≡ pending
      → Inv s
      → s.inspected ≤ scan_limit
      → left s < fuel
      → IsFound (scan_from read_dir fuel s)
  unfolding scan_from IsFound
  scan_from_lem zero pending s p v h f = absurd (omega arith)
  scan_from_lem (suc fuel) [] s p v h f = rw (p, scan_from) (s.sizes, refl, omega (arith, v.kept))
  scan_from_lem (suc fuel) (path ∷ rest) s p v h f =
      let here : Scan = record s { pending = rest } in
      let next = open_dir read_dir path here in
      let (w, less) = open_dir_lem path here (record { kept = v.kept; bounded = v.bounded }) h in
      let shorter : length s.pending ≡ suc (length rest) = ap length p in
      rw (p, scan_from)
        (if-elim IsFound (ltb scan_limit next.inspected) (some next.sizes)
          (scan_from read_dir fuel next)
          (λ full. (next.sizes, refl, omega (arith, w.kept, w.bounded)))
          (λ room.
            let fits = ltb-false→le scan_limit next.inspected room in
            scan_from_lem fuel next.pending next refl w fits (omega (arith, less, shorter, fits))))

  pending_of-short : (dir : Option String) → length (pending_of dir) ≤ 1
  pending_of-short none = omega arith
  pending_of-short (some dir) = omega arith

  -- Whatever the directories hold, be it themselves, a look at the files of a job ends, and
  -- finds the sizes of at most 4097 files.
  pub scan_total :
      (dir : Option String)
      → (sizes : Sizes) × (scan read_dir dir ≡ some sizes) × (length sizes ≤ suc scan_limit)
  unfolding scan IsFound
  scan_total dir =
      let short = pending_of-short dir in
      scan_from_lem (scan_limit + 3) (pending_of dir)
        (record { pending = pending_of dir; inspected = 0; sizes = [] }) refl
        (record { kept = omega arith; bounded = omega arith }) (omega arith) (omega (arith, short))
