-- ===== src/Tests/Storage.antt =====
-- Blobs on a disk, one whose fifth call fails and one whose calls all succeed.
use secure_file_transfer.Base.{
  ℕ, ◌==◌, ◌≡◌, ap, length, arith, refl, true, if◌then◌else◌, List, [], ◌∷◌, Bytes, codes, Option,
  none, some, All, count_if, returns, is_empty, str_eq,
}
use secure_file_transfer.Base.Dict.{Dict, get, keys, empty}
use secure_file_transfer.Validator.{has_part, starts_with, ends_with}
use secure_file_transfer.Disk.{Disk, path, part_name, staged_write, sweep_orphans}
use secure_file_transfer.Disk.Others.{staged_write-others}
use secure_file_transfer.Disk.Crash.{Whole}
use secure_file_transfer.Disk.Atomic.{staged_write-Whole}
use secure_file_transfer.Disk.Published.{staged_write-placed}
use secure_file_transfer.Disk.Healthy.{healthy, is_sound}
use secure_file_transfer.Disk.Refines.{write-returns}
use secure_file_transfer.Disk.Simulation.{
  Call, staging, removing, reading, on_disk, on_memory, on_disk-on_memory, is_fit,
}
use secure_file_transfer.Disk.Sweep.{sweep_orphans-swept, is_orphan}

-- The fifth call fails, after one byte.
abbrev faulty : ℕ → Option ℕ
faulty n = if n == 4 then some 1 else none

abbrev reason : ℕ → Bytes
reason n = codes "5"

abbrev root : Bytes
root = codes "/srv"

abbrev blob : Bytes
blob = codes "b1.bin"

abbrev three : Bytes
three = 1 ∷ (2 ∷ (3 ∷ []))

abbrev old_files : Dict Bytes
old_files = (path root blob, 9 ∷ []) ∷ ((path root (part_name (codes "b0")), 7 ∷ []) ∷ [])

abbrev disk : Disk
disk = record { files = old_files; calls = 0; history = [] }

staged_write-Whole_example :
    All
      (λ s. Whole (get (path root blob) old_files) three (get (path root blob) s))
      (staged_write faulty reason root blob three disk).1.history
staged_write-Whole_example = staged_write-Whole faulty reason root blob three old_files 0

sound : is_sound blob ≡ true
unfolding is_empty has_part starts_with str_eq
sound = refl

staged_write-placed_example :
    let m = (staged_write healthy reason root blob three disk).1.files in
    (get (path root blob) m ≡ some three) × (get (path root (part_name blob)) m ≡ none)
staged_write-placed_example =
    staged_write-placed healthy reason root blob three disk
      (write-returns reason root blob three disk sound)

abbrev session : List Call
session = staging blob three ∷ (reading blob ∷ (removing blob ∷ (reading blob ∷ [])))

fit : All (λ c. is_fit c ≡ true) session
unfolding is_fit is_empty has_part starts_with ends_with str_eq
fit = (refl, (refl, (refl, (refl, tt))))

abbrev empty_disk : Disk
empty_disk = record { files = empty; calls = 0; history = [] }

on_disk-on_memory_example : on_disk reason root session empty_disk ≡ on_memory session empty
unfolding get
on_disk-on_memory_example = on_disk-on_memory reason root session empty_disk empty fit (λ k. refl)

sweep_orphans-swept_example :
    ((sweep_orphans healthy reason root disk).0
      ≡ returns (count_if (is_orphan root) (keys old_files)))
    × ((p : Bytes)
        → get p (sweep_orphans healthy reason root disk).1.files
          ≡ (if is_orphan root p then none else get p old_files))
sweep_orphans-swept_example = sweep_orphans-swept reason root disk

-- A path that the write does not touch.
abbrev other_path : Bytes
other_path = path root (codes "b")

not_part : ¬ (path root (part_name blob) ≡ other_path)
not_part same = omega (arith, ap length same)

not_blob : ¬ (path root blob ≡ other_path)
not_blob same = omega (arith, ap length same)

staged_write-others_example :
    get other_path (staged_write faulty reason root blob three disk).1.files
    ≡ get other_path old_files
staged_write-others_example =
    staged_write-others faulty reason root blob other_path disk three not_part not_blob
