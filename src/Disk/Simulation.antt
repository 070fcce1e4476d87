-- ===== src/Disk/Simulation.antt =====
-- A client of the port `IStorage` cannot tell `BinaryFileStorage`, on a disk whose calls succeed,
-- from `MemoryStorage`.
use secure_file_transfer.Base.{
  ◌≡◌, refl, ap, ◌∙◌, Bool, true, false, not, Bytes, List, [], ◌∷◌, Outcome, returns, throws, codes,
  inl, inr, is_empty, Option-cases, arith, ℕ, All, ◌&&◌,
}
use secure_file_transfer.Base.Dict.{Dict, get}
use secure_file_transfer.Validator.{ends_with}
use secure_file_transfer.Blobs
use secure_file_transfer.Disk
use secure_file_transfer.Disk.{Disk, path}
use secure_file_transfer.Disk.Healthy.{healthy, is_sound, read-there, read-gone}
use secure_file_transfer.Disk.Refines.{
  Agree, visible, write-Agree, remove-Agree, write-returns, remove-returns,
}

-- A call of the port, and what its caller sees of the outcome.
pub data Call : Type 0 where
  staging : Bytes → Bytes → Call
  removing : Bytes → Call
  reading : Bytes → Call

pub data Answer : Type 0 where
  done refused : Answer
  delivered : Bytes → Answer

abbrev pub answer_unit : Outcome (Unit {0}) → Answer
answer_unit (returns u) = done
answer_unit (throws e) = refused

abbrev pub answer_bytes : Outcome Bytes → Answer
answer_bytes (returns v) = delivered v
answer_bytes (throws e) = refused

-- Names that the service uses: sound ones that do not end in `.part`.
unfoldable pub is_fit : Call → Bool
is_fit (staging id bytes) = is_sound id
is_fit (removing id) = is_sound id
is_fit (reading k) = is_sound k && not (ends_with k (codes ".part"))

-- The answers to a sequence of calls.
unfoldable pub on_memory : List Call → Dict Bytes → List Answer
on_memory [] m = []
on_memory (staging id bytes ∷ cs) m =
    let r = Blobs.staged_write id bytes m in answer_unit r.0 ∷ on_memory cs r.1
on_memory (removing id ∷ cs) m =
    let r = Blobs.remove_staged id m in answer_unit r.0 ∷ on_memory cs r.1
on_memory (reading k ∷ cs) m = let r = Blobs.read k m in answer_bytes r.0 ∷ on_memory cs r.1

module _ (reason : ℕ → Bytes) (root : Bytes) where
  unfoldable pub on_disk : List Call → Disk → List Answer
  on_disk [] d = []
  on_disk (staging id bytes ∷ cs) d =
      let r = Disk.staged_write healthy reason root id bytes d in answer_unit r.0 ∷ on_disk cs r.1
  on_disk (removing id ∷ cs) d =
      let r = Disk.remove_staged healthy reason root id d in answer_unit r.0 ∷ on_disk cs r.1
  on_disk (reading k ∷ cs) d =
      let r = Disk.read healthy reason root k d in answer_bytes r.0 ∷ on_disk cs r.1

  read-same :
      (k : Bytes) (d : Disk) (m : Dict Bytes)
      → is_fit (reading k) ≡ true
      → Agree root d.files m
      → answer_bytes (Disk.read healthy reason root k d).0 ≡ answer_bytes (Blobs.read k m).0
  unfolding is_fit Blobs.read
  read-same k d m fit agree =
      let named : is_empty k ≡ false = ground arith in
      let shown : ends_with k (codes ".part") ≡ false = ground arith in
      let same : get (path root k) d.files ≡ get k m = rw shown at (agree k) in
      elim (Option-cases (get k m)) [
        | inl gone ↦ rw (read-gone reason root k d named (same ∙ gone)) (ground arith)
        | inr (v, there) ↦ rw (read-there reason root k v d named (same ∙ there)) (ground arith)
      ]

  read-files : (k : Bytes) (d : Disk) → (Disk.read healthy reason root k d).1.files ≡ d.files
  unfolding Disk.read Disk.exists Disk.attempt_call Disk.◌>>=◌
  read-files k d = ground arith

  -- Started on files that agree with the blobs in memory, the disk whose calls succeed gives the same
  -- answers as the memory to every sequence of writes, removals and reads of fit names.
  pub on_disk-on_memory :
      (cs : List Call) (d : Disk) (m : Dict Bytes)
      → All (λ c. is_fit c ≡ true) cs
      → Agree root d.files m
      → on_disk cs d ≡ on_memory cs m
  unfolding on_disk on_memory is_fit Blobs.staged_write Blobs.remove_staged Blobs.read
  on_disk-on_memory [] d m fit agree = refl
  on_disk-on_memory (staging id bytes ∷ cs) d m (sound, fit) agree =
      rw (write-returns reason root id bytes d sound) (
        ap (◌∷◌ done)
          (on_disk-on_memory cs _ _ fit (write-Agree reason root id bytes d m sound agree)))
  on_disk-on_memory (removing id ∷ cs) d m (named, fit) agree =
      rw (remove-returns reason root id d) (
        ap (◌∷◌ done)
          (on_disk-on_memory cs _ _ fit (remove-Agree reason root id d m (ground arith) agree)))
  on_disk-on_memory (reading k ∷ cs) d m (shown, fit) agree =
      let kept : Agree root (Disk.read healthy reason root k d).1.files m =
        λ j. ap (λ f. visible j (get (path root j) f)) (read-files k d) ∙ agree j in
      rw (read-same k d m shown agree)
        (ap (◌∷◌ (answer_bytes (Blobs.read k m).0)) (on_disk-on_memory cs _ m fit kept))
