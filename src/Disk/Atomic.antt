-- ===== src/Disk/Atomic.antt =====
-- A staged write, crash by crash: the states of the files on the way, whatever call fails.
use secure_file_transfer.Base.{
  ℕ, ◌≡◌, refl, Bool, Bytes, Option, Exec, returns, throws, raise, codes, [], ◌∷◌, inl, inr,
  is_empty, All, Exception, continue, if◌then◌else◌, true, false,
}
use secure_file_transfer.Base.Dict.{Dict, get}
use secure_file_transfer.Validator.{has_part}
use secure_file_transfer.Disk.{
  Disk, ◌>>=◌, path, part_name, ensure_root_exists, stage, publish, staged_write,
}
use secure_file_transfer.Disk.Keeps.{Keeps}
use secure_file_transfer.Disk.Staging.{Keeps-plain_call}
use secure_file_transfer.Disk.Ensures.{Files, Ensures}
use secure_file_transfer.Disk.Crash.{Whole, Safe, path_ne, Keeps-publish, Keeps-staging}
use secure_file_transfer.Disk.Published.{Full, Ensures-stage}

-- `Watches P Q x`: started on files of which P holds, `x` passes through states of which Q holds.
unfoldable Watches : {A : Type 0} → (P Q : Files) → Exec Disk A → Type 0
Watches P Q x = (d : Disk) → P d.files → All Q d.history → All Q (x d).1.history

Keeps-Watches : {A : Type 0} (P Q : Files) (x : Exec Disk A) → Keeps P Q x → Watches P Q x
unfolding Keeps Watches
Keeps-Watches P Q x k d p q = (k d p q).1

Watches-raise : (A : Type 0) (P Q : Files) (e : Exception) → Watches {A = A} P Q (raise e)
unfolding Watches
Watches-raise A P Q e d p q = q

Watches-if :
    {A : Type 0} (b : Bool) (P Q : Files) (x y : Exec Disk A)
    → Watches P Q x
    → Watches P Q y
    → Watches P Q (if b then x else y)
Watches-if true P Q x y k l = k
Watches-if false P Q x y k l = l

Watches-bind :
    {A B : Type 0} (P Q : Files) (M : A → Files) (x : Exec Disk A) (f : A → Exec Disk B)
    → Keeps P Q x
    → Ensures P M x
    → ((a : A) → Watches (λ m. P m × M a m) Q (f a))
    → Watches P Q (x >>= f)
unfolding Keeps Ensures Watches ◌>>=◌
Watches-bind P Q M x f k l w d p q =
    elim (x d).0 as (λ r. (x d).0 ≡ r → All Q (continue r f (x d).1).1.history) [
      | returns a ↦ λ same. w a (x d).1 ((k d p q).0, l d p a same) (k d p q).1
      | throws t ↦ λ same. (k d p q).1
    ]
      refl

module _ (oracle : ℕ → Option ℕ) (reason : ℕ → Bytes) where
  module _ (old : Option Bytes) (root id bytes : Bytes) where
    abbrev Sound : Files
    Sound = Safe old bytes (path root (part_name id)) (path root id) (path_ne root id)

    Watches-fill : Watches Sound Sound (
        stage oracle reason (path root (part_name id)) bytes >>= λ staged.
        publish oracle reason (path root (part_name id)) (path root id))
    unfolding Watches Ensures
    Watches-fill =
        let tmp = path root (part_name id) in
        let dst = path root id in
        let apart = path_ne root id in
        Watches-bind Sound Sound (Full oracle reason tmp bytes) _ _
          (Keeps-staging old bytes tmp dst apart oracle reason)
          (λ d p u e. Ensures-stage oracle reason tmp bytes d tt u e)
          (λ u d p q.
            Keeps-Watches _ _ _ (Keeps-publish old bytes tmp dst apart oracle reason) d
              (p.0, inr p.1) q)

    Watches-made : Watches Sound Sound (
        ensure_root_exists oracle reason >>= λ made.
        stage oracle reason (path root (part_name id)) bytes >>= λ staged.
        publish oracle reason (path root (part_name id)) (path root id))
    unfolding Watches Ensures
    Watches-made =
        Watches-bind Sound Sound (λ b m. Unit {0}) _ _
          (Keeps-plain_call Sound Sound oracle reason (λ m h. h)) (λ d p u e. tt)
          (λ made d p q. Watches-fill d p.0 q)

    Watches-staged_write : Watches Sound Sound (staged_write oracle reason root id bytes)
    unfolding staged_write
    Watches-staged_write =
        Watches-if (is_empty id) Sound Sound _ _ (Watches-raise _ Sound Sound _) (
          Watches-if (has_part (0 ∷ []) id) Sound Sound _ _ (Watches-raise _ Sound Sound _) (
            Watches-if (has_part (codes "..") id) Sound Sound _ _ (Watches-raise _ Sound Sound _)
              Watches-made))

  -- Whatever calls of the file system fail, and wherever a crash stops the write: under the name of
  -- the blob there is at every moment what was there before the write, nothing, or all of the new
  -- bytes, never a part of them.
  pub staged_write-Whole :
      (root id bytes : Bytes) (m : Dict Bytes) (calls : ℕ)
      → All
          (λ s. Whole (get (path root id) m) bytes (get (path root id) s))
          (staged_write oracle reason root id bytes
            (record { files = m; calls = calls; history = [] })).1.history
  unfolding Watches
  staged_write-Whole root id bytes m calls =
      Watches-staged_write (get (path root id) m) root id bytes _ (inl refl) tt
