-- ===== src/Disk/Keeps.antt =====
-- What every call of an operation on the disk leaves true of the files. `Keeps P Q x`: files of
-- which P holds still satisfy P after `x`, and Q holds of every state on the way.
use secure_file_transfer.Base.{
  ℕ, Bool, true, false, Bytes, Option, Exec, Outcome, returns, throws, pure, raise, inl, inr,
  if◌then◌else◌, continue, All, Option-cases, Exception,
}
use secure_file_transfer.Base.Dict.{Dict}
use secure_file_transfer.Disk.{Disk, ◌>>=◌, attempt_call}

unfoldable pub Keeps : (P Q : Dict Bytes → Type 0) → {A : Type 0} → Exec Disk A → Type 0
Keeps P Q x = (d : Disk) → P d.files → All Q d.history → P (x d).1.files × All Q (x d).1.history

module _ (P Q : Dict Bytes → Type 0) where
  pub Keeps-pure : {A : Type 0} (a : A) → Keeps P Q (pure a)
  unfolding Keeps
  Keeps-pure a d p q = (p, q)

  pub Keeps-raise : (A : Type 0) (e : Exception) → Keeps P Q {A = A} (raise e)
  unfolding Keeps
  Keeps-raise A e d p q = (p, q)

  Keeps-continue :
      {A B : Type 0} (r : Outcome A) (f : A → Exec Disk B) (d : Disk)
      → ((a : A) → Keeps P Q (f a))
      → P d.files
      → All Q d.history
      → P (continue r f d).1.files × All Q (continue r f d).1.history
  unfolding Keeps
  Keeps-continue (returns a) f d k p q = k a d p q
  Keeps-continue (throws e) f d k p q = (p, q)

  pub Keeps-bind :
      {A B : Type 0} (x : Exec Disk A) (f : A → Exec Disk B)
      → Keeps P Q x
      → ((a : A) → Keeps P Q (f a))
      → Keeps P Q (x >>= f)
  unfolding Keeps ◌>>=◌
  Keeps-bind x f k l d p q = let (p', q') = k d p q in Keeps-continue (x d).0 f (x d).1 l p' q'

  pub Keeps-if :
      {A : Type 0} (b : Bool) (x y : Exec Disk A)
      → Keeps P Q x
      → Keeps P Q y
      → Keeps P Q (if b then x else y)
  Keeps-if true x y k l = k
  Keeps-if false x y k l = l

  module _ (oracle : ℕ → Option ℕ) (reason : ℕ → Bytes) where
    pub Keeps-attempt_call :
        (good : Dict Bytes → Dict Bytes) (bad : ℕ → Dict Bytes → Dict Bytes)
        → ((m : Dict Bytes) → P m → Q m)
        → ((m : Dict Bytes) → P m → P (good m))
        → ((k : ℕ) (m : Dict Bytes) → P m → P (bad k m))
        → Keeps P Q (attempt_call oracle reason good bad)
    unfolding attempt_call Keeps
    Keeps-attempt_call good bad w g b d p q = elim (Option-cases (oracle d.calls)) [
      | inl ok ↦ rw ok (g d.files p, (w (good d.files) (g d.files p), q))
      | inr (k, failed) ↦ rw failed (b k d.files p, (w (bad k d.files) (b k d.files p), q))
    ]
