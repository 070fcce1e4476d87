-- ===== src/Disk/Ensures.antt =====
-- What holds of the files once a call has returned: `Ensures P R x` says that `x`, started on files
-- of which P holds and returning a, leaves files of which `R a` holds. A call that throws ensures
-- everything.
use secure_file_transfer.Base.{
  ℕ, ◌≡◌, refl, Bool, true, false, Bytes, Option, List, [], ◌∷◌, Exec, returns, throws, pure, raise,
  inl, inr, if◌then◌else◌, continue, Option-cases, Exception, All, arith, ◌++◌,
}
use secure_file_transfer.Base.Dict.{Dict}
use secure_file_transfer.Disk.{Disk, ◌>>=◌, attempt_call, abandon, abandon_for}
use secure_file_transfer.Disk.Keeps.{Keeps}

abbrev pub Files : Type 1
Files = Dict Bytes → Type 0

unfoldable pub Ensures : {A : Type 0} → Files → (A → Files) → Exec Disk A → Type 0
Ensures {A} P R x = (d : Disk) → P d.files → (a : A) → (x d).0 ≡ returns a → R a (x d).1.files

pub All-Unit : (ms : List (Dict Bytes)) → All (λ m. Unit {0}) ms
All-Unit [] = tt
All-Unit (m ∷ ms) = (tt, All-Unit ms)

pub Keeps-Ensures :
    {A : Type 0} (P : Files) (x : Exec Disk A) → Keeps P (λ m. Unit {0}) x → Ensures P (λ a. P) x
unfolding Keeps Ensures
Keeps-Ensures P x k d p a e = (k d p (All-Unit d.history)).0

pub Ensures-pure : {A : Type 0} (R : A → Files) (a : A) → Ensures (R a) R (pure a)
unfolding Ensures
Ensures-pure R a d p b e = let same : a ≡ b = cc in rw (← same) p

pub Ensures-raise : {A : Type 0} (P : Files) (R : A → Files) (t : Exception) → Ensures P R (raise t)
unfolding Ensures
Ensures-raise P R t d p b e = absurd cc

pub Ensures-run :
    {A : Type 0} (P : Files) (R : A → Files) (x : Exec Disk A)
    → Ensures P R x
    → ((m : Dict Bytes) → P m)
    → (d : Disk) {a : A} → (x d).0 ≡ returns a
    → R a (x d).1.files
unfolding Ensures
Ensures-run P R x k always d {a} e = k d (always d.files) a e

pub Ensures-bind :
    {A B : Type 0} (P : Files) (M : A → Files) (R : B → Files) (x : Exec Disk A)
    (f : A → Exec Disk B)
    → Ensures P M x
    → ((a : A) → Ensures (M a) R (f a))
    → Ensures P R (x >>= f)
unfolding Ensures ◌>>=◌
Ensures-bind P M R x f k l d p b e =
    elim (x d).0
        as (λ r.
          (x d).0 ≡ r → (continue r f (x d).1).0 ≡ returns b → R b (continue r f (x d).1).1.files) [
            | returns a ↦ λ same done. l a (x d).1 (k d p a same) b done
            | throws t ↦ λ same done. absurd cc
          ]
      refl e

pub Ensures-if :
    {A : Type 0} (b : Bool) (P : Files) (R : A → Files) (x y : Exec Disk A)
    → (b ≡ true → Ensures P R x)
    → (b ≡ false → Ensures P R y)
    → Ensures P R (if b then x else y)
Ensures-if true P R x y k l = k refl
Ensures-if false P R x y k l = l refl

pub Ensures-then :
    {A B : Type 0} (P : Files) (R : B → Files) (x : Exec Disk A) (f : A → Exec Disk B)
    → ((a : A) → Ensures (λ m. Unit {0}) R (f a))
    → Ensures P R (x >>= f)
unfolding Ensures
Ensures-then {A} P R x f l = Ensures-bind P (λ (a : A) m. Unit {0}) R x f (λ d p a e. tt) l

module _ (oracle : ℕ → Option ℕ) (reason : ℕ → Bytes) where
  pub Ensures-attempt_call :
      (P : Files) (R : Bool → Files) (good : Dict Bytes → Dict Bytes)
      (bad : ℕ → Dict Bytes → Dict Bytes)
      → ((m : Dict Bytes) → P m → R true (good m))
      → ((k : ℕ) (m : Dict Bytes) → P m → R false (bad k m))
      → Ensures P R (attempt_call oracle reason good bad)
  unfolding Ensures attempt_call
  Ensures-attempt_call P R good bad g b d p a e = elim (Option-cases (oracle d.calls)) [
    | inl ok ↦ let same : true ≡ a = cc (rw ok at e) in rw (ok, ← same) (g d.files p)
    | inr (k, failed) ↦
        let same : false ≡ a = cc (rw failed at e) in rw (failed, ← same) (b k d.files p)
  ]

  pub Ensures-abandon :
      (P : Files) (R : Unit {0} → Files) (tmp message : Bytes)
      → Ensures P R (abandon oracle reason tmp message)
  unfolding Ensures attempt_call ◌>>=◌
  Ensures-abandon P R tmp message d p a e = absurd (ground arith)

  pub Ensures-abandon_for :
      (P : Files) (R : Unit {0} → Files) (tmp message : Bytes)
      → Ensures P R (abandon_for oracle reason tmp message)
  unfolding Ensures
  Ensures-abandon_for P R tmp message d = Ensures-abandon P R tmp (message ++ reason d.calls) d
