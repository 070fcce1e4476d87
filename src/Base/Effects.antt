-- ===== src/Base/Effects.antt =====
-- C++ methods as functions: the object after a call stands beside its value, or beside what the
-- call threw, since an exception undoes no write.
use mathlib.Core.Path.{◌≡◌, refl}
use mathlib.Core.Logic.{◌⊎◌, inl, inr}
use secure_file_transfer.Base.Text.{Bytes}

-- include/domain/exceptions.hpp, with `std::runtime_error` itself. Each carries its `what()`.
pub data Exception : Type 0 where
  validation auth not_found storage integrity transport runtime : Bytes → Exception

abbrev pub what : Exception → Bytes
what (validation m) = m
what (auth m) = m
what (not_found m) = m
what (storage m) = m
what (integrity m) = m
what (transport m) = m
what (runtime m) = m

pub data Outcome {ℓ} (A : Type ℓ) : Type ℓ where
  returns : A → Outcome A
  throws : Exception → Outcome A

abbrev pub Exec {ℓ} : Type ℓ → Type ℓ → Type ℓ
Exec S A = S → Outcome A × S

module _ {ℓ} {S A : Type ℓ} where
  abbrev pub pure : A → Exec S A
  pure a s = (returns a, s)

  abbrev pub raise : Exception → Exec S A
  raise e s = (throws e, s)

  abbrev pub lift : Outcome A → Exec S A
  lift r s = (r, s)

  abbrev pub gets : (S → A) → Exec S A
  gets f s = (returns (f s), s)

module _ {ℓ} {S A B : Type ℓ} where
  abbrev pub continue : Outcome A → (A → Exec S B) → Exec S B
  continue (returns a) f s = f a s
  continue (throws e) f s = (throws e, s)

  infixl 10 ◌>>=◌ ◌>>◌
  abbrev pub ◌>>=◌ : Exec S A → (A → Exec S B) → Exec S B
  ◌>>=◌ m f s = let (r, s') = m s in continue r f s'

  abbrev pub ◌>>◌ : Exec S A → Exec S B → Exec S B
  m >> n = m >>= λ _. n

-- `try { m } catch (...) { handler }`: what `m` wrote before it threw is still there.
module _ {ℓ} {S A : Type ℓ} where
  abbrev pub handled : Outcome A → (Exception → Exec S A) → Exec S A
  handled (returns a) h s = (returns a, s)
  handled (throws e) h s = h e s

  abbrev pub catch : Exec S A → (Exception → Exec S A) → Exec S A
  catch m h s = let (r, s') = m s in handled r h s'

-- A chain of calls that throw and change nothing.
abbrev pub then_ {ℓ κ} : {A : Type ℓ} {B : Type κ} → Outcome A → (A → Outcome B) → Outcome B
then_ (returns a) f = f a
then_ (throws e) f = throws e

pub Outcome-cases {ℓ} :
    {A : Type ℓ} (o : Outcome A) → ((a : A) × (o ≡ returns a)) ⊎ ((e : Exception) × (o ≡ throws e))
Outcome-cases (returns a) = inl (a, refl)
Outcome-cases (throws e) = inr (e, refl)

-- A chain that returns has gone through all its calls.
module _ {ℓ} {S A B : Type ℓ} where
  continue-returns :
      (r : Outcome A) (f : A → Exec S B) (s : S) {b : B}
      → (continue r f s).0 ≡ returns b
      → (a : A) × (r ≡ returns a) × ((f a s).0 ≡ returns b)
  continue-returns (returns a) f s e = (a, refl, e)
  continue-returns (throws t) f s e = absurd cc

  pub bind-returns :
      (x : Exec S A) (f : A → Exec S B) (s : S) {b : B}
      → ((x >>= f) s).0 ≡ returns b
      → (a : A) × ((x s).0 ≡ returns a) × ((f a (x s).1).0 ≡ returns b)
  bind-returns x f s e = continue-returns (x s).0 f (x s).1 e
