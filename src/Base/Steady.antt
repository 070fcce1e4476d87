-- ===== src/Base/Steady.antt =====
-- What a call leaves true of the object it is made on, whether it returns or throws.
use mathlib.Core.Bool.{Bool, true, false}
use secure_file_transfer.Base.Tests.{if◌then◌else◌}
use secure_file_transfer.Base.Effects.{
  Exec, Outcome, returns, throws, Exception, pure, raise, lift, gets, continue, ◌>>=◌, handled,
  catch,
}

-- `Steady P m`: an object of which P holds still satisfies it after `m`.
unfoldable pub Steady : {S : Type 0} → (S → Type 0) → {A : Type 0} → Exec S A → Type 0
Steady {S} P m = (s : S) → P s → P (m s).1

module _ {S : Type 0} (P : S → Type 0) where
  pub Steady-lift : {A : Type 0} (r : Outcome A) → Steady P (lift r)
  unfolding Steady
  Steady-lift r s h = h

  pub Steady-pure : {A : Type 0} (a : A) → Steady P (pure a)
  unfolding Steady
  Steady-pure a s h = h

  pub Steady-raise : (A : Type 0) (e : Exception) → Steady P {A = A} (raise e)
  unfolding Steady
  Steady-raise A e s h = h

  pub Steady-gets : {A : Type 0} (f : S → A) → Steady P (gets f)
  unfolding Steady
  Steady-gets f s h = h

  Steady-continue :
      {A B : Type 0} (r : Outcome A) (f : A → Exec S B) (s : S)
      → ((a : A) → Steady P (f a))
      → P s
      → P (continue r f s).1
  unfolding Steady
  Steady-continue (returns a) f s k h = k a s h
  Steady-continue (throws e) f s k h = h

  pub Steady-bind :
      {A B : Type 0} (m : Exec S A) (f : A → Exec S B)
      → Steady P m
      → ((a : A) → Steady P (f a))
      → Steady P (m >>= f)
  unfolding Steady
  Steady-bind m f k l s h = Steady-continue (m s).0 f (m s).1 l (k s h)

  pub Steady-if :
      {A : Type 0} (b : Bool) (m n : Exec S A)
      → Steady P m
      → Steady P n
      → Steady P (if b then m else n)
  Steady-if true m n k l = k
  Steady-if false m n k l = l

  Steady-handled :
      {A : Type 0} (r : Outcome A) (g : Exception → Exec S A) (s : S)
      → ((e : Exception) → Steady P (g e))
      → P s
      → P (handled r g s).1
  unfolding Steady
  Steady-handled (returns a) g s k h = h
  Steady-handled (throws e) g s k h = k e s h

  pub Steady-catch :
      {A : Type 0} (m : Exec S A) (g : Exception → Exec S A)
      → Steady P m
      → ((e : Exception) → Steady P (g e))
      → Steady P (catch m g)
  unfolding Steady
  Steady-catch m g k l s h = Steady-handled (m s).0 g (m s).1 l (k s h)
