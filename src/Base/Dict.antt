-- ===== src/Base/Dict.antt =====
-- `std::unordered_map` with string keys. The order in which the program's maps are walked is not
-- specified by the language, and no theorem depends on the one that is chosen here.
use Prim.Native.Nat.{◌+◌}
use mathlib.Core.Path.{◌≡◌, refl, sym, ◌∙◌}
use mathlib.Core.Logic.{◌⊎◌, inl, inr}
use mathlib.Core.Bool.{Bool, true, false}
use mathlib.Core.Option.{Option, none, some}
use mathlib.Core.List.{List, [], ◌∷◌}
use native.Mathlib.Omega.{arith}
use secure_file_transfer.Base.Tests.{if◌then◌else◌, Bool-cases, Option-cases}
use secure_file_transfer.Base.Text.{Bytes, str_eq, str_eq_iff, str_eq_refl, str_ne, str_eq-cases}
use secure_file_transfer.Base.Lists.{count_if}

abbrev pub Dict {ℓ} : Type ℓ → Type ℓ
Dict V = List (Bytes × V)

module _ {ℓ} {V : Type ℓ} where
  abbrev pub empty : Dict V
  empty = []

  -- m.find(k), with `none` for m.end()
  unfoldable pub get : Bytes → Dict V → Option V
  unfolding str_eq
  get k [] = none
  get k ((j, v) ∷ m) = if str_eq j k then some v else get k m

  -- m[k] = v
  unfoldable pub put : Bytes → V → Dict V → Dict V
  unfolding str_eq
  put k v [] = (k, v) ∷ []
  put k v ((j, w) ∷ m) = if str_eq j k then (j, v) ∷ m else (j, w) ∷ put k v m

  -- m.erase(k)
  unfoldable pub erase : Bytes → Dict V → Dict V
  unfolding str_eq
  erase k [] = []
  erase k ((j, w) ∷ m) = let rest = erase k m in if str_eq j k then rest else (j, w) ∷ rest

  -- m.emplace(k, v): a key that is there keeps its value
  unfoldable pub emplace : Bytes → V → Dict V → Dict V
  unfolding get put
  emplace k v m = elim (get k m) [ none ↦ put k v m | some w ↦ m ]

  -- m.count(k) != 0
  unfoldable pub contains : Bytes → Dict V → Bool
  unfolding get
  contains k m = elim (get k m) [ none ↦ false | some w ↦ true ]

  unfoldable pub values : Dict V → List V
  values [] = []
  values ((k, v) ∷ m) = v ∷ values m

  unfoldable pub keys : Dict V → List Bytes
  keys [] = []
  keys ((k, v) ∷ m) = k ∷ keys m

  -- for (auto& [k, v] : m) v = f(v)
  unfoldable pub update_all : (V → V) → Dict V → Dict V
  update_all f [] = []
  update_all f ((k, v) ∷ m) = (k, f v) ∷ update_all f m

module _ {ℓ} {V : Type ℓ} where
  pub get-empty : (k : Bytes) → get k (empty {V = V}) ≡ none
  unfolding get
  get-empty k = refl

  pub get-put :
      (k j : Bytes) (v : V) (m : Dict V)
      → get j (put k v m) ≡ (if str_eq k j then some v else get j m)
  unfolding get put
  get-put k j v [] = refl
  get-put k j v ((i, w) ∷ m) =
      ground (arith, str_eq_iff k j, str_eq_iff i k, str_eq_iff i j, get-put k j v m)

  pub get-put_self : (k : Bytes) (v : V) (m : Dict V) → get k (put k v m) ≡ some v
  get-put_self k v m = simp (get-put, str_eq_refl)

  pub get-erase :
      (k j : Bytes) (m : Dict V) → get j (erase k m) ≡ (if str_eq k j then none else get j m)
  unfolding get erase
  get-erase k j [] = ground arith
  get-erase k j ((i, w) ∷ m) =
      ground (arith, str_eq_iff k j, str_eq_iff i k, str_eq_iff i j, get-erase k j m)

  pub get-update_all :
      (f : V → V) (k : Bytes) (m : Dict V)
      → get k (update_all f m) ≡ elim (get k m) [ none ↦ none | some v ↦ some (f v) ]
  unfolding get update_all
  get-update_all f k [] = refl
  get-update_all f k ((j, w) ∷ m) = ground (arith, get-update_all f k m)

  pub emplace_fresh : (k : Bytes) (v : V) (m : Dict V) → get k m ≡ none → emplace k v m ≡ put k v m
  unfolding emplace
  emplace_fresh k v m e = rw (e, emplace)

  pub none-contains : (k : Bytes) (m : Dict V) → get k m ≡ none → contains k m ≡ false
  unfolding contains
  none-contains k m e = rw (e, contains)

  -- Replacing the value of a key moves the count of a test by that one value.
  pub count-put :
      (t : V → Bool) (k : Bytes) (v w : V) (m : Dict V)
      → get k m ≡ some w
      → count_if t (values (put k v m)) + (if t w then 1 else 0)
        ≡ count_if t (values m) + (if t v then 1 else 0)
  unfolding get put values count_if
  count-put t k v w [] e = cc
  count-put t k v w ((j, u) ∷ m) e = elim (Bool-cases (str_eq j k)) [
    | inl hit ↦
        let found : some u ≡ some w = rw hit at e in
        let same : u ≡ w = cc in rw hit (rw same (omega arith))
    | inr miss ↦
        let later : get k m ≡ some w = rw miss at e in
        rw miss (omega (arith, count-put t k v w m later))
  ]

  -- A new key adds its value to the count.
  pub count-put_new :
      (t : V → Bool) (k : Bytes) (v : V) (m : Dict V)
      → get k m ≡ none
      → count_if t (values (put k v m)) ≡ count_if t (values m) + (if t v then 1 else 0)
  unfolding get put values count_if
  count-put_new t k v [] e = omega arith
  count-put_new t k v ((j, u) ∷ m) e = elim (Bool-cases (str_eq j k)) [
    | inl hit ↦ absurd (cc (rw hit at e))
    | inr miss ↦
        let later : get k m ≡ none = rw miss at e in
        rw miss (omega (arith, count-put_new t k v m later))
  ]

  pub get-put_ne : (k j : Bytes) (v : V) (m : Dict V) → ¬ (k ≡ j) → get j (put k v m) ≡ get j m
  get-put_ne k j v m h = rw (get-put, str_ne k j h) refl

  -- Where a value that is found after a write comes from.
  pub put-cases :
      (k j : Bytes) (v x : V) (m : Dict V)
      → get j (put k v m) ≡ some x
      → ((k ≡ j) × (v ≡ x)) ⊎ ((¬ (k ≡ j)) × (get j m ≡ some x))
  put-cases k j v x m e = elim (str_eq-cases k j) [
    | inl same ↦
        let here : get j (put k v m) ≡ some v = rw same (get-put_self j v m) in inl (same, cc)
    | inr other ↦ inr (other, sym (get-put_ne k j v m other) ∙ e)
  ]

  -- A value that was there stays, or was replaced.
  pub contains-none : (k : Bytes) (m : Dict V) → contains k m ≡ false → get k m ≡ none
  unfolding contains
  contains-none k m h = ground arith

  pub emplace-keeps :
      (k j : Bytes) (v w : V) (m : Dict V) → get j m ≡ some w → get j (emplace k v m) ≡ some w
  unfolding emplace
  emplace-keeps k j v w m e = elim (Option-cases (get k m)) [
    | inl new ↦
        let other : ¬ (k ≡ j) = λ s. cc (new, rw (← s) at e) in
        rw (new, emplace) (get-put_ne k j v m other ∙ e)
    | inr (old, there) ↦ rw (there, emplace) e
  ]

  pub emplace-has : (k : Bytes) (v : V) (m : Dict V) → (w : V) × (get k (emplace k v m) ≡ some w)
  unfolding emplace
  emplace-has k v m = elim (Option-cases (get k m)) [
    | inl new ↦ (v, rw (new, emplace) (get-put_self k v m))
    | inr (old, there) ↦ (old, rw (there, emplace) there)
  ]

  pub emplace-other :
      (k j : Bytes) (v w : V) (m : Dict V)
      → ¬ (k ≡ j)
      → get j (emplace k v m) ≡ some w
      → get j m ≡ some w
  unfolding emplace
  emplace-other k j v w m other e = elim (Option-cases (get k m)) [
    | inl new ↦
        let put_there : get j (put k v m) ≡ some w = rw (new, emplace) at e in
        sym (get-put_ne k j v m other) ∙ put_there
    | inr (old, there) ↦ rw (there, emplace) at e
  ]

  pub contains-some : (k : Bytes) (m : Dict V) → contains k m ≡ true → (v : V) × (get k m ≡ some v)
  unfolding contains
  contains-some k m h = elim (Option-cases (get k m)) [
    | inl gone ↦ absurd (cc (rw (gone, contains) at h))
    | inr found ↦ found
  ]
