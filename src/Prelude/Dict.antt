-- ===== src/Prelude/Dict.antt =====
-- Go maps with string keys as association lists, and arrays of shared objects by address.
use Prim.Native.Nat.{ℕ, zero, suc}
use mathlib.Core.Path.{◌≡◌, refl, ap}
use mathlib.Core.Logic.{◌≢◌, ◌⊎◌, inl, inr}
use mathlib.Core.List.{List, [], ◌∷◌, ◌++◌}
use mathlib.Core.Option
use mathlib.Core.Option.{Option, none, some}
use native.Mathlib.Omega.{arith}
use airpc.Prelude.Tests.{◌==◌, if◌then◌else◌}
use airpc.Prelude.Lists.{length, get_elem?}
use airpc.Prelude.Strings.{Text, text_eq, text_eq_iff}

module _ {ℓ} {V : Type ℓ} where
  -- `m[k]`
  unfoldable pub lookup : Text → List (Text × V) → Option V
  lookup k [] = none
  lookup k ((j, v) ∷ m) = if text_eq j k then some v else lookup k m

  -- `delete(m, k)`
  unfoldable pub erase : Text → List (Text × V) → List (Text × V)
  erase k [] = []
  erase k ((j, v) ∷ m) = if text_eq j k then erase k m else (j, v) ∷ erase k m

  -- `m[k] = v`
  unfoldable pub insert : Text → V → List (Text × V) → List (Text × V)
  unfolding erase
  insert k v m = (k, v) ∷ erase k m

  pub lookup-erase :
      (k j : Text) (m : List (Text × V))
      → lookup j (erase k m) ≡ (if text_eq k j then none else lookup j m)
  unfolding lookup erase
  lookup-erase k j [] = ground arith
  lookup-erase k j ((i, v) ∷ m) =
      ground (arith, text_eq_iff k j, text_eq_iff i k, text_eq_iff i j, lookup-erase k j m)

  pub lookup-insert :
      (k j : Text) (v : V) (m : List (Text × V))
      → lookup j (insert k v m) ≡ (if text_eq k j then some v else lookup j m)
  unfolding lookup insert
  lookup-insert k j v m = ground (arith, lookup-erase k j m)

module _ {ℓ} {A : Type ℓ} where
  -- The object at an address is changed in place.
  unfoldable pub modify : (A → A) → ℕ → List A → List A
  modify f i [] = []
  modify f zero (x ∷ xs) = f x ∷ xs
  modify f (suc i) (x ∷ xs) = x ∷ modify f i xs

  pub get_elem?-modify :
      (f : A → A) (i j : ℕ) (xs : List A)
      → get_elem? (modify f i xs) j
        ≡ (if i == j then Option.map f (get_elem? xs j) else get_elem? xs j)
  unfolding modify
  get_elem?-modify f i j [] = ground arith
  get_elem?-modify f zero zero (x ∷ xs) = refl
  get_elem?-modify f zero (suc j) (x ∷ xs) = ground arith
  get_elem?-modify f (suc i) zero (x ∷ xs) = ground arith
  get_elem?-modify f (suc i) (suc j) (x ∷ xs) = ground (arith, get_elem?-modify f i j xs)

  pub length-modify : (f : A → A) (i : ℕ) (xs : List A) → length (modify f i xs) ≡ length xs
  unfolding modify
  length-modify f i [] = refl
  length-modify f zero (x ∷ xs) = refl
  length-modify f (suc i) (x ∷ xs) = ap suc (length-modify f i xs)

  -- A new object at the end.
  pub get_elem?-last :
      (xs : List A) (x : A) (j : ℕ)
      → get_elem? (xs ++ x ∷ []) j ≡ (if length xs == j then some x else get_elem? xs j)
  get_elem?-last [] x zero = refl
  get_elem?-last [] x (suc j) = ground arith
  get_elem?-last (y ∷ xs) x zero = ground arith
  get_elem?-last (y ∷ xs) x (suc j) = ground (arith, get_elem?-last xs x j)

  -- What stands at an address after a change: the changed object, or one left alone.
  pub modify_split :
      (f : A → A) (i j : ℕ) (xs : List A) (a : A)
      → get_elem? (modify f i xs) j ≡ some a
      → ((i ≡ j) × ((b : A) × (get_elem? xs j ≡ some b) × (a ≡ f b)))
        ⊎ ((i ≢ j) × (get_elem? xs j ≡ some a))
  unfolding modify
  modify_split f i j [] a e = absurd (ground arith)
  modify_split f zero zero (x ∷ xs) a e = inl (refl, (x, refl, ground arith))
  modify_split f zero (suc j) (x ∷ xs) a e = inr (omega arith, e)
  modify_split f (suc i) zero (x ∷ xs) a e = inr (omega arith, e)
  modify_split f (suc i) (suc j) (x ∷ xs) a e = elim (modify_split f i j xs a e) [
    | inl (q, (b, h, k)) ↦ inl (omega arith, (b, h, k))
    | inr (q, h) ↦ inr (omega arith, h)
  ]

  pub get_elem?-modify_of :
      (f : A → A) (i j : ℕ) (xs : List A) (a : A)
      → get_elem? xs j ≡ some a
      → get_elem? (modify f i xs) j ≡ some (if i == j then f a else a)
  get_elem?-modify_of f i j xs a e = ground (arith, get_elem?-modify f i j xs)

  pub last_split :
      (xs : List A) (x : A) (j : ℕ) (a : A)
      → get_elem? (xs ++ x ∷ []) j ≡ some a
      → ((length xs ≡ j) × (a ≡ x)) ⊎ (get_elem? xs j ≡ some a)
  last_split xs x j a e = ground (arith, get_elem?-last xs x j)
