-- ===== src/Prelude/Lists.antt =====
-- Lists and association lists keyed by texts, with native lengths.
use Prim.Native.Nat.{ℕ, suc, ◌+◌}
use Prim.Native.String.{String}
use mathlib.Core.Path.{◌≡◌, refl}
use mathlib.Core.Bool.{Bool, true, false, ◌||◌}
use mathlib.Core.Option.{Option, none, some}
use mathlib.Core.List.{List, [], ◌∷◌, ◌++◌}
use native.Mathlib.Omega.{arith}
use text.Mathlib.Text.{◌==◌}
use text.Mathlib.TextEquality.{eq_iff}
use text.Mathlib.TextPositions.{eq_refl}
use mathlib.Core.Logic.{inl, inr}
use simple_auth.Prelude.Tests.{if◌then◌else◌, Bool-cases}

module _ {ℓ} {A : Type ℓ} where
  abbrev pub length : List A → ℕ
  length [] = 0
  length (x ∷ xs) = suc (length xs)

  pub length-append : (xs ys : List A) → length (xs ++ ys) ≡ length xs + length ys
  length-append [] ys = omega arith
  length-append (x ∷ xs) ys = omega (arith, length-append xs ys)

-- Is the text among the listed ones? A Go set `map[string]bool` is read this way.
abbrev pub elem : String → List String → Bool
elem k [] = false
elem k (x ∷ xs) = x == k || elem k xs

pub elem-append : (k : String) (xs ys : List String) → elem k (xs ++ ys) ≡ (elem k xs || elem k ys)
elem-append k [] ys = refl
elem-append k (x ∷ xs) ys = ground (arith, elem-append k xs ys)

module _ {ℓ} {V : Type ℓ} where
  -- The value that an association list holds at a key.
  abbrev pub lookup : String → List (String × V) → Option V
  lookup k [] = none
  lookup k ((j, v) ∷ l) = if j == k then some v else lookup k l

  abbrev pub keys : List (String × V) → List String
  keys [] = []
  keys ((k, v) ∷ l) = k ∷ keys l

  -- The list with every pair of the key dropped.
  abbrev pub without : String → List (String × V) → List (String × V)
  without key [] = []
  without key ((other, v) ∷ l) =
      let rest = without key l in if other == key then rest else (other, v) ∷ rest

  pub elem-keys-without :
      (key other : String) (l : List (String × V))
      → elem other (keys (without key l)) ≡ (if key == other then false else elem other (keys l))
  elem-keys-without key other [] = ground arith
  elem-keys-without key other ((name, v) ∷ l) =
      ground
        (arith, elem-keys-without key other l, eq_iff name key, eq_iff name other, eq_iff key other)

  pub lookup-without :
      (key other : String) (l : List (String × V))
      → lookup other (without key l) ≡ (if key == other then none else lookup other l)
  lookup-without key other [] = ground arith
  lookup-without key other ((name, v) ∷ l) =
      ground
        (arith, lookup-without key other l, eq_iff name key, eq_iff name other, eq_iff key other)

-- No text stands twice in the list.
abbrev pub IsDistinct : List String → Type 0
IsDistinct [] = Unit
IsDistinct (x ∷ xs) = (elem x xs ≡ false) × IsDistinct xs

-- The pairs whose key passes a test.
abbrev pub with_keys {ℓ} : {V : Type ℓ} → (String → Bool) → List (String × V) → List (String × V)
with_keys p [] = []
with_keys p ((k, v) ∷ l) = let rest = with_keys p l in if p k then (k, v) ∷ rest else rest

module _ {ℓ} {V : Type ℓ} (p : String → Bool) where
  pub lookup-with_keys :
      (k : String) (l : List (String × V))
      → lookup k (with_keys p l) ≡ (if p k then lookup k l else none)
  lookup-with_keys k [] = ground arith
  lookup-with_keys k ((j, v) ∷ l) = elim (Bool-cases (j == k)) [
    | inl here ↦ rw ((eq_iff j k).0 here) (ground (arith, lookup-with_keys k l, eq_refl k))
    | inr other ↦ ground (arith, lookup-with_keys k l)
  ]

  elem-with_keys :
      (k : String) (l : List (String × V))
      → elem k (keys l) ≡ false
      → elem k (keys (with_keys p l)) ≡ false
  elem-with_keys k [] h = refl
  elem-with_keys k ((j, v) ∷ l) h = ground (arith, elem-with_keys k l)

  pub with_keys-IsDistinct :
      (l : List (String × V)) → IsDistinct (keys l) → IsDistinct (keys (with_keys p l))
  with_keys-IsDistinct [] d = tt
  with_keys-IsDistinct ((j, v) ∷ l) d =
      ground (arith, with_keys-IsDistinct l d.1, elem-with_keys j l)

module _ {ℓ} {V : Type ℓ} where
  pub lookup-absent :
      (k : String) (l : List (String × V)) → elem k (keys l) ≡ false → lookup k l ≡ none
  lookup-absent k [] h = refl
  lookup-absent k ((j, v) ∷ l) h = ground (arith, lookup-absent k l)

  pub lookup_of_elem :
      (k : String) (l : List (String × V))
      → elem k (keys l) ≡ true
      → (v : V) × (lookup k l ≡ some v)
  lookup_of_elem k [] h = cc
  lookup_of_elem k ((j, v) ∷ l) h = elim (Bool-cases (j == k)) [
    | inl here ↦ (v, rw here)
    | inr other ↦ let (w, found) = lookup_of_elem k l (rw other at h) in (w, rw other found)
  ]

  pub elem-keys_of_lookup :
      (k : String) (l : List (String × V)) (v : V) → lookup k l ≡ some v → elem k (keys l) ≡ true
  elem-keys_of_lookup k [] v h = cc
  elem-keys_of_lookup k ((j, w) ∷ l) v h = ground (arith, elem-keys_of_lookup k l v)

  pub length-keys : (l : List (String × V)) → length (keys l) ≡ length l
  length-keys [] = refl
  length-keys ((k, v) ∷ l) = omega (arith, length-keys l)

module _ {ℓ} {V : Type ℓ} where
  pub without-IsDistinct :
      (k : String) (l : List (String × V)) → IsDistinct (keys l) → IsDistinct (keys (without k l))
  without-IsDistinct k [] d = tt
  without-IsDistinct k ((i, v) ∷ l) d =
      ground (arith, without-IsDistinct k l d.1, elem-keys-without k i l)
