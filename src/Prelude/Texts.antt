-- ===== src/Prelude/Texts.antt =====
-- Sets and sorted lists of texts.
use Prim.Native.Nat.{Ordering}
use Prim.Native.String.{String, compare}
use mathlib.Core.Path.{◌≡◌, refl, ◌∙◌}
use mathlib.Core.Logic.{inl, inr}
use mathlib.Core.Bool.{false, ◌||◌}
use mathlib.Core.List.{List, [], ◌∷◌, ◌++◌}
use native.Mathlib.Omega.{arith}
use text.Mathlib.Text.{◌==◌}
use text.Mathlib.TextEquality.{eq_iff}
use simple_auth.Prelude.Tests.{if◌then◌else◌, Bool-cases}
use simple_auth.Prelude.Lists.{elem, elem-append, IsDistinct}

-- `set[x] = true`, with the elements in the order of their first insertion.
abbrev pub add_new : List String → String → List String
add_new xs x = if elem x xs then xs else xs ++ x ∷ []

abbrev pub add_all_new : List String → List String → List String
add_all_new xs [] = xs
add_all_new xs (y ∷ ys) = add_all_new (add_new xs y) ys

abbrev pub insert_sorted : String → List String → List String
insert_sorted x [] = x ∷ []
insert_sorted x (y ∷ ys) =
    let rest = insert_sorted x ys in elim (compare x y) [ Ordering.gt ↦ y ∷ rest | _ ↦ x ∷ y ∷ ys ]

-- `sort.Strings`
abbrev pub sort_strings : List String → List String
sort_strings [] = []
sort_strings (x ∷ xs) = insert_sorted x (sort_strings xs)

pub elem-add_new :
    (k : String) (xs : List String) (x : String) → elem k (add_new xs x) ≡ (x == k || elem k xs)
elem-add_new k xs x = ground (arith, elem-append k xs (x ∷ []), eq_iff x k)

pub elem-add_all_new :
    (k : String) (xs ys : List String) → elem k (add_all_new xs ys) ≡ (elem k xs || elem k ys)
elem-add_all_new k xs [] = ground arith
elem-add_all_new k xs (y ∷ ys) =
    ground (arith, elem-add_all_new k (add_new xs y) ys, elem-add_new k xs y)

append_one-IsDistinct :
    (xs : List String) (x : String) → elem x xs ≡ false → IsDistinct xs → IsDistinct (xs ++ x ∷ [])
append_one-IsDistinct [] x h d = (refl, tt)
append_one-IsDistinct (y ∷ ys) x h d = (
  ground (arith, elem-append y ys (x ∷ []), eq_iff x y, eq_iff y x),
  append_one-IsDistinct ys x (ground arith) d.1,
)

pub add_new-IsDistinct : (xs : List String) (x : String) → IsDistinct xs → IsDistinct (add_new xs x)
add_new-IsDistinct xs x d = elim (Bool-cases (elem x xs)) [
  | inl old ↦ rw old d
  | inr new ↦ rw new (append_one-IsDistinct xs x new d)
]

pub add_all_new-IsDistinct : (xs ys : List String) → IsDistinct xs → IsDistinct (add_all_new xs ys)
add_all_new-IsDistinct xs [] d = d
add_all_new-IsDistinct xs (y ∷ ys) d =
    add_all_new-IsDistinct (add_new xs y) ys (add_new-IsDistinct xs y d)

pub elem-insert_sorted :
    (k x : String) (ys : List String) → elem k (insert_sorted x ys) ≡ (x == k || elem k ys)
elem-insert_sorted k x [] = refl
elem-insert_sorted k x (y ∷ ys) = ground (arith, elem-insert_sorted k x ys)

pub elem-sort_strings : (k : String) (xs : List String) → elem k (sort_strings xs) ≡ elem k xs
elem-sort_strings k [] = refl
elem-sort_strings k (x ∷ xs) =
    ground (arith, elem-insert_sorted k x (sort_strings xs), elem-sort_strings k xs)

insert_sorted-IsDistinct :
    (x : String) (ys : List String)
    → elem x ys ≡ false
    → IsDistinct ys
    → IsDistinct (insert_sorted x ys)
insert_sorted-IsDistinct x [] h d = (refl, tt)
insert_sorted-IsDistinct x (y ∷ ys) h d =
    ground (arith, insert_sorted-IsDistinct x ys, elem-insert_sorted y x ys, eq_iff x y, eq_iff y x)

pub sort_strings-IsDistinct : (xs : List String) → IsDistinct xs → IsDistinct (sort_strings xs)
sort_strings-IsDistinct [] d = tt
sort_strings-IsDistinct (x ∷ xs) d =
    insert_sorted-IsDistinct x (sort_strings xs) (elem-sort_strings x xs ∙ d.0)
      (sort_strings-IsDistinct xs d.1)
