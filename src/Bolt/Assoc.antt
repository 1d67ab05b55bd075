-- ===== src/Bolt/Assoc.antt =====
-- A bucket as an association list: the interface of bbolt can be met, and the tests run on it.
use simple_auth.Prelude.{
  String, ◌≡◌, refl, Bool, true, false, none, some, List, [], ◌∷◌, keys, elem, IsDistinct, lookup,
  starts_with, with_keys, lookup-with_keys, with_keys-IsDistinct, without, lookup-without,
  without-IsDistinct, elem-keys-without, arith, if◌then◌else◌, ◌==◌, eq_iff, eq_refl,
}
use simple_auth.Bolt.{Bbolt}

-- A bucket of the tests: pairs with distinct keys, none of them blank.
pub record Pairs (V : Type 0) : Type 0 where
  pub list : List (String × V)
  pub distinct : IsDistinct (keys list)
  pub no_blank : elem "" (keys list) ≡ false

write_new : {V : Type 0} (b : Pairs V) (k : String) → V → (k == "") ≡ false → Pairs V
write_new b k v h = record {
  list = (k, v) ∷ without k b.list;
  distinct = (rw (elem-keys-without k k b.list, eq_refl k), without-IsDistinct k b.list b.distinct);
  no_blank = rw (h, elem-keys-without k "" b.list, b.no_blank) (ground arith);
}

-- A blank key changes nothing.
write_if :
    {V : Type 0} (b : Pairs V) (k : String) → V → (blank : Bool) → (k == "") ≡ blank → Pairs V
write_if b k v true h = b
write_if b k v false h = write_new b k v h

unfoldable pub write : {V : Type 0} → Pairs V → String → V → Pairs V
unfolding write_new write_if
write b k v = write_if b k v (k == "") refl

pub no_blank-without :
    {V : Type 0} (b : Pairs V) (k : String) → elem "" (keys (without k b.list)) ≡ false
no_blank-without b k = rw (elem-keys-without k "" b.list, b.no_blank) (ground arith)

unfoldable pub drop : {V : Type 0} → Pairs V → String → Pairs V
drop b k = record {
  list = without k b.list;
  distinct = without-IsDistinct k b.list b.distinct;
  no_blank = no_blank-without b k;
}

pub absent_blank :
    {V : Type 0} (k : String) (l : List (String × V))
    → elem "" (keys l) ≡ false
    → (k == "") ≡ true
    → lookup k l ≡ none
absent_blank k [] h e = refl
absent_blank k ((j, v) ∷ l) h e =
    ground (arith, absent_blank k l, eq_iff k "", eq_iff j k, eq_iff j "")

lookup-write_if :
    {V : Type 0} (b : Pairs V) (k j : String) (v : V) (blank : Bool) (e : (k == "") ≡ blank)
    → blank ≡ false
    → lookup j (write_if b k v blank e).list ≡ (if k == j then some v else lookup j b.list)
unfolding write_if write_new
lookup-write_if b k j v true e h = cc
lookup-write_if b k j v false e h = ground (arith, lookup-without k j b.list)

pub lookup-write :
    {V : Type 0} (b : Pairs V) (k j : String) (v : V)
    → (k == "") ≡ false
    → lookup j (write b k v).list ≡ (if k == j then some v else lookup j b.list)
unfolding write
lookup-write b k j v h = lookup-write_if b k j v (k == "") refl h

instance unfoldable pub assoc_bolt : Bbolt
unfolding write drop
assoc_bolt = record {
  Bucket = Pairs;
  empty = record { list = []; distinct = tt; no_blank = refl };
  get = λ b k. lookup k b.list;
  write = write;
  delete = drop;
  entries = λ b. b.list;
  with_prefix = λ b prefix. with_keys (λ k. starts_with k prefix) b.list;
  refuses = λ k. k == "";
  refuses_blank = refl;
  get-empty = λ k. refl;
  get-refused = λ b k h. absent_blank k b.list b.no_blank h;
  get-write = λ b k j v h. lookup-write b k j v h;
  get-delete = λ b k j. lookup-without k j b.list;
  lookup-entries = λ b k. refl;
  lookup-with_prefix = λ b prefix k. lookup-with_keys (λ j. starts_with j prefix) k b.list;
  with_prefix-IsDistinct =
      λ b prefix. with_keys-IsDistinct (λ j. starts_with j prefix) b.list b.distinct;
  entries-IsDistinct = λ b. b.distinct;
}
