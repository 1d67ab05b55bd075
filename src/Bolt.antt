-- ===== src/Bolt.antt =====
-- The bbolt buckets that internal/store/bolt.go works on. bbolt is a dependency: it is an interface
-- here, with the documented behaviour of its calls as laws, and every module of the store takes it as
-- an instance argument.
pub mod Laws
pub mod Assoc
use simple_auth.Prelude.{
  String, ◌≡◌, Bool, true, false, Option, none, some, List, [], ◌∷◌, keys, IsDistinct, lookup,
  if◌then◌else◌, ◌==◌, starts_with,
}
use simple_auth.Outcome.{Error, Result, ok, err, bad_json, key_refused}

pub record Bbolt : Type 1 where
  -- a bucket whose values are of one kind
  pub Bucket : Type 0 → Type 0
  pub empty : {V : Type 0} → Bucket V
  pub get : {V : Type 0} → Bucket V → String → Option V
  -- a Put that succeeds
  pub write : {V : Type 0} → Bucket V → String → V → Bucket V
  pub delete : {V : Type 0} → Bucket V → String → Bucket V
  -- what ForEach and the cursors go through, in the bucket's order
  pub entries : {V : Type 0} → Bucket V → List (String × V)
  -- what a cursor goes through from Seek(prefix), as long as the keys have the prefix
  pub with_prefix : {V : Type 0} → Bucket V → String → List (String × V)
  -- the keys that Put refuses: the blank key, and keys that are too long
  pub refuses : String → Bool
  pub refuses_blank : refuses "" ≡ true
  pub get-empty : {V : Type 0} (k : String) → get (empty {V = V}) k ≡ none
  pub get-refused : {V : Type 0} (b : Bucket V) (k : String) → refuses k ≡ true → get b k ≡ none
  pub get-write :
      {V : Type 0} (b : Bucket V) (k j : String) (v : V)
      → refuses k ≡ false
      → get (write b k v) j ≡ (if k == j then some v else get b j)
  pub get-delete :
      {V : Type 0} (b : Bucket V) (k j : String)
      → get (delete b k) j ≡ (if k == j then none else get b j)
  pub lookup-entries : {V : Type 0} (b : Bucket V) (k : String) → lookup k (entries b) ≡ get b k
  pub lookup-with_prefix :
      {V : Type 0} (b : Bucket V) (prefix k : String)
      → lookup k (with_prefix b prefix) ≡ (if starts_with k prefix then get b k else none)
  pub with_prefix-IsDistinct :
      {V : Type 0} (b : Bucket V) (prefix : String) → IsDistinct (keys (with_prefix b prefix))
  pub entries-IsDistinct : {V : Type 0} (b : Bucket V) → IsDistinct (keys (entries b))

-- What a key holds: JSON that decodes to a value, or bytes that do not decode.
pub data Bytes (V : Type 0) : Type 0 where
  json : V → Bytes V
  garbage : Bytes V

module _ {V : Type 0} where
  -- json.Unmarshal
  abbrev pub decode : Bytes V → Result V
  decode (json v) = ok v
  decode garbage = err bad_json

  -- A Get, the error of the caller for a missing key, then Unmarshal.
  abbrev pub decode_or : Error → Option (Bytes V) → Result V
  decode_or e none = err e
  decode_or e (some d) = decode d

  -- Does a Get find anything?
  abbrev pub is_some : Option (Bytes V) → Bool
  is_some none = false
  is_some (some d) = true

  -- The value decodes and has the property: the test of the loops that collect keys to delete.
  abbrev pub passes : (V → Bool) → Bytes V → Bool
  passes p (json v) = p v
  passes p garbage = false

  abbrev pub found_passes : (V → Bool) → Option (Bytes V) → Bool
  found_passes p none = false
  found_passes p (some d) = passes p d

  -- The first of the two loops: ForEach, `toDelete = append(toDelete, k)`.
  unfoldable pub matching : (V → Bool) → List (String × Bytes V) → List String
  matching p [] = []
  matching p ((k, d) ∷ l) = let rest = matching p l in if passes p d then k ∷ rest else rest

module _ ⦃bolt : Bbolt⦄ where
  abbrev pub Bucket : Type 0 → Type 0
  Bucket V = bolt.Bucket (Bytes V)

  -- Put.
  unfoldable pub put_raw : {V : Type 0} → bolt.Bucket V → String → V → Result (bolt.Bucket V)
  put_raw b k v = if bolt.refuses k then err key_refused else ok (bolt.write b k v)

  module _ {V : Type 0} where
    unfoldable pub read : Error → Bucket V → String → Result V
    read e b k = decode_or e (bolt.get b k)

    -- Marshal, then Put.
    abbrev pub put : Bucket V → String → V → Result (Bucket V)
    put b k v = put_raw b k (json v)

    -- The second of the two loops: `for _, k := range toDelete { b.Delete(k) }`.
    unfoldable pub delete_all : List String → Bucket V → Bucket V
    delete_all [] b = b
    delete_all (k ∷ ks) b = delete_all ks (bolt.delete b k)

    -- Both loops.
    unfoldable pub prune : (V → Bool) → Bucket V → Bucket V
    unfolding matching delete_all
    prune p b = delete_all (matching p (bolt.entries b)) b
