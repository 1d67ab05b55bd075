-- ===== src/Bolt/Laws.antt =====
-- What the bucket loops leave behind, key by key.
use simple_auth.Prelude.{
  String, ◌≡◌, refl, Bool, false, none, some, List, [], ◌∷◌, keys, elem, IsDistinct, lookup, arith,
  if◌then◌else◌, ◌==◌, eq_iff,
}
use simple_auth.Outcome.{ok}
use simple_auth.Bolt.{Bbolt, Bucket, Bytes, put_raw, found_passes, matching, delete_all, prune}

module _ {V : Type 0} (p : V → Bool) where
  elem-matching-absent :
      (k : String) (l : List (String × Bytes V))
      → elem k (keys l) ≡ false
      → elem k (matching p l) ≡ false
  unfolding matching
  elem-matching-absent k [] h = refl
  elem-matching-absent k ((j, d) ∷ l) h = ground (arith, elem-matching-absent k l)

  elem-matching :
      (k : String) (l : List (String × Bytes V))
      → IsDistinct (keys l)
      → elem k (matching p l) ≡ found_passes p (lookup k l)
  unfolding matching
  elem-matching k [] d = refl
  elem-matching k ((j, v) ∷ l) d =
      ground (arith, elem-matching k l d.1, elem-matching-absent k l, eq_iff j k)

module _ ⦃bolt : Bbolt⦄ {V : Type 0} where
  pub get-delete_all :
      (ks : List String) (b : Bucket V) (k : String)
      → bolt.get (delete_all ks b) k ≡ (if elem k ks then none else bolt.get b k)
  unfolding delete_all
  get-delete_all [] b k = refl
  get-delete_all (j ∷ ks) b k =
      ground (arith, get-delete_all ks (bolt.delete b j) k, bolt.get-delete b j k)

  -- Exactly the keys whose value decodes and has the property are gone.
  pub get-prune :
      (p : V → Bool) (b : Bucket V) (k : String)
      → bolt.get (prune p b) k ≡ (if found_passes p (bolt.get b k) then none else bolt.get b k)
  unfolding prune
  get-prune p b k = rw (
    get-delete_all (matching p (bolt.entries b)) b k,
    elem-matching p k (bolt.entries b) (bolt.entries-IsDistinct b),
    bolt.lookup-entries b k,
  )

module _ ⦃bolt : Bbolt⦄ {V : Type 0} where
  pub put_raw-eq-ok :
      (b : bolt.Bucket V) (k : String) (v : V) {b' : bolt.Bucket V}
      → put_raw b k v ≡ ok b'
      → (bolt.refuses k ≡ false) × (b' ≡ bolt.write b k v)
  unfolding put_raw
  put_raw-eq-ok b k v h = ground arith

  -- What a Put that succeeds leaves at each key.
  pub get-put_raw :
      (b : bolt.Bucket V) (k : String) (v : V) (j : String) {b' : bolt.Bucket V}
      → put_raw b k v ≡ ok b'
      → bolt.get b' j ≡ (if k == j then some v else bolt.get b j)
  get-put_raw b k v j h =
      let (fits, e) = put_raw-eq-ok b k v h in rw e (bolt.get-write b k j v fits)

  pub put_raw-accepted :
      (b : bolt.Bucket V) (k : String) (v : V)
      → bolt.refuses k ≡ false
      → put_raw b k v ≡ ok (bolt.write b k v)
  unfolding put_raw
  put_raw-accepted b k v h = rw h

  -- A key that holds something is one that Put takes.
  pub accepted_of_stored :
      (b : bolt.Bucket V) (k : String) {v : V} → bolt.get b k ≡ some v → bolt.refuses k ≡ false
  accepted_of_stored b k h = ground (arith, bolt.get-refused b k)
