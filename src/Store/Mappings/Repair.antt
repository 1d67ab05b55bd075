-- ===== src/Store/Mappings/Repair.antt =====
-- repairMappingIndex makes every index entry backed, whatever the buckets held before.
use simple_auth.Prelude.{
  String, ◌≡◌, refl, sym, ◌∙◌, ap, true, false, ◌&&◌, Option, none, some, List, [], ◌∷◌, elem, keys,
  lookup, lookup-absent, lookup_of_elem, IsDistinct, ◌==◌, arith, eq_iff, eq_refl, Bool-cases,
  Option-cases, inl, inr,
}
use simple_auth.Outcome.{ok}
use simple_auth.Bolt.{Bbolt, Bytes, json, garbage}
use simple_auth.Bolt.Laws.{put_raw-accepted, accepted_of_stored}
use simple_auth.Store.Types.{IdentityMapping}
use simple_auth.Store.State.{BoltStore}
use simple_auth.Store.Mappings.{
  mapping_key, same, contains, listed, IndexBucket, owns, kept, dropped, changes, write_changes,
  repair_mapping_index,
}
use simple_auth.Store.Mappings.Index.{holds, same_iff}
use simple_auth.Store.Mappings.Backed.{IsBacked}

-- What a key lists once its change, if any, is written.
abbrev after : Option (List IdentityMapping) → List IdentityMapping → List IdentityMapping
after none old = old
after (some new) old = new

module _ ⦃bolt : Bbolt⦄ where
  AllAccepted : List String → Type 0
  AllAccepted [] = Unit
  AllAccepted (k ∷ ks) = (bolt.refuses k ≡ false) × AllAccepted ks

  -- The writes succeed, and leave at each key its change or what was there.
  write_changes_lem :
      (cs : List (String × List IdentityMapping)) (idx : IndexBucket)
      → IsDistinct (keys cs)
      → AllAccepted (keys cs)
      → (idx' : IndexBucket) × (write_changes cs idx ≡ ok idx')
        × ((g : String) → listed (bolt.get idx' g) ≡ after (lookup g cs) (listed (bolt.get idx g)))
  unfolding write_changes AllAccepted
  write_changes_lem [] idx d a = (idx, refl, λ g. refl)
  write_changes_lem ((k, []) ∷ cs) idx d a =
      let (idx', done, at) = write_changes_lem cs (bolt.delete idx k) d.1 a.1 in
      (
        idx',
        done,
        λ g. ground (arith, at g, bolt.get-delete idx k g, lookup-absent k cs, eq_iff k g),
      )
  write_changes_lem ((k, m ∷ ms) ∷ cs) idx d a =
      let put = put_raw-accepted idx k (json (m ∷ ms)) a.0 in
      let (idx', done, at) = write_changes_lem cs (bolt.write idx k (json (m ∷ ms))) d.1 a.1 in
      (
        idx',
        rw put done,
        λ g. ground (
          arith,
          at g,
          bolt.get-write idx k g (json (m ∷ ms)) a.0,
          lookup-absent k cs,
          eq_iff k g,
        ),
      )

module _ ⦃bolt : Bbolt⦄ (fwd : bolt.Bucket String) where
  contains-kept :
      (guid : String) (l : List IdentityMapping) (n : IdentityMapping)
      → contains (kept fwd guid l) n ≡ (owns fwd guid n && contains l n)
  unfolding kept
  contains-kept guid [] n = ground arith
  contains-kept guid (m ∷ l) n = elim (Bool-cases (same m n)) [
    | inr other ↦ ground (arith, contains-kept guid l n)
    | inl equal ↦
        rw (ap (owns fwd guid) (sym ((same_iff m n).0 equal)))
          (ground (arith, contains-kept guid l n, ap (owns fwd guid) ((same_iff m n).0 equal)))
  ]

  -- Where nothing is dropped everything is kept.
  kept-eq_of_none_dropped :
      (guid : String) (l : List IdentityMapping) → dropped fwd guid l ≡ [] → kept fwd guid l ≡ l
  unfolding kept dropped
  kept-eq_of_none_dropped guid [] h = refl
  kept-eq_of_none_dropped guid (m ∷ l) h = ground (arith, kept-eq_of_none_dropped guid l)

  elem-changes-absent :
      (guid : String) (l : List (String × Bytes (List IdentityMapping)))
      → elem guid (keys l) ≡ false
      → elem guid (keys (changes fwd l)) ≡ false
  unfolding changes
  elem-changes-absent guid [] h = refl
  elem-changes-absent guid ((g, garbage) ∷ l) h = ground (arith, elem-changes-absent guid l)
  elem-changes-absent guid ((g, json ms) ∷ l) h = ground (arith, elem-changes-absent guid l)

  changes-IsDistinct :
      (l : List (String × Bytes (List IdentityMapping)))
      → IsDistinct (keys l)
      → IsDistinct (keys (changes fwd l))
  unfolding changes
  changes-IsDistinct [] d = tt
  changes-IsDistinct ((g, garbage) ∷ l) d = changes-IsDistinct l d.1
  changes-IsDistinct ((g, json ms) ∷ l) d =
      ground (arith, changes-IsDistinct l d.1, elem-changes-absent g l)

  after-changes :
      (guid : String) (l : List (String × Bytes (List IdentityMapping)))
      → IsDistinct (keys l)
      → after (lookup guid (changes fwd l)) (listed (lookup guid l))
        ≡ kept fwd guid (listed (lookup guid l))
  unfolding changes kept
  after-changes guid [] d = refl
  after-changes guid ((g, garbage) ∷ l) d = ground (
    arith,
    after-changes guid l d.1,
    lookup-absent guid (changes fwd l),
    elem-changes-absent guid l,
    eq_iff g guid,
  )
  after-changes guid ((g, json ms) ∷ l) d = elim (Bool-cases (g == guid)) [
    | inr other ↦ ground (arith, after-changes guid l d.1)
    | inl here ↦
        let e : g ≡ guid = (eq_iff g guid).0 here in
        ground (
          arith,
          lookup-absent g (changes fwd l),
          elem-changes-absent g l,
          kept-eq_of_none_dropped g ms,
          eq_refl g,
          e,
        )
  ]

  AllAccepted-changes :
      (l : List (String × Bytes (List IdentityMapping)))
      → ((k : String) → elem k (keys l) ≡ true → bolt.refuses k ≡ false)
      → AllAccepted (keys (changes fwd l))
  unfolding changes AllAccepted
  AllAccepted-changes [] h = tt
  AllAccepted-changes ((g, garbage) ∷ l) h =
      AllAccepted-changes l (λ k e. h k (ground (arith, eq_iff g k)))
  AllAccepted-changes ((g, json ms) ∷ l) h =
      let rest = AllAccepted-changes l (λ k e. h k (ground (arith, eq_iff g k))) in
      ground (arith, rest, h g, eq_refl g)

owner_of_owns :
    ⦃bolt : Bbolt⦄ (fwd : bolt.Bucket String) (guid : String) (n : IdentityMapping)
    → owns fwd guid n ≡ true
    → bolt.get fwd (mapping_key n) ≡ some guid
owner_of_owns ⦃bolt⦄ fwd guid n h = elim (Option-cases (bolt.get fwd (mapping_key n))) [
  | inl missing ↦ cc
  | inr (g, found) ↦ ground (arith, eq_iff g guid)
]

module _ ⦃bolt : Bbolt⦄ (s : BoltStore) where
  accepted_of_listed :
      (k : String)
      → elem k (keys (bolt.entries s.idx_mappings_by_guid)) ≡ true
      → bolt.refuses k ≡ false
  accepted_of_listed k h =
      let (d, found) = lookup_of_elem k (bolt.entries s.idx_mappings_by_guid) h in
      accepted_of_stored s.idx_mappings_by_guid k
        (sym (bolt.lookup-entries s.idx_mappings_by_guid k) ∙ found)

  -- The repair succeeds, leaves the forward bucket alone, and leaves each GUID with exactly the
  -- mappings that it listed and owns.
  pub repair_mapping_index_lem :
      ((repair_mapping_index false s).0 ≡ ok tt)
      × ((repair_mapping_index false s).1.identity_mappings ≡ s.identity_mappings)
      × ((guid : String) (n : IdentityMapping)
          → holds (repair_mapping_index false s).1.idx_mappings_by_guid guid n
            ≡ (owns s.identity_mappings guid n && holds s.idx_mappings_by_guid guid n))
  unfolding repair_mapping_index holds
  repair_mapping_index_lem =
      let idx = s.idx_mappings_by_guid in
      let fwd = s.identity_mappings in
      let l = bolt.entries idx in
      let d = bolt.entries-IsDistinct idx in
      let (idx', done, at) =
        write_changes_lem (changes fwd l) idx (changes-IsDistinct fwd l d)
          (AllAccepted-changes fwd l accepted_of_listed) in
      (
        rw done,
        rw done,
        λ guid n.
            rw (done, at guid, ← bolt.lookup-entries idx guid, after-changes fwd guid l d)
              (contains-kept fwd guid (listed (lookup guid l)) n),
      )

  -- After a repair every index entry is backed by the forward bucket, whatever was there before.
  pub repair_mapping_index-IsBacked : IsBacked (repair_mapping_index false s).1
  repair_mapping_index-IsBacked guid n held =
      let (done, same_forward, at) = repair_mapping_index_lem in
      rw same_forward (owner_of_owns s.identity_mappings guid n (ground (arith, at guid n)))
