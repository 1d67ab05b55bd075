-- ===== src/Store/Mappings/Delete.antt =====
-- DeleteIdentityMapping keeps the two buckets consistent, and the lookups after the writers.
use simple_auth.Prelude.{
  String, ◌≡◌, sym, ◌∙◌, ap, subst, true, false, not, ◌&&◌, ◌⊎◌, none, some, if◌then◌else◌, ◌==◌,
  arith, eq_iff, eq_refl, Bool-cases, Option-cases, inl, inr,
}
use simple_auth.Outcome.{Result-cases}
use simple_auth.Bolt.{Bbolt}
use simple_auth.Store.Types.{IdentityMapping}
use simple_auth.Store.State.{BoltStore}
use simple_auth.Store.Mappings.{
  mapping_key, same, remove_mapping_from_index, delete_identity_mapping,
}
use simple_auth.Store.Mappings.Index.{holds, holds-remove, same_iff}
use simple_auth.Store.Mappings.Backed.{mapping, IsBacked, IsIndexed, IsUnaliased}

module _ ⦃bolt : Bbolt⦄ where
  -- What a DeleteIdentityMapping that found the owner `guid` did.
  record Removed (m : IdentityMapping) (guid : String) (s s' : BoltStore) : Type 0 where
    owner : bolt.get s.identity_mappings (mapping_key m) ≡ some guid
    forward :
        (key : String)
        → bolt.get s'.identity_mappings key
          ≡ (if mapping_key m == key then none else bolt.get s.identity_mappings key)
    index :
        (h : String) (n : IdentityMapping)
        → holds s'.idx_mappings_by_guid h n
          ≡ (not (guid == h && same m n) && holds s.idx_mappings_by_guid h n)

  module _ (provider external_id : String) (s : BoltStore) where
    delete_outcome :
        ((guid : String) × Removed
            (mapping provider external_id)
            guid
            s
            (delete_identity_mapping provider external_id s).1)
        ⊎ ((delete_identity_mapping provider external_id s).1 ≡ s)
    unfolding delete_identity_mapping
    delete_outcome = elim (Option-cases (bolt.get s.identity_mappings (mapping_key m))) [
      | inl missing ↦ inr (rw missing)
      | inr (guid, found) ↦
          elim (Result-cases (remove_mapping_from_index guid m s.idx_mappings_by_guid)) [
            | inr (e, r) ↦ inr (rw (found, r))
            | inl (idx, r) ↦ inl (
              guid,
              rw (found, r)
                  (record {
                    owner = found;
                    forward = λ key. bolt.get-delete s.identity_mappings (mapping_key m) key;
                    index = λ h n. holds-remove guid m s.idx_mappings_by_guid h n r;
                  }),
            )
          ]
    ]
      where
        m : IdentityMapping
        m = mapping provider external_id

    Removed-IsBacked :
        {guid : String} {s' : BoltStore}
        → IsBacked s
        → IsUnaliased (mapping provider external_id) s
        → Removed (mapping provider external_id) guid s s'
        → IsBacked s'
    Removed-IsBacked {guid} {s'} backed unaliased r h n held =
        let before : holds s.idx_mappings_by_guid h n ≡ true = ground (arith, r.index h n) in
        elim (Bool-cases (mapping_key m == mapping_key n)) [
          | inr other ↦ ground (arith, r.forward (mapping_key n), backed h n before)
          | inl shared ↦
              let e : mapping_key m ≡ mapping_key n =
                (eq_iff (mapping_key m) (mapping_key n)).0 shared in
              let same_owner : some guid ≡ some h =
                sym r.owner ∙ ap (bolt.get s.identity_mappings) e ∙ backed h n before in
              absurd (
                ground (
                  arith,
                  r.index h n,
                  (same_iff m n).1 (sym (unaliased h n before (sym e))),
                  same_owner,
                  eq_iff guid h,
                  eq_refl h,
                ))
        ]
      where
        m : IdentityMapping
        m = mapping provider external_id

    Removed-IsIndexed :
        {guid : String} {s' : BoltStore}
        → IsIndexed s
        → Removed (mapping provider external_id) guid s s'
        → IsIndexed s'
    Removed-IsIndexed {guid} {s'} indexed r key g found =
        let other : (mapping_key m == key) ≡ false = ground (arith, r.forward key) in
        let (n, e, held) = indexed key g (ground (arith, r.forward key)) in
        let differ : same m n ≡ false =
          ground
            (arith, same_iff m n, λ (p : m ≡ n). ap mapping_key p, eq_iff (mapping_key m) key) in
        (n, e, ground (arith, r.index g n))
      where
        m : IdentityMapping
        m = mapping provider external_id

    -- DeleteIdentityMapping keeps index entries backed, if no indexed mapping shares the composite key
    -- of the mapping that is deleted, and keeps forward entries indexed.
    pub delete_identity_mapping-consistent :
        IsBacked s
        → IsUnaliased (mapping provider external_id) s
        → IsIndexed s
        → IsBacked (delete_identity_mapping provider external_id s).1
          × IsIndexed (delete_identity_mapping provider external_id s).1
    delete_identity_mapping-consistent backed unaliased indexed = elim delete_outcome [
      | inl (guid, r) ↦ (Removed-IsBacked backed unaliased r, Removed-IsIndexed indexed r)
      | inr e ↦ (subst IsBacked (sym e) backed, subst IsIndexed (sym e) indexed)
    ]
