-- ===== src/Store/Mappings/Backed.antt =====
-- SetIdentityMapping and DeleteIdentityMapping keep the two buckets consistent.
use simple_auth.Prelude.{
  String, ◌≡◌, ◌≢◌, refl, sym, ◌∙◌, ap, subst, true, false, not, ◌&&◌, ◌||◌, ◌⊎◌, some,
  if◌then◌else◌, ◌==◌, arith, eq_iff, eq_refl, Bool-cases, inl, inr,
}
use simple_auth.Outcome.{Result-cases, ok}
use simple_auth.Bolt.{Bbolt, put_raw}
use simple_auth.Bolt.Laws.{get-put_raw}
use simple_auth.Store.Types.{IdentityMapping}
use simple_auth.Store.State.{BoltStore}
use simple_auth.Store.Mappings.{
  mapping_key, same, owner_or_blank, retract, add_mapping_to_index, set_identity_mapping,
}
use simple_auth.Store.Mappings.Index.{holds, holds-add, holds-retract, same_iff}

abbrev pub mapping : String → String → IdentityMapping
mapping provider external_id = record { provider = provider; external_id = external_id }

module _ ⦃bolt : Bbolt⦄ where
  -- Every mapping that the index lists under a GUID is one whose forward entry names that GUID.
  abbrev pub IsBacked : BoltStore → Type 0
  IsBacked s =
      (guid : String) (n : IdentityMapping)
      → holds s.idx_mappings_by_guid guid n ≡ true
      → bolt.get s.identity_mappings (mapping_key n) ≡ some guid

  -- Every forward entry is listed in the index of its owner.
  abbrev pub IsIndexed : BoltStore → Type 0
  IsIndexed s =
      (key guid : String)
      → bolt.get s.identity_mappings key ≡ some guid
      → (n : IdentityMapping) × (mapping_key n ≡ key) × (holds s.idx_mappings_by_guid guid n ≡ true)

  -- No other mapping of the index has the same composite key.
  abbrev pub IsUnaliased : IdentityMapping → BoltStore → Type 0
  IsUnaliased m s =
      (guid : String) (n : IdentityMapping)
      → holds s.idx_mappings_by_guid guid n ≡ true
      → mapping_key n ≡ mapping_key m
      → n ≡ m

  -- What a successful SetIdentityMapping did.
  pub record Repointed (m : IdentityMapping) (guid : String) (s s' : BoltStore) : Type 0 where
    pub forward :
        (key : String)
        → bolt.get s'.identity_mappings key
          ≡ (if mapping_key m == key then some guid else bolt.get s.identity_mappings key)
    pub index :
        (h : String) (n : IdentityMapping)
        → holds s'.idx_mappings_by_guid h n ≡ (
            (guid == h && same m n)
            || (not (
                  owner_or_blank (bolt.get s.identity_mappings (mapping_key m)) == h
                  && (not (owner_or_blank (bolt.get s.identity_mappings (mapping_key m)) == guid)
                      && same m n))
                && holds s.idx_mappings_by_guid h n))

  module _ (provider external_id guid : String) (s : BoltStore) where
    -- It succeeds with these effects, or it changes nothing.
    pub set_outcome :
        (Repointed
          (mapping provider external_id)
          guid
          s
          (set_identity_mapping provider external_id guid s).1)
        ⊎ (((set_identity_mapping provider external_id guid s).1 ≡ s)
            × ((set_identity_mapping provider external_id guid s).0 ≢ ok tt))
    unfolding set_identity_mapping
    set_outcome = elim (Result-cases (put_raw s.identity_mappings (mapping_key m) guid)) [
      | inr (e, f) ↦ inr (rw f, rw f (λ x. cc))
      | inl (fwd, f) ↦ elim (Result-cases (retract prev guid m s.idx_mappings_by_guid)) [
        | inr (e, r) ↦ inr (rw (f, r), rw (f, r) (λ x. cc))
        | inl (idx, r) ↦ elim (Result-cases (add_mapping_to_index guid m idx)) [
          | inr (e, a) ↦ inr (rw (f, r, a), rw (f, r, a) (λ x. cc))
          | inl (idx', a) ↦ inl (
              rw (f, r, a)
                (record {
                  forward = λ key. get-put_raw s.identity_mappings (mapping_key m) guid key f;
                  index = λ h n.
                      holds-add guid m idx h n a
                      ∙ ap (λ b. (guid == h && same m n) || b)
                          (holds-retract prev guid m s.idx_mappings_by_guid h n r);
                }))
        ]
      ]
    ]
      where
        m : IdentityMapping
        m = mapping provider external_id

        prev : String
        prev = owner_or_blank (bolt.get s.identity_mappings (mapping_key m))

    -- A mapping that the new owner did not just get was there before, and was not retracted.
    Repointed-IsBacked :
        {s' : BoltStore}
        → IsBacked s
        → IsUnaliased (mapping provider external_id) s
        → Repointed (mapping provider external_id) guid s s'
        → IsBacked s'
    Repointed-IsBacked {s'} backed unaliased r h n held =
        elim (Bool-cases (holds s.idx_mappings_by_guid h n)) [
          | inr new ↦ ground (
            arith,
            r.forward (mapping_key n),
            r.index h n,
            same_iff (mapping provider external_id) n,
            eq_iff guid h,
            eq_refl (mapping_key n),
          )
          | inl before ↦ elim (Bool-cases (mapping_key m == mapping_key n)) [
            | inr other ↦ ground (arith, r.forward (mapping_key n), backed h n before)
            | inl shared ↦
                let e : mapping_key m ≡ mapping_key n =
                  (eq_iff (mapping_key m) (mapping_key n)).0 shared in
                let prev : owner_or_blank (bolt.get s.identity_mappings (mapping_key m)) ≡ h =
                  ap owner_or_blank (ap (bolt.get s.identity_mappings) e ∙ backed h n before) in
                ground (
                  arith,
                  r.forward (mapping_key n),
                  r.index h n,
                  (same_iff m n).1 (sym (unaliased h n before (sym e))),
                  prev,
                  eq_iff guid h,
                  eq_iff h guid,
                  eq_refl h,
                )
          ]
        ]
      where
        m : IdentityMapping
        m = mapping provider external_id

    -- SetIdentityMapping leaves every index entry backed by the forward bucket, if no indexed mapping
    -- shares the composite key of the mapping that is set.
    pub set_identity_mapping-IsBacked :
        IsBacked s
        → IsUnaliased (mapping provider external_id) s
        → IsBacked (set_identity_mapping provider external_id guid s).1
    set_identity_mapping-IsBacked backed unaliased = elim set_outcome [
      | inl r ↦ Repointed-IsBacked backed unaliased r
      | inr (unchanged, _) ↦ subst IsBacked (sym unchanged) backed
    ]

    Repointed-IsIndexed :
        {s' : BoltStore}
        → IsIndexed s
        → Repointed (mapping provider external_id) guid s s'
        → IsIndexed s'
    Repointed-IsIndexed {s'} indexed r key g found = elim (Bool-cases (mapping_key m == key)) [
      | inl here ↦ (
        m,
        (eq_iff (mapping_key m) key).0 here,
        ground
            (arith, r.forward key, r.index g m, same_iff m m, eq_iff guid g, (same_iff m m).1 refl),
      )
      | inr other ↦
          let (n, e, held) = indexed key g (ground (arith, r.forward key)) in
          let differ : same m n ≡ false =
            ground
              (arith, same_iff m n, λ (p : m ≡ n). ap mapping_key p, eq_iff (mapping_key m) key) in
          (n, e, ground (arith, r.index g n))
    ]
      where
        m : IdentityMapping
        m = mapping provider external_id

    -- SetIdentityMapping leaves every forward entry listed in the index of its owner.
    pub set_identity_mapping-IsIndexed :
        IsIndexed s → IsIndexed (set_identity_mapping provider external_id guid s).1
    set_identity_mapping-IsIndexed indexed = elim set_outcome [
      | inl r ↦ Repointed-IsIndexed indexed r
      | inr (unchanged, _) ↦ subst IsIndexed (sym unchanged) indexed
    ]
