-- ===== src/Store/Mappings/Index.antt =====
-- What the reverse index holds after each of its operations.
use simple_auth.Prelude.{
  String, ◌≡◌, refl, ap₂, Bool, true, false, not, ◌&&◌, ◌||◌, ◌↔◌, some, List, [], ◌∷◌, ◌++◌,
  if◌then◌else◌, ◌==◌, arith, eq_iff, Bool-cases, Option-cases, inl, inr,
}
use simple_auth.Outcome.{ok, ok-injective}
use simple_auth.Bolt.{Bbolt, json}
use simple_auth.Bolt.Laws.{get-put_raw}
use simple_auth.Store.Types.{IdentityMapping}
use simple_auth.Store.Mappings.{
  same, contains, filtered, listed, IndexBucket, add_mapping_to_index, remove_mapping_from_index,
  keep_filtered, retract,
}

pub same_iff : (m n : IdentityMapping) → (same m n ≡ true) ↔ (m ≡ n)
same_iff m n = (
  λ h.
      let p : m.provider ≡ n.provider = ground (arith, eq_iff m.provider n.provider) in
      let q : m.external_id ≡ n.external_id = ground (arith, eq_iff m.external_id n.external_id) in
      ap₂ (λ a b. record { provider = a; external_id = b }) p q,
  λ h. ground (arith, eq_iff m.provider n.provider, eq_iff m.external_id n.external_id),
)

contains-append_one :
    (l : List IdentityMapping) (m n : IdentityMapping)
    → contains (l ++ m ∷ []) n ≡ (same m n || contains l n)
contains-append_one [] m n = refl
contains-append_one (k ∷ l) m n = ground (arith, contains-append_one l m n)

contains-filtered :
    (l : List IdentityMapping) (m n : IdentityMapping)
    → contains (filtered l m) n ≡ (not (same m n) && contains l n)
contains-filtered [] m n = ground arith
contains-filtered (k ∷ l) m n =
    ground (arith, contains-filtered l m n, same_iff k m, same_iff k n, same_iff m n)

module _ ⦃bolt : Bbolt⦄ where
  -- Does the index list the mapping under the GUID?
  unfoldable pub holds : IndexBucket → String → IdentityMapping → Bool
  holds idx guid n = contains (listed (bolt.get idx guid)) n

  pub holds-blank : (idx : IndexBucket) (n : IdentityMapping) → holds idx "" n ≡ false
  unfolding holds
  holds-blank idx n = rw (bolt.get-refused idx "" bolt.refuses_blank)

  pub holds-add :
      (guid : String) (m : IdentityMapping) (idx : IndexBucket) (h : String) (n : IdentityMapping)
      {idx' : IndexBucket}
      → add_mapping_to_index guid m idx ≡ ok idx'
      → holds idx' h n ≡ ((guid == h && same m n) || holds idx h n)
  unfolding holds add_mapping_to_index
  holds-add guid m idx h n e = elim (Bool-cases (contains (listed (bolt.get idx guid)) m)) [
    | inl old ↦
        let e' : idx ≡ _ = ok-injective (rw old at e) in
        rw (← e') (ground (arith, same_iff m n, eq_iff guid h))
    | inr new ↦
        let e' = rw new at e in
        rw (get-put_raw idx guid (json (listed (bolt.get idx guid) ++ m ∷ [])) h e')
          (ground (arith, eq_iff guid h, contains-append_one (listed (bolt.get idx guid)) m n))
  ]

  holds-keep_filtered :
      (guid : String) (idx : IndexBucket) (l : List IdentityMapping) (h : String)
      (n : IdentityMapping) {idx' : IndexBucket}
      → keep_filtered guid idx l ≡ ok idx'
      → holds idx' h n ≡ (if guid == h then contains l n else holds idx h n)
  unfolding holds
  holds-keep_filtered guid idx [] h n e =
      rw (← ok-injective e, bolt.get-delete idx guid h) (ground arith)
  holds-keep_filtered guid idx (m ∷ l) h n e =
      rw (get-put_raw idx guid (json (m ∷ l)) h e) (ground arith)

  pub holds-remove :
      (guid : String) (m : IdentityMapping) (idx : IndexBucket) (h : String) (n : IdentityMapping)
      {idx' : IndexBucket}
      → remove_mapping_from_index guid m idx ≡ ok idx'
      → holds idx' h n ≡ (not (guid == h && same m n) && holds idx h n)
  unfolding remove_mapping_from_index holds
  holds-remove guid m idx h n {idx'} e = elim (Option-cases (bolt.get idx guid)) [
    | inl missing ↦ let e' : idx ≡ idx' = ground arith in rw (← e') (ground (arith, eq_iff guid h))
    | inr (d, found) ↦
        let e' : keep_filtered guid idx (filtered (listed (some d)) m) ≡ ok idx' = ground arith in
        rw (holds-keep_filtered guid idx (filtered (listed (some d)) m) h n e')
          (ground (arith, eq_iff guid h, contains-filtered (listed (some d)) m n))
  ]

  -- The previous owner, if any, loses the mapping; nothing else is lost.
  pub holds-retract :
      (prev guid : String) (m : IdentityMapping) (idx : IndexBucket) (h : String)
      (n : IdentityMapping) {idx' : IndexBucket}
      → retract prev guid m idx ≡ ok idx'
      → holds idx' h n ≡ (not (prev == h && (not (prev == guid) && same m n)) && holds idx h n)
  holds-retract prev guid m idx h n {idx'} e = ground (
    arith,
    holds-remove prev m idx h n {idx' = idx'},
    holds-blank idx n,
    eq_iff prev "",
    eq_iff prev h,
  )
