-- ===== src/Store/Mappings/Listing.antt =====
-- internal/store/bolt.go: ListAllMappings against ResolveMapping.
use Prim.Native.Char.{char, code}
use text.Mathlib.TextEquality.{Char-path}
use text.Mathlib.TextLemmas.{nil-append, cons-append}
use simple_auth.Prelude.{
  String, ◌^^◌, ◌≡◌, refl, sym, ◌∙◌, ap, subst, false, some, List, [], ◌∷◌, elem, keys, lookup,
  lookup-absent, eqb, arith, eq_iff, IsDistinct, Bool-cases, Option-cases, ◌⊎◌, inl, inr,
}
use simple_auth.Outcome.{ok, ok-injective}
use simple_auth.Bolt.{Bbolt, Bytes}
use simple_auth.Store.Types.{IdentityMapping, IdentityMappingEntry}
use simple_auth.Store.State.{BoltStore}
use simple_auth.Store.Mappings.{
  mapping_key, listed, record_all, splits_from, split_at_colon, split_mapping_key, list_from,
  list_all_mappings, resolve_mapping, entry_if, owner_or_error,
}

-- Every recorded pair is a mapping under its own key.
abbrev AreKeyed : List (String × IdentityMapping) → Type 0
AreKeyed [] = Unit
AreKeyed ((k, m) ∷ l) = (mapping_key m ≡ k) × AreKeyed l

record_all-AreKeyed :
    (l : List IdentityMapping) (out : List (String × IdentityMapping))
    → AreKeyed out
    → AreKeyed (record_all l out)
unfolding record_all
record_all-AreKeyed [] out h = h
record_all-AreKeyed (m ∷ l) out h = record_all-AreKeyed l ((mapping_key m, m) ∷ out) (refl, h)

splits_from-AreKeyed :
    (l : List (String × Bytes (List IdentityMapping))) (out : List (String × IdentityMapping))
    → AreKeyed out
    → AreKeyed (splits_from l out)
unfolding splits_from
splits_from-AreKeyed [] out h = h
splits_from-AreKeyed ((g, d) ∷ l) out h =
    splits_from-AreKeyed l (record_all (listed (some d)) out)
      (record_all-AreKeyed (listed (some d)) out h)

mapping_key-lookup :
    (known : List (String × IdentityMapping)) (k : String) (m : IdentityMapping)
    → AreKeyed known
    → lookup k known ≡ some m
    → mapping_key m ≡ k
mapping_key-lookup [] k m h e = cc
mapping_key-lookup ((j, n) ∷ l) k m h e =
    ground (arith, mapping_key-lookup l k m, eq_iff j k, λ (p : n ≡ m). ap mapping_key p)

-- The two halves around the first ':' make up the key again.
split_at_colon_joined : (k a b : String) → split_at_colon k ≡ some (a, b) → a ^^ (":" ^^ b) ≡ k
unfolding split_at_colon
split_at_colon_joined String.[] a b h = cc
split_at_colon_joined (String.◌∷◌ c s) a b h = elim (Bool-cases (eqb (code c) b':')) [
  | inl colon ↦
      let p : a ≡ "" = ground arith in
      let q : b ≡ s = ground arith in
      let here : ":" ≡ String.◌∷◌ c "" =
        ap (λ d. String.◌∷◌ d "") (Char-path (char 58 tt) c (ground arith)) in
      rw (p, q, nil-append, here, cons-append, nil-append)
  | inr other ↦ elim (Option-cases (split_at_colon s)) [
    | inl missing ↦ absurd (ground arith)
    | inr ((a', b'), found) ↦
        let p : a ≡ String.◌∷◌ c a' = ground arith in
        let q : b ≡ b' = ground arith in
        rw (p, q, cons-append) (ap (String.◌∷◌ c) (split_at_colon_joined s a' b' found))
  ]
]

-- Whatever the recorded halves, the parts of a split key make up the key.
mapping_key-split :
    (known : List (String × IdentityMapping)) (k : String) (m : IdentityMapping)
    → AreKeyed known
    → split_mapping_key k known ≡ some m
    → mapping_key m ≡ k
unfolding split_mapping_key
mapping_key-split known k m h e = elim (Option-cases (lookup k known)) [
  | inr (n, found) ↦
      let e' : n ≡ m = ground arith in
      ap mapping_key (sym e') ∙ mapping_key-lookup known k n h found
  | inl missing ↦ elim (Option-cases (split_at_colon k)) [
    | inl none_there ↦ absurd (ground arith)
    | inr ((a, b), found) ↦
        let q : m ≡ record { provider = a; external_id = b } = ground arith in
        ap mapping_key q ∙ unfold mapping_key in split_at_colon_joined k a b found
  ]
]

unfoldable pub IsEntry : IdentityMappingEntry → List IdentityMappingEntry → Type 0
IsEntry e [] = ⊥
IsEntry e (x ∷ l) = (x ≡ e) ⊎ IsEntry e l

abbrev halves : IdentityMappingEntry → IdentityMapping
halves e = record { provider = e.provider; external_id = e.external_id }

lookup-later :
    (key guid : String) (l : List (String × String)) (k owner : String)
    → elem key (keys l) ≡ false
    → lookup k l ≡ some owner
    → lookup k ((key, guid) ∷ l) ≡ some owner
lookup-later key guid l k owner h e = ground (arith, lookup-absent key l, eq_iff key k)

IsEntry-cases :
    (known : List (String × IdentityMapping)) (guid : String) (l : List (String × String))
    (e : IdentityMappingEntry) (m : IdentityMapping)
    → IsEntry e (entry_if guid (some m) (list_from known l))
    → (record { provider = m.provider; external_id = m.external_id; user_guid = guid } ≡ e)
      ⊎ IsEntry e (list_from known l)
unfolding IsEntry
IsEntry-cases known guid l e m i = i

list_from-owner :
    (known : List (String × IdentityMapping)) (l : List (String × String))
    (e : IdentityMappingEntry)
    → AreKeyed known
    → IsDistinct (keys l)
    → IsEntry e (list_from known l)
    → lookup (mapping_key (halves e)) l ≡ some e.user_guid
unfolding IsEntry list_from
list_from-owner known [] e h d i = absurd i
list_from-owner known ((key, guid) ∷ l) e h d i =
    elim (Option-cases (split_mapping_key key known)) [
      | inl missing ↦
          let rest : IsEntry e (list_from known l) =
            subst (λ o. IsEntry e (entry_if guid o (list_from known l))) missing i in
          lookup-later key guid l (mapping_key (halves e)) e.user_guid d.0
            (list_from-owner known l e h d.1 rest)
      | inr (m, found) ↦
          elim (IsEntry-cases known guid l e m
            (subst (λ o. IsEntry e (entry_if guid o (list_from known l))) found i)) [
              | inl p ↦
                  let q : mapping_key (halves e) ≡ key =
                    ap (λ x. mapping_key (halves x)) (sym p)
                    ∙ mapping_key-split known key m h found in
                  ground (
                    arith,
                    q,
                    eq_iff key (mapping_key (halves e)),
                    ap (λ (x : IdentityMappingEntry). x.user_guid) p,
                  )
              | inr rest ↦
                  lookup-later key guid l (mapping_key (halves e)) e.user_guid d.0
                    (list_from-owner known l e h d.1 rest)
            ]
    ]

list_all_mappings_lem :
    ⦃bolt : Bbolt⦄ (s : BoltStore)
    → (l : List IdentityMappingEntry) × (list_all_mappings s ≡ ok l)
      × ((e : IdentityMappingEntry)
          → IsEntry e l
          → resolve_mapping e.provider e.external_id s ≡ ok e.user_guid)
unfolding list_all_mappings resolve_mapping
list_all_mappings_lem ⦃bolt⦄ s =
    let known = splits_from (bolt.entries s.idx_mappings_by_guid) [] in
    (
      list_from known (bolt.entries s.identity_mappings),
      refl,
      λ e i. ap (owner_or_error e.provider e.external_id) (
          sym (bolt.lookup-entries s.identity_mappings (mapping_key (halves e)))
          ∙ list_from-owner known (bolt.entries s.identity_mappings) e
              (splits_from-AreKeyed (bolt.entries s.idx_mappings_by_guid) [] tt)
              (bolt.entries-IsDistinct s.identity_mappings) i),
    )

-- ResolveMapping finds the owner of each entry that ListAllMappings lists, under the provider and the
-- external id of the entry.
pub list_all_mappings-resolve :
    ⦃bolt : Bbolt⦄ (s : BoltStore) (l : List IdentityMappingEntry) (e : IdentityMappingEntry)
    → list_all_mappings s ≡ ok l
    → IsEntry e l
    → resolve_mapping e.provider e.external_id s ≡ ok e.user_guid
list_all_mappings-resolve s l e listing entry =
    let (k, same, owners) = list_all_mappings_lem s in
    let lists : k ≡ l = ok-injective (sym same ∙ listing) in
    owners e (subst (IsEntry e) (sym lists) entry)
