-- ===== src/Store/Mappings.antt =====
-- internal/store/bolt.go, "Identity Mappings": the forward bucket, from a key "provider:externalID" to
-- the GUID of its owner, and the reverse index, from a GUID to the mappings that it owns.
pub mod Index
pub mod Backed
pub mod Delete
pub mod Repair
pub mod Listing
pub mod Alias
use Prim.Native.Char.{Char, code}
use simple_auth.Prelude.{
  ℕ, String, ◌^^◌, Bool, true, false, not, ◌&&◌, ◌||◌, Option, none, some, List, [], ◌∷◌, ◌++◌,
  lookup, eqb, if◌then◌else◌, ◌==◌,
}
use simple_auth.Outcome.{Error, Result, ok, err, mapping_not_found, ◌>>=◌}
use simple_auth.Bolt.{Bbolt, Bucket, Bytes, json, garbage, decode, put_raw, put}
use simple_auth.Store.Types.{IdentityMapping, IdentityMappingEntry}
use simple_auth.Store.State.{BoltStore, Tx, Method, update}

unfoldable pub mapping_key : IdentityMapping → String
mapping_key m = m.provider ^^ (":" ^^ m.external_id)

-- The test of the loops: equal providers and equal external ids.
abbrev pub same : IdentityMapping → IdentityMapping → Bool
same m n = m.provider == n.provider && m.external_id == n.external_id

abbrev pub contains : List IdentityMapping → IdentityMapping → Bool
contains [] m = false
contains (n ∷ l) m = same n m || contains l m

-- The list without one mapping, `filtered`.
abbrev pub filtered : List IdentityMapping → IdentityMapping → List IdentityMapping
filtered [] m = []
filtered (n ∷ l) m = let rest = filtered l m in if same n m then rest else n ∷ rest

-- `var mappings []IdentityMapping`, then an Unmarshal whose error is dropped.
abbrev pub listed : Option (Bytes (List IdentityMapping)) → List IdentityMapping
listed none = []
listed (some (json l)) = l
listed (some garbage) = []

-- The owner of a forward entry; "" where there is none.
abbrev pub owner_or_blank : Option String → String
owner_or_blank none = ""
owner_or_blank (some guid) = guid

abbrev pub owner_or_error : String → String → Option String → Result String
owner_or_error provider external_id none = err (mapping_not_found provider external_id)
owner_or_error provider external_id (some guid) = ok guid

abbrev pub IndexBucket : ⦃bolt : Bbolt⦄ → Type 0
IndexBucket = Bucket (List IdentityMapping)

module _ ⦃bolt : Bbolt⦄ where
  unfoldable pub add_mapping_to_index : String → IdentityMapping → IndexBucket → Result IndexBucket
  add_mapping_to_index guid m idx =
      let mappings = listed (bolt.get idx guid) in
      if contains mappings m then ok idx else put idx guid (mappings ++ m ∷ [])

  abbrev pub keep_filtered : String → IndexBucket → List IdentityMapping → Result IndexBucket
  keep_filtered guid idx [] = ok (bolt.delete idx guid)
  keep_filtered guid idx (n ∷ l) = put idx guid (n ∷ l)

  unfoldable pub remove_mapping_from_index :
      String → IdentityMapping → IndexBucket → Result IndexBucket
  remove_mapping_from_index guid m idx = elim (bolt.get idx guid) [
    | none ↦ ok idx
    | some d ↦ keep_filtered guid idx (filtered (listed (some d)) m)
  ]

  -- The previous owner loses the mapping, unless there is none or it is the new owner.
  abbrev pub retract : String → String → IdentityMapping → IndexBucket → Result IndexBucket
  retract prev guid m idx =
      if not (prev == "") && not (prev == guid)
      then remove_mapping_from_index prev m idx
      else ok idx

  unfoldable pub set_identity_mapping : String → String → String → Method (Unit {0})
  set_identity_mapping provider external_id guid =
      let m : IdentityMapping = record { provider = provider; external_id = external_id } in
      update λ s. do
        let prev = owner_or_blank (bolt.get s.identity_mappings (mapping_key m))
        fwd ← put_raw s.identity_mappings (mapping_key m) guid
        idx ← retract prev guid m s.idx_mappings_by_guid
        idx ← add_mapping_to_index guid m idx
        ok (tt, record s { identity_mappings = fwd; idx_mappings_by_guid = idx })

  unfoldable pub resolve_mapping : String → String → BoltStore → Result String
  resolve_mapping provider external_id s = owner_or_error provider external_id (
      bolt.get s.identity_mappings
        (mapping_key (record { provider = provider; external_id = external_id })))

  unfoldable pub delete_identity_mapping : String → String → Method (Unit {0})
  delete_identity_mapping provider external_id =
      let m : IdentityMapping = record { provider = provider; external_id = external_id } in
      update λ s. elim (bolt.get s.identity_mappings (mapping_key m)) [
        | none ↦ ok (tt, s)
        | some guid ↦ do
          let fwd = bolt.delete s.identity_mappings (mapping_key m)
          idx ← remove_mapping_from_index guid m s.idx_mappings_by_guid
          ok (tt, record s { identity_mappings = fwd; idx_mappings_by_guid = idx })
      ]

  unfoldable pub get_mappings_for_user : String → BoltStore → Result (List IdentityMapping)
  get_mappings_for_user guid s = elim (bolt.get s.idx_mappings_by_guid guid) [
    | none ↦ ok []
    | some d ↦ decode d
  ]

-- mappingSplits: from a forward key to its two halves, as the reverse index records them. The latest
-- write to a Go map stands first.
unfoldable pub record_all :
    List IdentityMapping → List (String × IdentityMapping) → List (String × IdentityMapping)
record_all [] out = out
record_all (m ∷ l) out = record_all l ((mapping_key m, m) ∷ out)

unfoldable pub splits_from :
    List (String × Bytes (List IdentityMapping))
    → List (String × IdentityMapping)
    → List (String × IdentityMapping)
unfolding record_all
splits_from [] out = out
splits_from ((guid, d) ∷ l) out = splits_from l (record_all (listed (some d)) out)

-- The text before the first ':' and the text after it.
unfoldable pub split_at_colon : String → Option (String × String)
split_at_colon String.[] = none
split_at_colon (String.◌∷◌ c s) =
    if eqb (code c) b':'
    then some ("", s)
    else elim (split_at_colon s) [ none ↦ none | some (a, b) ↦ some (String.◌∷◌ c a, b) ]

unfoldable pub split_mapping_key : String → List (String × IdentityMapping) → Option IdentityMapping
unfolding split_at_colon
split_mapping_key key known = elim (lookup key known) [
  | some m ↦ some m
  | none ↦ elim (split_at_colon key) [
    | none ↦ none
    | some (a, b) ↦ some (record { provider = a; external_id = b })
  ]
]

abbrev pub entry_if :
    String → Option IdentityMapping → List IdentityMappingEntry → List IdentityMappingEntry
entry_if guid none rest = rest
entry_if guid (some m) rest =
    record { provider = m.provider; external_id = m.external_id; user_guid = guid } ∷ rest

-- The loop of ListAllMappings: a key that cannot be split is left out.
unfoldable pub list_from :
    List (String × IdentityMapping) → List (String × String) → List IdentityMappingEntry
unfolding split_mapping_key
list_from known [] = []
list_from known ((key, guid) ∷ l) = entry_if guid (split_mapping_key key known) (list_from known l)

module _ ⦃bolt : Bbolt⦄ where
  unfoldable pub list_all_mappings : BoltStore → Result (List IdentityMappingEntry)
  unfolding list_from splits_from
  list_all_mappings s = ok (
      list_from (splits_from (bolt.entries s.idx_mappings_by_guid) [])
        (bolt.entries s.identity_mappings))

  -- repairMappingIndex: does the forward bucket name `guid` as the owner of the mapping?
  abbrev pub owns : bolt.Bucket String → String → IdentityMapping → Bool
  owns fwd guid m = elim (bolt.get fwd (mapping_key m)) [ none ↦ false | some g ↦ g == guid ]

  unfoldable pub kept : bolt.Bucket String → String → List IdentityMapping → List IdentityMapping
  kept fwd guid [] = []
  kept fwd guid (m ∷ l) = let rest = kept fwd guid l in if owns fwd guid m then m ∷ rest else rest

  unfoldable pub dropped : bolt.Bucket String → String → List IdentityMapping → List IdentityMapping
  dropped fwd guid [] = []
  dropped fwd guid (m ∷ l) =
      let rest = dropped fwd guid l in if owns fwd guid m then rest else m ∷ rest

  abbrev pub change_if :
      List IdentityMapping
      → String × List IdentityMapping
      → List (String × List IdentityMapping)
      → List (String × List IdentityMapping)
  change_if [] c rest = rest
  change_if (m ∷ ms) c rest = c ∷ rest

  -- The users of whom some mapping is dropped, with the mappings that they keep.
  unfoldable pub changes :
      bolt.Bucket String
      → List (String × Bytes (List IdentityMapping))
      → List (String × List IdentityMapping)
  changes fwd [] = []
  changes fwd ((guid, garbage) ∷ l) = changes fwd l
  changes fwd ((guid, json ms) ∷ l) =
      change_if (dropped fwd guid ms) (guid, kept fwd guid ms) (changes fwd l)

  unfoldable pub write_changes :
      List (String × List IdentityMapping) → IndexBucket → Result IndexBucket
  write_changes [] idx = ok idx
  write_changes ((guid, []) ∷ l) idx = write_changes l (bolt.delete idx guid)
  write_changes ((guid, m ∷ ms) ∷ l) idx = put idx guid (m ∷ ms) >>= write_changes l

  -- `skip` is SA_SKIP_MAPPING_REPAIR=1: report, and write nothing.
  unfoldable pub repair_mapping_index : Bool → Method (Unit {0})
  unfolding changes write_changes
  repair_mapping_index skip = update λ s. if skip then ok (tt, s) else do
    idx ←
        write_changes (changes s.identity_mappings (bolt.entries s.idx_mappings_by_guid))
          s.idx_mappings_by_guid
    ok (tt, record s { idx_mappings_by_guid = idx })
