-- ===== src/Tests/Store.antt =====
-- Users, merges, mappings, apps, roles and the audit log on small stores.
use simple_auth.Prelude.{
  ℕ, String, ◌≡◌, ◌≢◌, refl, ap, ◌↔◌, ◌&&◌, true, false, none, [], ◌∷◌, arith, eq_iff, inl, inr,
  Bool-cases, ◌==◌,
}
use simple_auth.Outcome.{ok, err, out_of_fuel}
use simple_auth.Bolt.{put_raw}
use simple_auth.Bolt.Assoc.{assoc_bolt}
use simple_auth.Store.Types.{User, IdentityMapping, IdentityMappingEntry}
use simple_auth.Store.State.{BoltStore, init}
use simple_auth.Store.Users.{create_user, get_user, resolve_user}
use simple_auth.Store.Users.Resolve.{Chain, resolve_user-ends, resolve_user_iff}
use simple_auth.Store.Merge.{merge_users, merged_user}
use simple_auth.Store.Merge.Sources.{AllStored, resolve_user-merge_users}
use simple_auth.Store.Mappings.{
  mapping_key, owns, set_identity_mapping, add_mapping_to_index, remove_mapping_from_index,
  resolve_mapping, repair_mapping_index, list_all_mappings,
}
use simple_auth.Store.Mappings.Index.{holds, same_iff}
use simple_auth.Store.Mappings.Backed.{
  mapping, IsBacked, IsIndexed, IsUnaliased, set_identity_mapping-IsBacked,
}
use simple_auth.Store.Mappings.Repair.{repair_mapping_index_lem}
use simple_auth.Store.Mappings.Listing.{IsEntry}
use simple_auth.Store.Mappings.Alias.{set_identity_mapping-strands}

abbrev pub alice : User
alice = record {
  guid = "g1";
  password_hash = "hash";
  display_name = "Alice";
  email = "alice@example.com";
  department = "";
  company = "";
  job_title = "";
  sam_account_name = "";
  disabled = false;
  merged_into = "";
  created_at = 10;
  owner_app_id = "";
  force_password_change = false;
  password_history = [];
  failed_login_attempts = 0;
  locked_until = none;
  groups = [];
}

abbrev pub bob : User
bob = record alice { guid = "g2"; display_name = "Bob"; owner_app_id = "a" }

abbrev two_users : BoltStore
two_users = (create_user "x" 10 bob (create_user "x" 10 alice init).1).1

resolve_user-ends_example : resolve_user "g1" two_users ≢ err out_of_fuel
resolve_user-ends_example = resolve_user-ends two_users "g1"

resolve_user_iff_example :
    (resolve_user "g1" two_users ≡ ok alice)
    ↔ ((u : User) × (n : ℕ) × (get_user "g1" two_users ≡ ok u) × Chain two_users n u alice)
resolve_user_iff_example = resolve_user_iff two_users "g1" alice

refuses_n : assoc_bolt.refuses "n" ≡ false
unfolding assoc_bolt
refuses_n = refl

both_stored : AllStored "n" ("g1" ∷ "g2" ∷ []) two_users.users
unfolding create_user put_raw assoc_bolt
both_stored = (refl, (refl, tt))

resolve_user-merge_users_example :
    ((merge_users "n" 20 ("g1" ∷ "g2" ∷ []) "AB" "ab@example.com" two_users).0
      ≡ ok (merged_user "n" 20 "AB" "ab@example.com"))
    × (resolve_user "g2" (merge_users "n" 20 ("g1" ∷ "g2" ∷ []) "AB" "ab@example.com" two_users).1
        ≡ ok (merged_user "n" 20 "AB" "ab@example.com"))
resolve_user-merge_users_example =
    resolve_user-merge_users "n" 20 ("g1" ∷ "g2" ∷ []) "AB" "ab@example.com" "g2" two_users
      refuses_n refl both_stored refl

nothing-IsBacked : IsBacked init
unfolding holds assoc_bolt
nothing-IsBacked guid n h = cc

nothing-IsIndexed : IsIndexed init
unfolding assoc_bolt
nothing-IsIndexed key guid h = cc

nothing-IsUnaliased : (m : IdentityMapping) → IsUnaliased m init
unfolding holds assoc_bolt
nothing-IsUnaliased m guid n h = cc

set_identity_mapping-IsBacked_example : IsBacked (set_identity_mapping "ldap" "alice" "g1" init).1
set_identity_mapping-IsBacked_example =
    set_identity_mapping-IsBacked "ldap" "alice" "g1" init nothing-IsBacked
      (nothing-IsUnaliased (mapping "ldap" "alice"))

abbrev one_mapping : BoltStore
one_mapping = (set_identity_mapping "ldap" "alice" "g1" init).1

one-IsUnaliased : IsUnaliased (mapping "ldap" "alice") one_mapping
unfolding holds set_identity_mapping mapping_key add_mapping_to_index put_raw assoc_bolt
one-IsUnaliased guid n h shared = elim (Bool-cases ("g1" == guid)) [
  | inl here ↦ ground (arith, same_iff (mapping "ldap" "alice") n)
  | inr other ↦ ground (arith)
]

repair_mapping_index_lem_example :
    ((repair_mapping_index false one_mapping).0 ≡ ok tt)
    × ((repair_mapping_index false one_mapping).1.identity_mappings ≡ one_mapping.identity_mappings)
    × ((guid : String) (n : IdentityMapping)
        → holds (repair_mapping_index false one_mapping).1.idx_mappings_by_guid guid n ≡ (
            owns one_mapping.identity_mappings guid n
            && holds one_mapping.idx_mappings_by_guid guid n))
repair_mapping_index_lem_example = repair_mapping_index_lem one_mapping

abbrev one_entry : IdentityMappingEntry
one_entry = record { provider = "ldap"; external_id = "alice"; user_guid = "g1" }

one_listed : list_all_mappings one_mapping ≡ ok (one_entry ∷ [])
unfolding list_all_mappings set_identity_mapping mapping_key add_mapping_to_index put_raw assoc_bolt
one_listed = refl

one-IsEntry : IsEntry one_entry (one_entry ∷ [])
unfolding IsEntry
one-IsEntry = inl refl

repoint_done : (set_identity_mapping "ldap" "alice" "g2" one_mapping).0 ≡ ok tt
unfolding set_identity_mapping mapping_key add_mapping_to_index remove_mapping_from_index put_raw
    assoc_bolt
repoint_done = refl

-- "a:b" + ":" + "c" and "a" + ":" + "b:c" are one key.
abbrev aliased : BoltStore
aliased = (set_identity_mapping "a:b" "c" "g1" init).1

strands_done : (set_identity_mapping "a" "b:c" "g2" aliased).0 ≡ ok tt
unfolding set_identity_mapping mapping_key add_mapping_to_index remove_mapping_from_index put_raw
    assoc_bolt
strands_done = refl

held_before : holds aliased.idx_mappings_by_guid "g1" (mapping "a:b" "c") ≡ true
unfolding holds set_identity_mapping mapping_key add_mapping_to_index remove_mapping_from_index
    put_raw assoc_bolt
held_before = refl

one_key : mapping_key (mapping "a:b" "c") ≡ mapping_key (mapping "a" "b:c")
unfolding mapping_key
one_key = refl

two_mappings : mapping "a:b" "c" ≢ mapping "a" "b:c"
two_mappings e =
    let providers : "a:b" ≡ "a" = ap (λ (m : IdentityMapping). m.provider) e in
    ground (arith, eq_iff "a:b" "a")

set_identity_mapping-strands_example :
    (holds
        (set_identity_mapping "a" "b:c" "g2" aliased).1.idx_mappings_by_guid
        "g1"
        (mapping "a:b" "c")
      ≡ true)
    × (resolve_mapping "a:b" "c" (set_identity_mapping "a" "b:c" "g2" aliased).1 ≡ ok "g2")
set_identity_mapping-strands_example =
    set_identity_mapping-strands aliased "a" "b:c" "g2" "g1" (mapping "a:b" "c") strands_done
      held_before one_key two_mappings
