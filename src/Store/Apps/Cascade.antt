-- ===== src/Store/Apps/Cascade.antt =====
-- The cascade of DeleteApp: what is gone afterwards, and what is still there.
use simple_auth.Prelude.{
  String, ◌≡◌, ◌≢◌, refl, sym, ◌∙◌, ap, true, false, none, some, List, [], ◌∷◌, elem, keys, lookup,
  lookup-absent, lookup_of_elem, starts_with, if◌then◌else◌, ◌==◌, arith, eq_iff, eq_refl,
  Bool-cases, ◌⊎◌, inl, inr,
}
use simple_auth.Bolt.{Bbolt, Bytes, json, garbage, delete_all}
use simple_auth.Bolt.Laws.{get-delete_all}
use simple_auth.Store.Types.{User, AppAdmin, IdentityMapping}
use simple_auth.Store.State.{BoltStore}
use simple_auth.Store.Mappings.{mapping_key, owns, listed}
use simple_auth.Store.Apps.{
  local_guids, delete_owned, delete_local_user, delete_local_users, delete_app, get_app,
  is_app_admin, app_admin_key, app_admin_prefix,
}
use simple_auth.Store.Apps.AdminKeys.{has_nul, app_admin_key-apart}

local_guids_lem :
    (app_id : String) (k : String) (u : User) (l : List (String × Bytes User))
    → lookup k l ≡ some (json u)
    → u.owner_app_id ≡ app_id
    → elem u.guid (local_guids app_id l) ≡ true
unfolding local_guids
local_guids_lem app_id k u [] found owned = cc
local_guids_lem app_id k u ((j, garbage) ∷ l) found owned =
    local_guids_lem app_id k u l (ground arith) owned
local_guids_lem app_id k u ((j, json v) ∷ l) found owned = elim (Bool-cases (j == k)) [
  | inl here ↦
      let e : v ≡ u = ground arith in
      rw e (ground (arith, (eq_iff u.owner_app_id app_id).1 owned, eq_refl u.guid))
  | inr other ↦ ground (arith, local_guids_lem app_id k u l (ground arith) owned)
]

module _ ⦃bolt : Bbolt⦄ where
  delete_owned-keeps :
      (guid key owner : String) (l : List IdentityMapping) (fwd : bolt.Bucket String)
      → (owner == guid) ≡ false
      → bolt.get fwd key ≡ some owner
      → bolt.get (delete_owned guid l fwd) key ≡ some owner
  unfolding delete_owned
  delete_owned-keeps guid key owner [] fwd other found = found
  delete_owned-keeps guid key owner (m ∷ l) fwd other found =
      delete_owned-keeps guid key owner l
        (if owns fwd guid m then bolt.delete fwd (mapping_key m) else fwd) other
        (one (Bool-cases (mapping_key m == key)))
    where
      one :
          ((mapping_key m == key) ≡ true) ⊎ ((mapping_key m == key) ≡ false)
          → bolt.get (if owns fwd guid m then bolt.delete fwd (mapping_key m) else fwd) key
            ≡ some owner
      one (inr apart) = ground (arith, bolt.get-delete fwd (mapping_key m) key)
      one (inl same) =
          let e : bolt.get fwd (mapping_key m) ≡ some owner =
            ap (bolt.get fwd) ((eq_iff (mapping_key m) key).0 same) ∙ found in
          let not_owned : owns fwd guid m ≡ false = ground (arith, e) in rw not_owned found

  -- The rounds of the cascade: which records of users go, which forward entries stay.
  users-delete_local_users :
      (l : List String) (s : BoltStore) (k : String)
      → bolt.get (delete_local_users l s).users k ≡ (if elem k l then none else bolt.get s.users k)
  unfolding delete_local_users
  users-delete_local_users [] s k = refl
  users-delete_local_users (g ∷ l) s k =
      ground
        (arith, users-delete_local_users l (delete_local_user g s) k, bolt.get-delete s.users g k)

  mappings-delete_local_users :
      (l : List String) (s : BoltStore) (key owner : String)
      → elem owner l ≡ false
      → bolt.get s.identity_mappings key ≡ some owner
      → bolt.get (delete_local_users l s).identity_mappings key ≡ some owner
  unfolding delete_local_users
  mappings-delete_local_users [] s key owner other found = found
  mappings-delete_local_users (g ∷ l) s key owner other found =
      mappings-delete_local_users l (delete_local_user g s) key owner (ground arith) (
        delete_owned-keeps g key owner (listed (bolt.get s.idx_mappings_by_guid g))
          s.identity_mappings (ground (arith, eq_iff owner g, eq_iff g owner)) found)

  rest-delete_local_users :
      (l : List String) (s : BoltStore)
      → ((delete_local_users l s).apps ≡ s.apps)
        × ((delete_local_users l s).app_admins ≡ s.app_admins)
  unfolding delete_local_users
  rest-delete_local_users [] s = (refl, refl)
  rest-delete_local_users (g ∷ l) s = rest-delete_local_users l (delete_local_user g s)

  admins_left :
      (b : bolt.Bucket (Bytes AppAdmin)) (prefix k : String)
      → bolt.get (delete_all (keys (bolt.with_prefix b prefix)) b) k
        ≡ (if starts_with k prefix then none else bolt.get b k)
  admins_left b prefix k =
      rw (get-delete_all (keys (bolt.with_prefix b prefix)) b k)
        (elim (Bool-cases (elem k (keys (bolt.with_prefix b prefix)))) [
          | inl listed_key ↦
              let (v, found) = lookup_of_elem k (bolt.with_prefix b prefix) listed_key in
              rw listed_key (ground (arith, sym (bolt.lookup-with_prefix b prefix k) ∙ found))
          | inr unlisted ↦ rw unlisted (
              ground (
                arith,
                sym (bolt.lookup-with_prefix b prefix k)
                    ∙ lookup-absent k (bolt.with_prefix b prefix) unlisted,
              ))
        ])

  module _ (app_id : String) (s : BoltStore) where
    -- After DeleteApp no user that stands under its own GUID is owned by the app.
    pub delete_app-orphans :
        (k : String) (u : User)
        → bolt.get (delete_app app_id s).1.users k ≡ some (json u)
        → u.guid ≡ k
        → u.owner_app_id ≢ app_id
    unfolding delete_app
    delete_app-orphans k u found keyed owned =
        let guids = local_guids app_id (bolt.entries s.users) in
        let kept : (elem k guids ≡ false) × (bolt.get s.users k ≡ some (json u)) =
          ground (arith, users-delete_local_users guids s k) in
        ground (
          arith,
          rw keyed at (
              local_guids_lem app_id k u (bolt.entries s.users)
                (bolt.lookup-entries s.users k ∙ kept.1) owned),
          kept.0,
        )

    -- DeleteApp keeps every other application, the admins of an application where neither id holds a
    -- NUL, and a mapping whose owner is none of the users that the cascade lists.
    pub delete_app-keeps :
        (other user_guid key owner : String)
        → (app_id == other) ≡ false
        → has_nul app_id ≡ false
        → has_nul other ≡ false
        → elem owner (local_guids app_id (bolt.entries s.users)) ≡ false
        → bolt.get s.identity_mappings key ≡ some owner
        → (get_app other (delete_app app_id s).1 ≡ get_app other s)
          × (is_app_admin other user_guid (delete_app app_id s).1 ≡ is_app_admin other user_guid s)
          × (bolt.get (delete_app app_id s).1.identity_mappings key ≡ some owner)
    unfolding delete_app get_app is_app_admin
    delete_app-keeps other user_guid key owner apart plain plain' outside found =
        let guids = local_guids app_id (bolt.entries s.users) in
        let s1 = delete_local_users guids s in
        let rest = rest-delete_local_users guids s in
        (
          rw (bolt.get-delete s1.apps app_id other, apart, rest.0),
          rw (
            admins_left s1.app_admins (app_admin_prefix app_id) (app_admin_key other user_guid),
            app_admin_key-apart app_id other user_guid plain plain' apart,
            rest.1,
          ),
          mappings-delete_local_users guids s key owner outside found,
        )
