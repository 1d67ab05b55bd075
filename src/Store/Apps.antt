-- ===== src/Store/Apps.antt =====
-- internal/store/bolt.go, "Apps": the registered applications, their authorization data and their
-- admins, and the cascade of DeleteApp.
pub mod AdminKeys
pub mod Cascade
use Prim.Native.Char.{nul}
use simple_auth.Prelude.{
  String, ◌^^◌, Bool, true, false, Option, none, some, List, [], ◌∷◌, keys, starts_with,
  if◌then◌else◌, ◌==◌,
}
use simple_auth.Outcome.{Result, ok, err, app_exists, app_not_found, app_missing, ◌>>=◌}
use simple_auth.Bolt.{
  Bbolt, Bucket, Bytes, json, garbage, decode, read, put_raw, put, is_some, delete_all,
}
use simple_auth.Store.Types.{Time, User, App, AppAuthz, AppAdmin, IdentityMapping}
use simple_auth.Store.State.{BoltStore, Method, update}
use simple_auth.Store.Users.{decode_all}
use simple_auth.Store.Mappings.{mapping_key, listed, owns}

-- The text "\x00".
abbrev pub nul_text : String
nul_text = String.◌∷◌ nul ""

unfoldable pub app_admin_prefix : String → String
app_admin_prefix app_id = app_id ^^ nul_text

unfoldable pub app_admin_key : String → String → String
unfolding app_admin_prefix
app_admin_key app_id user_guid = app_admin_prefix app_id ^^ user_guid

-- The first loop of DeleteApp: the GUIDs that the records of the app's local users carry.
unfoldable pub local_guids : String → List (String × Bytes User) → List String
local_guids app_id [] = []
local_guids app_id ((k, garbage) ∷ l) = local_guids app_id l
local_guids app_id ((k, json u) ∷ l) =
    let rest = local_guids app_id l in if u.owner_app_id == app_id then u.guid ∷ rest else rest

-- The entries that decode; the others are passed over.
unfoldable pub decoded : {V : Type 0} → List (String × Bytes V) → List V
decoded [] = []
decoded ((k, garbage) ∷ l) = decoded l
decoded ((k, json v) ∷ l) = v ∷ decoded l

module _ ⦃bolt : Bbolt⦄ where
  unfoldable pub create_app : App → Method (Unit {0})
  unfolding put_raw
  create_app a = update λ s.
      if is_some (bolt.get s.apps a.app_id)
      then err app_exists
      else (do apps ← put s.apps a.app_id a; ok (tt, record s { apps = apps }))

  unfoldable pub get_app : String → BoltStore → Result App
  unfolding read
  get_app app_id s = read app_not_found s.apps app_id

  unfoldable pub list_apps : BoltStore → Result (List App)
  unfolding decode_all
  list_apps s = decode_all (bolt.entries s.apps)

  unfoldable pub update_app : App → Method (Unit {0})
  unfolding put_raw
  update_app a = update λ s.
      if is_some (bolt.get s.apps a.app_id)
      then (do apps ← put s.apps a.app_id a; ok (tt, record s { apps = apps }))
      else err app_missing

  -- The forward entries of the listed mappings go, where the user is still their owner.
  unfoldable pub delete_owned :
      String → List IdentityMapping → bolt.Bucket String → bolt.Bucket String
  delete_owned guid [] fwd = fwd
  delete_owned guid (m ∷ l) fwd =
      delete_owned guid l (if owns fwd guid m then bolt.delete fwd (mapping_key m) else fwd)

  -- One round of the cascade: a local user, the mappings that it owns, and its index entry.
  unfoldable pub delete_local_user : String → BoltStore → BoltStore
  unfolding delete_owned
  delete_local_user guid s = record s {
    users = bolt.delete s.users guid;
    identity_mappings =
        delete_owned guid (listed (bolt.get s.idx_mappings_by_guid guid)) s.identity_mappings;
    idx_mappings_by_guid =
        if is_some (bolt.get s.idx_mappings_by_guid guid)
        then bolt.delete s.idx_mappings_by_guid guid
        else s.idx_mappings_by_guid;
  }

  unfoldable pub delete_local_users : List String → BoltStore → BoltStore
  unfolding delete_local_user
  delete_local_users [] s = s
  delete_local_users (guid ∷ l) s = delete_local_users l (delete_local_user guid s)

  unfoldable pub delete_app : String → Method (Unit {0})
  unfolding local_guids delete_local_users app_admin_prefix delete_all
  delete_app app_id = update λ s.
      let s1 = delete_local_users (local_guids app_id (bolt.entries s.users)) s in
      let admin_keys = keys (bolt.with_prefix s1.app_admins (app_admin_prefix app_id)) in
      ok (
        tt,
        record s1 {
          apps = bolt.delete s1.apps app_id;
          app_authz = bolt.delete s1.app_authz app_id;
          app_admins = delete_all admin_keys s1.app_admins;
        },
      )

  abbrev pub authz_or_blank : String → Option (Bytes AppAuthz) → Result AppAuthz
  authz_or_blank app_id none = ok (record {
    app_id = app_id;
    roles = [];
    permissions = [];
    role_permissions = [];
    user_assignments = [];
    group_assignments = [];
  })
  authz_or_blank app_id (some d) = decode d

  unfoldable pub get_app_authz : String → BoltStore → Result AppAuthz
  get_app_authz app_id s = authz_or_blank app_id (bolt.get s.app_authz app_id)

  unfoldable pub save_app_authz : AppAuthz → Method (Unit {0})
  unfolding put_raw
  save_app_authz authz = update λ s. do
    app_authz ← put s.app_authz authz.app_id authz
    ok (tt, record s { app_authz = app_authz })

  -- An admin that is there already keeps its record.
  unfoldable pub add_app_admin : Time → String → String → String → Method (Unit {0})
  unfolding put_raw app_admin_key
  add_app_admin now app_id user_guid added_by = update λ s.
      if is_some (bolt.get s.app_admins (app_admin_key app_id user_guid)) then ok (tt, s) else (do
        app_admins ←
            put s.app_admins (app_admin_key app_id user_guid) (record {
              app_id = app_id;
              user_guid = user_guid;
              added_by = added_by;
              added_at = now;
            })
        ok (tt, record s { app_admins = app_admins }))

  unfoldable pub remove_app_admin : String → String → Method (Unit {0})
  unfolding app_admin_key
  remove_app_admin app_id user_guid = update λ s.
      ok (tt, record s { app_admins = bolt.delete s.app_admins (app_admin_key app_id user_guid) })

  unfoldable pub is_app_admin : String → String → BoltStore → Bool
  unfolding app_admin_key
  is_app_admin app_id user_guid s = is_some (bolt.get s.app_admins (app_admin_key app_id user_guid))

  unfoldable pub list_app_admins : String → BoltStore → List AppAdmin
  unfolding app_admin_prefix decoded
  list_app_admins app_id s = decoded (bolt.with_prefix s.app_admins (app_admin_prefix app_id))
