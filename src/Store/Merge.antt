-- ===== src/Store/Merge.antt =====
-- internal/store/bolt.go, "User Merge": a new user takes over the mappings, the roles and the
-- permissions of the sources, which then point at it.
pub mod Sources
use simple_auth.Prelude.{
  String, Bool, true, false, Option, none, some, List, [], ◌∷◌, add_all_new, if◌then◌else◌, ◌==◌,
}
use simple_auth.Outcome.{Result, ok, err, source_not_found, ◌>>=◌}
use simple_auth.Bolt.{Bbolt, Bytes, json, garbage, put_raw, put, is_some}
use simple_auth.Store.Types.{Time, User, IdentityMapping}
use simple_auth.Store.State.{BoltStore, Method, update}
use simple_auth.Store.Mappings.{mapping_key, listed, IndexBucket, add_mapping_to_index}

-- A list of names whose JSON may not decode; the Unmarshal's error is dropped.
abbrev pub names_of : Option (Bytes (List String)) → List String
names_of none = []
names_of (some (json l)) = l
names_of (some garbage) = []

-- A record that does not decode is the zero record.
abbrev pub zero_user : User
zero_user = record {
  guid = "";
  password_hash = "";
  display_name = "";
  email = "";
  department = "";
  company = "";
  job_title = "";
  sam_account_name = "";
  disabled = false;
  merged_into = "";
  created_at = 0;
  owner_app_id = "";
  force_password_change = false;
  password_history = [];
  failed_login_attempts = 0;
  locked_until = none;
  groups = [];
}

abbrev pub user_of : Bytes User → User
user_of (json u) = u
user_of garbage = zero_user

abbrev pub merged_user : String → Time → String → String → User
merged_user fresh now display_name email = record zero_user {
  guid = fresh;
  display_name = display_name;
  email = email;
  created_at = now;
}

module _ ⦃bolt : Bbolt⦄ where
  -- A write whose error is dropped: a Put that fails changes nothing.
  abbrev pub written_or : {V : Type 0} → bolt.Bucket V → Result (bolt.Bucket V) → bolt.Bucket V
  written_or b (ok b') = b'
  written_or b (err e) = b

  -- The loop over one source's mappings: each is pointed at the new user, and added to its index.
  unfoldable pub move_mappings :
      String
      → List IdentityMapping
      → bolt.Bucket String
      → IndexBucket
      → bolt.Bucket String × IndexBucket
  move_mappings guid [] fwd idx = (fwd, idx)
  move_mappings guid (m ∷ l) fwd idx =
      move_mappings guid l (written_or fwd (put_raw fwd (mapping_key m) guid))
        (written_or idx (add_mapping_to_index guid m idx))

  -- What the loop over the sources carries: the store, and the sets `allRoles` and `allPerms`. The
  -- order of a Go map is open; here a set keeps the order of insertion.
  pub record Gathered : Type 0 where
    pub store : BoltStore
    pub roles : List String
    pub perms : List String

  unfoldable pub move_source : String → String → Bytes User → Gathered → Gathered
  unfolding move_mappings put_raw
  move_source guid src doc g =
      let s = g.store in
      let (fwd, idx) =
        move_mappings guid (listed (bolt.get s.idx_mappings_by_guid src)) s.identity_mappings
          s.idx_mappings_by_guid in
      record {
        store = record s {
          identity_mappings = fwd;
          idx_mappings_by_guid =
              if is_some (bolt.get s.idx_mappings_by_guid src) then bolt.delete idx src else idx;
          user_roles =
              if is_some (bolt.get s.user_roles src)
              then bolt.delete s.user_roles src
              else s.user_roles;
          user_permissions =
              if is_some (bolt.get s.user_permissions src)
              then bolt.delete s.user_permissions src
              else s.user_permissions;
          users =
              written_or s.users (put s.users src (record (user_of doc) { merged_into = guid }));
        };
        roles = add_all_new g.roles (names_of (bolt.get s.user_roles src));
        perms = add_all_new g.perms (names_of (bolt.get s.user_permissions src));
      }

  unfoldable pub move_sources : String → List String → Gathered → Result Gathered
  move_sources guid [] g = ok g
  move_sources guid (src ∷ l) g = elim (bolt.get g.store.users src) [
    | none ↦ err (source_not_found src)
    | some doc ↦ move_sources guid l (move_source guid src doc g)
  ]

  -- The merged list is written only if it is not empty.
  abbrev pub write_names :
      String → List String → bolt.Bucket (Bytes (List String)) → bolt.Bucket (Bytes (List String))
  write_names guid [] b = b
  write_names guid (x ∷ l) b = written_or b (put b guid (x ∷ l))

  -- `fresh` is `uuid.New()`.
  unfoldable pub merge_users : String → Time → List String → String → String → Method User
  unfolding put_raw
  merge_users fresh now sources display_name email =
      let new = merged_user fresh now display_name email in
      update λ s. do
        users ← put s.users fresh new
        g ←
            move_sources fresh sources
              (record { store = record s { users = users }; roles = []; perms = [] })
        ok (
          new,
          record g.store {
            user_roles = write_names fresh g.roles g.store.user_roles;
            user_permissions = write_names fresh g.perms g.store.user_permissions;
          },
        )
