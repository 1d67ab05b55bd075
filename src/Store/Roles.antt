-- ===== src/Store/Roles.antt =====
-- internal/store/bolt.go, "Roles & Permissions" and "Config": the roles and the permissions of users,
-- the registries in the bucket `config`, and the settings.
pub mod Resolve
use simple_auth.Prelude.{
  String, Bool, true, false, Option, none, some, List, [], ◌∷◌, keys, lookup, elem, add_new,
  add_all_new, sort_strings, eqb, if◌then◌else◌, ◌==◌,
}
use simple_auth.Outcome.{Result, ok, err, bad_json, ldap_not_configured, ◌>>=◌}
use simple_auth.Bolt.{Bbolt, Bucket, Bytes, json, garbage, decode, put_raw, put}
use simple_auth.Store.Types.{Time, NamesByKey, LdapConfig, RuntimeSettings}
use simple_auth.Store.State.{
  BoltStore, ConfigDoc, ldap_config, names, names_by_key, runtime_settings, text, Method, update,
}

-- The list under a key; nil where there is none.
abbrev pub names_or_nil : Option (Bytes (List String)) → Result (List String)
names_or_nil none = ok []
names_or_nil (some d) = decode d

-- Unmarshal of a configuration value into a list of texts, a map, the LDAP configuration, and the
-- settings: JSON of another shape is refused.
abbrev pub as_names : Option (Bytes ConfigDoc) → Result (List String)
as_names none = ok []
as_names (some (json (names l))) = ok l
as_names (some _) = err bad_json

abbrev pub as_names_by_key : Option (Bytes ConfigDoc) → Result (Option NamesByKey)
as_names_by_key none = ok none
as_names_by_key (some (json (names_by_key m))) = ok m
as_names_by_key (some _) = err bad_json

abbrev pub as_ldap_config : Option (Bytes ConfigDoc) → Result LdapConfig
as_ldap_config none = err ldap_not_configured
as_ldap_config (some (json (ldap_config c))) = ok c
as_ldap_config (some _) = err bad_json

-- nil where there is no value
abbrev pub as_runtime_settings : Option (Bytes ConfigDoc) → Result (Option RuntimeSettings)
as_runtime_settings none = ok none
as_runtime_settings (some (json (runtime_settings rs))) = ok (some rs)
as_runtime_settings (some _) = err bad_json

-- The keys of a map that may be nil.
abbrev pub map_or_empty : Option NamesByKey → NamesByKey
map_or_empty none = []
map_or_empty (some m) = m

-- The permissions of a role; none for a role that the map lacks.
abbrev pub names_at : String → NamesByKey → List String
names_at k m = elim (lookup k m) [ none ↦ [] | some l ↦ l ]

-- The first loop of ResolvePermissions.
unfoldable pub merge_roles : NamesByKey → List String → List String → List String
merge_roles mapping merged [] = merged
merge_roles mapping merged (role ∷ roles) =
    merge_roles mapping (add_all_new merged (names_at role mapping)) roles

-- The first of the names that is not among the known ones, else "".
unfoldable pub first_unknown : List String → List String → String
first_unknown known [] = ""
first_unknown known (x ∷ xs) = let rest = first_unknown known xs in if elem x known then rest else x

module _ ⦃bolt : Bbolt⦄ where
  unfoldable pub set_config_value : String → Bytes ConfigDoc → Method (Unit {0})
  unfolding put_raw
  set_config_value key value =
      update λ s. do config ← put_raw s.config key value; ok (tt, record s { config = config })

  unfoldable pub get_config_value : String → BoltStore → Option (Bytes ConfigDoc)
  get_config_value key s = bolt.get s.config key

  unfoldable pub delete_config_value : String → Method (Unit {0})
  delete_config_value key = update λ s. ok (tt, record s { config = bolt.delete s.config key })

  unfoldable pub set_user_roles : String → List String → Method (Unit {0})
  unfolding put_raw
  set_user_roles guid roles = update λ s. do
    user_roles ← put s.user_roles guid roles
    ok (tt, record s { user_roles = user_roles })

  unfoldable pub get_user_roles : String → BoltStore → Result (List String)
  get_user_roles guid s = names_or_nil (bolt.get s.user_roles guid)

  unfoldable pub set_user_permissions : String → List String → Method (Unit {0})
  unfolding put_raw
  set_user_permissions guid perms = update λ s. do
    user_permissions ← put s.user_permissions guid perms
    ok (tt, record s { user_permissions = user_permissions })

  unfoldable pub get_user_permissions : String → BoltStore → Result (List String)
  get_user_permissions guid s = names_or_nil (bolt.get s.user_permissions guid)

  unfoldable pub get_default_roles : BoltStore → Result (List String)
  get_default_roles s = as_names (bolt.get s.config "default_roles")

  unfoldable pub set_default_roles : List String → Method (Unit {0})
  unfolding set_config_value
  set_default_roles roles = set_config_value "default_roles" (json (names roles))

  unfoldable pub get_role_permissions : BoltStore → Result (Option NamesByKey)
  get_role_permissions s = as_names_by_key (bolt.get s.config "role_permissions")

  unfoldable pub set_role_permissions : Option NamesByKey → Method (Unit {0})
  unfolding set_config_value
  set_role_permissions mapping = set_config_value "role_permissions" (json (names_by_key mapping))

  unfoldable pub list_all_roles : BoltStore → Result (List String)
  unfolding get_role_permissions
  list_all_roles s = do
    mapping ← get_role_permissions s
    ok (sort_strings (keys (map_or_empty mapping)))

  unfoldable pub role_exists : String → BoltStore → Result Bool
  unfolding get_role_permissions
  role_exists role s = do
    mapping ← get_role_permissions s
    ok (elem role (keys (map_or_empty mapping)))

  unfoldable pub get_defined_permissions : BoltStore → Result (List String)
  get_defined_permissions s = as_names (bolt.get s.config "defined_permissions")

  unfoldable pub set_defined_permissions : List String → Method (Unit {0})
  unfolding set_config_value
  set_defined_permissions perms = set_config_value "defined_permissions" (json (names perms))

  unfoldable pub list_all_permissions : BoltStore → Result (List String)
  unfolding get_defined_permissions
  list_all_permissions s = get_defined_permissions s

  unfoldable pub permission_exists : String → BoltStore → Result Bool
  unfolding get_defined_permissions
  permission_exists perm s = do perms ← get_defined_permissions s; ok (elem perm perms)

  unfoldable pub validate_roles_exist : List String → BoltStore → Result String
  unfolding get_role_permissions first_unknown
  validate_roles_exist roles s = do
    mapping ← get_role_permissions s
    ok (first_unknown (keys (map_or_empty mapping)) roles)

  unfoldable pub validate_permissions_exist : List String → BoltStore → Result String
  unfolding get_defined_permissions first_unknown
  validate_permissions_exist perms s = do
    defined ← get_defined_permissions s
    ok (first_unknown defined perms)

  abbrev pub resolve_with : Option NamesByKey → List String → List String → List String
  resolve_with none roles direct = direct
  resolve_with (some mapping) roles direct = add_all_new (merge_roles mapping [] roles) direct

  unfoldable pub resolve_permissions : List String → List String → BoltStore → Result (List String)
  unfolding get_role_permissions merge_roles
  resolve_permissions roles direct s = do
    mapping ← get_role_permissions s
    ok (resolve_with mapping roles direct)

  unfoldable pub get_ldap_config : BoltStore → Result LdapConfig
  get_ldap_config s = as_ldap_config (bolt.get s.config "ldap:config")

  unfoldable pub get_runtime_settings : BoltStore → Result (Option RuntimeSettings)
  unfolding get_config_value
  get_runtime_settings s = as_runtime_settings (get_config_value "runtime_settings" s)

  unfoldable pub save_runtime_settings : RuntimeSettings → Method (Unit {0})
  unfolding set_config_value
  save_runtime_settings rs = set_config_value "runtime_settings" (json (runtime_settings rs))

  -- A configuration with no time of its own gets the current one.
  unfoldable pub save_ldap_config : Time → LdapConfig → Method (Unit {0})
  unfolding set_config_value
  save_ldap_config now cfg = set_config_value "ldap:config" (
      json (
        ldap_config (record cfg {
          configured_at = if eqb cfg.configured_at 0 then now else cfg.configured_at;
        })))

  unfoldable pub delete_ldap_config : Method (Unit {0})
  unfolding delete_config_value
  delete_ldap_config = delete_config_value "ldap:config"
