-- ===== src/Admin/Roles.antt =====
-- internal/handler/admin.go: the roles and permissions of users, and the registries.
--
-- `show_names` and `show_mapping` print the values of an audit record.
pub mod Assigned
use simple_auth.Prelude.{String, not, Option, none, some, List, [], ◌∷◌, ◌==◌}
use simple_auth.Outcome.{Result, ok, err}
use simple_auth.Bolt.{Bbolt}
use simple_auth.Store.Types.{NamesByKey}
use simple_auth.Store.Roles.{
  map_or_empty, get_user_roles, set_user_roles, get_user_permissions, set_user_permissions,
  get_default_roles, set_default_roles, get_role_permissions, set_role_permissions,
  get_defined_permissions, set_defined_permissions, validate_roles_exist,
  validate_permissions_exist, list_all_roles,
}
use simple_auth.Handler.State.{HandlerState}
use simple_auth.Handler.Jwt.{Mint}
use simple_auth.Handler.Issue.{audit}
use simple_auth.Handler.Act.{
  Refusal, http_error, Act, ◌>>=◌, ◌>>◌, reply, refuse_if, some_or, fetch, call, effect, look,
}

abbrev pub names_of : Result (List String) → List String
names_of (ok l) = l
names_of (err e) = []

abbrev mapping_of : Result (Option NamesByKey) → NamesByKey
mapping_of (ok m) = map_or_empty m
mapping_of (err e) = []

module _ ⦃bolt : Bbolt⦄ where
  abbrev pub require_roles : List String → Act (Unit {0})
  require_roles roles = do
    invalid ← fetch (http_error 500 "failed to validate roles") (validate_roles_exist roles)
    refuse_if (not (invalid == "")) (http_error 400 "a role is not defined — create it first")

  abbrev pub require_permissions : List String → Act (Unit {0})
  require_permissions perms = do
    invalid ←
        fetch (http_error 500 "failed to validate permissions") (validate_permissions_exist perms)
    refuse_if (not (invalid == "")) (http_error 400 "a permission is not defined — create it first")

  unfoldable pub handle_get_roles : String → Act (List String)
  handle_get_roles guid = fetch (http_error 500 "failed to get roles") (get_user_roles guid)

  unfoldable pub handle_set_roles :
      Mint → (List String → String) → String → Option (List String) → Act (List String)
  handle_set_roles mint show_names guid body = do
    roles ← some_or (http_error 400 "invalid request body, expected array of strings") body
    require_roles roles
    old ← look λ st. names_of (get_user_roles guid st.store)
    call (http_error 500 "failed to set roles") (set_user_roles guid roles)
    effect (
        audit mint "role_changed" "admin" (
          ("user_guid", guid)
          ∷ ("old_roles", show_names old)
          ∷ ("new_roles", show_names roles)
          ∷ []))
    reply roles

  unfoldable pub handle_get_permissions : String → Act (List String)
  handle_get_permissions guid =
      fetch (http_error 500 "failed to get permissions") (get_user_permissions guid)

  unfoldable pub handle_set_permissions :
      Mint → (List String → String) → String → Option (List String) → Act (List String)
  handle_set_permissions mint show_names guid body = do
    perms ← some_or (http_error 400 "invalid request body, expected array of strings") body
    require_permissions perms
    old ← look λ st. names_of (get_user_permissions guid st.store)
    call (http_error 500 "failed to set permissions") (set_user_permissions guid perms)
    effect (
        audit mint "permission_changed" "admin" (
          ("user_guid", guid)
          ∷ ("old_permissions", show_names old)
          ∷ ("new_permissions", show_names perms)
          ∷ []))
    reply perms

  unfoldable pub handle_get_default_roles : Act (List String)
  handle_get_default_roles = look λ st. names_of (get_default_roles st.store)

  unfoldable pub handle_set_default_roles :
      Mint → (List String → String) → Option (List String) → Act (List String)
  handle_set_default_roles mint show_names body = do
    roles ← some_or (http_error 400 "invalid request body") body
    require_roles roles
    call (http_error 500 "failed to set default roles") (set_default_roles roles)
    effect (audit mint "default_roles_changed" "admin" (("roles", show_names roles) ∷ []))
    reply roles

  unfoldable pub handle_get_role_permissions : Act NamesByKey
  handle_get_role_permissions = look λ st. mapping_of (get_role_permissions st.store)

  -- The loop over the roles of the mapping.
  unfoldable pub require_all_permissions : NamesByKey → Act (Unit {0})
  require_all_permissions [] = reply tt
  require_all_permissions ((role, perms) ∷ l) =
      require_permissions perms >> require_all_permissions l

  unfoldable pub handle_set_role_permissions :
      Mint → (NamesByKey → String) → Option (Option NamesByKey) → Act (Option NamesByKey)
  handle_set_role_permissions mint show_mapping body = do
    mapping ← some_or (http_error 400 "invalid request body") body
    require_all_permissions (map_or_empty mapping)
    call (http_error 500 "failed to set role permissions") (set_role_permissions mapping)
    effect (
        audit mint "role_permissions_changed" "admin"
          (("mapping", show_mapping (map_or_empty mapping)) ∷ []))
    reply mapping

  unfoldable pub handle_list_all_roles : Act (List String)
  handle_list_all_roles = fetch (http_error 500 "failed to list roles") list_all_roles

  unfoldable pub handle_list_all_permissions : Act (List String)
  handle_list_all_permissions =
      fetch (http_error 500 "failed to list permissions") get_defined_permissions

  unfoldable pub handle_set_defined_permissions :
      Mint → (List String → String) → Option (List String) → Act (List String)
  handle_set_defined_permissions mint show_names body = do
    perms ← some_or (http_error 400 "invalid request body, expected array of strings") body
    call (http_error 500 "failed to set permissions") (set_defined_permissions perms)
    effect
        (audit mint "permissions_registry_changed" "admin" (("permissions", show_names perms) ∷ []))
    reply perms
