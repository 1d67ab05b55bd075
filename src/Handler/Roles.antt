-- ===== src/Handler/Roles.antt =====
-- internal/handler/apps.go: which app a request is for, and the roles and the permissions that a token
-- for it carries.
pub mod Isolation
use simple_auth.Prelude.{
  String, Bool, true, false, not, ◌&&◌, ◌||◌, Option, none, some, List, [], ◌∷◌, elem, add_new,
  add_all_new, sort_strings, if◌then◌else◌, ◌==◌,
}
use simple_auth.Outcome.{Error, Result, ok, err, app_not_found}
use simple_auth.Bolt.{Bbolt}
use simple_auth.Store.Types.{User, App, AppAuthz, IdentityMapping, NamesByKey}
use simple_auth.Store.State.{BoltStore}
use simple_auth.Store.Mappings.{get_mappings_for_user}
use simple_auth.Store.Apps.{get_app, get_app_authz}
use simple_auth.Store.Roles.{
  names_at, map_or_empty, merge_roles, get_user_roles, get_default_roles, get_role_permissions,
  get_user_permissions,
}
use simple_auth.Handler.State.{Config, HandlerState}
use simple_auth.Handler.Directory.{list_or_nil}

abbrev pub default_app_id : Config → String
default_app_id cfg = if cfg.client_id == "" then "simpleauth" else cfg.client_id

pub data AppError : Type 0 where
  unknown_app app_disabled : String → AppError

pub data AppLookup : Type 0 where
  found : App → AppLookup
  not_served : AppError → AppLookup

-- The app that stands in for a default app whose row is missing.
abbrev pub transient_app : Config → String → App
transient_app cfg id = record {
  app_id = id;
  name = "";
  audience = id;
  secret_hash = "";
  redirect_uris = cfg.redirect_uris;
  cors_origins = [];
  require_assignment = false;
  allow_local_users = false;
  disabled = false;
  created_at = 0;
  secret_rotated_at = 0;
  base_url = "";
  display_name = [];
  category = "";
  icon = "";
}

abbrev pub is_app_not_found : Error → Bool
is_app_not_found app_not_found = true
is_app_not_found _ = false

abbrev pub served : Config → String → Result App → AppLookup
served cfg id (err e) =
    if is_app_not_found e && id == default_app_id cfg
    then found (transient_app cfg id)
    else not_served (unknown_app id)
served cfg id (ok a) = if a.disabled then not_served (app_disabled id) else found a

abbrev pub app_audience : App → String
app_audience a = if a.audience == "" then a.app_id else a.audience

-- `add`: a key that is neither blank nor there yet.
abbrev pub add_key : List String → String → List String
add_key keys k = if k == "" then keys else add_new keys k

unfoldable pub add_external_ids : List String → List IdentityMapping → List String
add_external_ids keys [] = keys
add_external_ids keys (m ∷ l) = add_external_ids (add_key keys m.external_id) l

abbrev pub is_nil : List String → Bool
is_nil [] = true
is_nil (x ∷ l) = false

-- `assigned`, after `add` on the listed keys: one of them has a role.
unfoldable pub any_assigned : NamesByKey → List String → Bool
any_assigned m [] = false
any_assigned m (k ∷ l) = not (is_nil (names_at k m)) || any_assigned m l

abbrev pub map_or_nil : Result (Option NamesByKey) → NamesByKey
map_or_nil (ok m) = map_or_empty m
map_or_nil (err e) = []

-- The roles and the permissions, or `denied`.
pub data Grant : Type 0 where
  granted : (roles perms : List String) → Grant
  denied : Grant

module _ ⦃bolt : Bbolt⦄ where
  unfoldable pub resolve_app : Config → String → BoltStore → AppLookup
  resolve_app cfg client_id s =
      let id = if client_id == "" then default_app_id cfg else client_id in
      served cfg id (get_app id s)

  unfoldable pub user_assignment_keys : User → BoltStore → List String
  unfolding add_external_ids
  user_assignment_keys u s =
      add_external_ids (add_key (add_key [] u.guid) u.sam_account_name)
        (list_or_nil (get_mappings_for_user u.guid s))

  -- The roles that an app's document assigns to the user.
  abbrev pub assigned_roles : AppAuthz → User → BoltStore → List String
  assigned_roles authz u s =
      merge_roles authz.group_assignments
        (merge_roles authz.user_assignments [] (user_assignment_keys u s)) u.groups

  abbrev pub is_assigned : AppAuthz → User → BoltStore → Bool
  is_assigned authz u s =
      any_assigned authz.user_assignments (user_assignment_keys u s)
      || any_assigned authz.group_assignments u.groups

  -- require_assignment, and no assignment, and no user of the app itself.
  abbrev pub is_denied : App → Bool → User → Bool
  is_denied a assigned u = a.require_assignment && not assigned && not (u.owner_app_id == a.app_id)

  abbrev pub grant_of : NamesByKey → List String → List String → Grant
  grant_of mapping roles direct =
      granted roles (sort_strings (add_all_new (merge_roles mapping [] roles) direct))

  abbrev pub app_grant : App → User → BoltStore → Result AppAuthz → Grant
  app_grant a u s (err e) = if is_denied a false u then denied else granted [] []
  app_grant a u s (ok authz) =
      if is_denied a (is_assigned authz u s) u
      then denied
      else grant_of authz.role_permissions (sort_strings (assigned_roles authz u s)) []

  abbrev pub home_role_set : List String → List String → List String
  home_role_set [] default = add_all_new [] default
  home_role_set (r ∷ l) default = add_all_new [] (r ∷ l)

  unfoldable pub resolve_home_app_roles : App → User → BoltStore → Grant
  resolve_home_app_roles a u s =
      let g_roles = list_or_nil (get_user_roles u.guid s) in
      if is_denied a (not (is_nil g_roles)) u
      then denied
      else grant_of (map_or_nil (get_role_permissions s))
          (sort_strings (home_role_set g_roles (list_or_nil (get_default_roles s))))
          (list_or_nil (get_user_permissions u.guid s))

  unfoldable pub resolve_token_roles : Config → App → User → BoltStore → Grant
  unfolding resolve_home_app_roles
  resolve_token_roles cfg a u s =
      if a.app_id == default_app_id cfg
      then resolve_home_app_roles a u s
      else app_grant a u s (get_app_authz a.app_id s)

-- The first user, not one of an app's own, whose display name or e-mail is the name; else "".
unfoldable pub match_auto_provision_user : List User → String → String
match_auto_provision_user [] username = ""
match_auto_provision_user (u ∷ l) username =
    let rest = match_auto_provision_user l username in
    if not (u.owner_app_id == "")
    then rest
    else if u.display_name == username || u.email == username
    then u.guid
    else rest
