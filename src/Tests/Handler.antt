-- ===== src/Tests/Handler.antt =====
-- The handlers and the password rules on small inputs.
use Prim.Native.Char.{code}
use simple_auth.Prelude.{
  String, ◌≡◌, ◌≢◌, refl, ◌↔◌, ◌⊎◌, ◌&&◌, ◌||◌, true, false, none, some, List, [], ◌∷◌, arith, elem,
  leb, eq_iff, ◌==◌, pos,
}
use simple_auth.Outcome.{ok}
use simple_auth.Bolt.{read, put_raw}
use simple_auth.Bolt.Assoc.{assoc_bolt}
use simple_auth.Store.Types.{User, App, AppAuthz}
use simple_auth.Store.State.{BoltStore}
use simple_auth.Store.Users.{create_user, get_user, resolve_loop, resolve_user}
use simple_auth.Store.Mappings.{
  set_identity_mapping, mapping_key, add_mapping_to_index, resolve_mapping, get_mappings_for_user,
}
use simple_auth.Store.Apps.{
  create_app, get_app, get_app_authz, save_app_authz, add_app_admin, is_app_admin, app_admin_key,
}
use simple_auth.Store.Tokens.{is_access_token_revoked, is_user_access_revoked}
use simple_auth.Store.Roles.{get_ldap_config}
use simple_auth.Store.Roles.Resolve.{grants}
use simple_auth.Handler.State.{Config, unreachable, Env, HandlerState}
use simple_auth.Handler.Limiter.{RateLimiter, new_rate_limiter}
use simple_auth.Handler.Limiter.Window.{let_through, let_through_lem}
use simple_auth.Handler.Lockout.{is_account_locked}
use simple_auth.Handler.Lockout.Guard.{fail_times, fail_times-locks}
use simple_auth.Handler.Directory.{
  is_directory_backed, has_foreign_provider, get_ldap_config_decrypted, directory_account_disabled,
}
use simple_auth.Handler.Login.{accepted, finish, app_local_user, mapped_user, authenticate_user}
use simple_auth.Handler.Login.Sound.{DirectoryAgrees, PasswordAgrees, authenticate_user-accepted}
use simple_auth.Handler.Roles.{
  granted, denied, is_denied, is_assigned, any_assigned, user_assignment_keys, resolve_app,
  resolve_token_roles,
}
use simple_auth.Handler.Roles.Isolation.{
  assigns, resolve_token_roles_lem, resolve_token_roles-denied_iff,
}
use simple_auth.Handler.Jwt.{Claims, no_claims}
use simple_auth.Handler.Access.{passed, validate_access_token, require_app_admin}
use simple_auth.Handler.Access.Admitted.{IsAccess, IsAdmin, require_app_admin-passed}
use simple_auth.Auth.Passwords.{CharClass, PasswordPolicy}
use simple_auth.Tests.Store.{alice}
use simple_auth.Tests.Apps.{app, with_app}

abbrev limiter : RateLimiter
limiter = new_rate_limiter (pos 2) (pos 60)

let_through_lem_example :
    let_through "ip" ((10, "ip") ∷ (20, "ip") ∷ (25, "other") ∷ (30, "ip") ∷ []) limiter ≡ 2
let_through_lem_example =
    let_through_lem "ip" 10 ((20, "ip") ∷ (25, "other") ∷ (30, "ip") ∷ []) limiter 1 refl refl refl
      (omega arith, (omega arith, (omega arith, tt)))

abbrev pub config : Config
config = record {
  hostname = "auth.example";
  port = "443";
  admin_key = "key";
  deployment_name = "";
  jwt_issuer = "simpleauth";
  tls_disabled = false;
  base_path = "";
  audit_retention = pos 0;
  rate_limit_max = pos 2;
  rate_limit_window = pos 60;
  cors_origins = "";
  client_id = "home";
  client_secret = "";
  redirect_uri = "";
  default_roles = [];
  password_min_length = pos 8;
  password_require_uppercase = true;
  password_require_lowercase = true;
  password_require_digit = true;
  password_require_special = false;
  password_history_count = pos 2;
  auto_sso = false;
  auto_sso_delay = pos 3;
  redirect_uris = [];
  account_lockout_threshold = pos 2;
  account_lockout_duration = pos 100;
  directory_outage_policy = "grace";
  directory_outage_grace_hours = pos 10;
  enable_session_sso = true;
  session_sso_idle_ttl = pos 0;
  session_sso_max_ttl = pos 0;
}

abbrev pub state : HandlerState
state = record {
  store = with_app;
  runtime_settings = none;
  dir_checked = [];
  login_limiter = limiter;
}

alice_stored : get_user "g1" with_app ≡ ok alice
unfolding get_user set_identity_mapping mapping_key add_mapping_to_index create_user add_app_admin
    app_admin_key create_app read put_raw assoc_bolt
alice_stored = refl

fail_times-locks_example :
    (v : User) × (get_user "g1" (fail_times config "g1" (10 ∷ 20 ∷ []) state).store ≡ ok v)
    × ((is_account_locked config 100 v (fail_times config "g1" (10 ∷ 20 ∷ []) state)).0 ≡ true)
fail_times-locks_example =
    fail_times-locks config (10 ∷ []) 20 100 alice state 1 100 refl refl alice_stored (omega arith)
      (omega arith)

-- A password is right when it is the hash, and no directory answers.
abbrev pub env : Env
env = record {
  check_password = λ hash password. hash == password;
  hash_password = λ password. some password;
  ldap_authenticate = λ c name password. none;
  ldap_search = λ c attr name. unreachable;
  decrypt_secret = λ s. some s;
  lower_trim = λ s. s;
  format_time = λ t. "";
  parse_time = λ s. none;
}

abbrev login_state : HandlerState
login_state = record state { store = (set_identity_mapping "local" "alice" "g1" with_app).1 }

alice_accepted :
    (authenticate_user env config "x" 10 "alice" "hash" none login_state).0 ≡ accepted "g1" []
unfolding authenticate_user finish is_account_locked directory_account_disabled is_directory_backed
    has_foreign_provider get_mappings_for_user get_ldap_config_decrypted get_ldap_config
    resolve_mapping resolve_user resolve_loop get_user set_identity_mapping mapping_key
    add_mapping_to_index create_user add_app_admin app_admin_key create_app read put_raw assoc_bolt
alice_accepted = refl

authenticate_user-accepted_example :
    ((u : User) × ((app_local_user none "alice" login_state ≡ some u)
        ⊎ (mapped_user "local" "alice" login_state ≡ some u))
      × PasswordAgrees env config "x" 10 "alice" "hash" u login_state)
    ⊎ DirectoryAgrees env config "x" 10 "alice" "hash"
authenticate_user-accepted_example =
    authenticate_user-accepted env config "x" 10 "alice" "hash" none login_state alice_accepted

abbrev pub claims : Claims
claims = record no_claims { id = "j"; subject = "g1"; azp = "a" }

alice_passes : require_app_admin config (λ token. some claims) 20 "token" with_app ≡ passed "a" "g1"
unfolding require_app_admin validate_access_token resolve_app get_app is_user_access_revoked
    is_access_token_revoked is_app_admin resolve_user resolve_loop get_user set_identity_mapping
    mapping_key add_mapping_to_index create_user add_app_admin app_admin_key create_app read put_raw
    assoc_bolt
alice_passes = refl

require_app_admin-passed_example :
    (c : Claims) × (a : App) × (u : User) × (some claims ≡ some c)
    × IsAccess 20 with_app c
    × IsAdmin 20 with_app config c a u "a" "g1"
require_app_admin-passed_example =
    require_app_admin-passed 20 with_app config (λ token. some claims) "token" alice_passes

abbrev authz : AppAuthz
authz = record {
  app_id = "a";
  roles = "admin" ∷ [];
  permissions = "read" ∷ [];
  role_permissions = ("admin", "read" ∷ []) ∷ [];
  user_assignments = ("alice", "admin" ∷ []) ∷ [];
  group_assignments = [];
}

abbrev pub with_authz : BoltStore
with_authz = (save_app_authz authz with_app).1

not_home : app.app_id ≢ "home"
not_home e = ground (arith, eq_iff "a" "home")

authz_read : get_app_authz "a" with_authz ≡ ok authz
unfolding get_app_authz save_app_authz set_identity_mapping mapping_key add_mapping_to_index
    create_user add_app_admin app_admin_key create_app put_raw assoc_bolt
authz_read = refl

alice_admitted : is_denied app (is_assigned authz alice with_authz) alice ≡ false
unfolding any_assigned user_assignment_keys get_mappings_for_user save_app_authz
    set_identity_mapping mapping_key add_mapping_to_index create_user add_app_admin app_admin_key
    create_app put_raw assoc_bolt
alice_admitted = refl

resolve_token_roles_lem_example :
    (roles : List String) × (perms : List String) × (resolve_token_roles config app alice with_authz
      ≡ granted roles perms)
    × ((role : String) → elem role roles ≡ assigns authz alice with_authz role)
    × ((perm : String) → elem perm perms ≡ grants authz.role_permissions perm roles)
resolve_token_roles_lem_example =
    resolve_token_roles_lem config app alice with_authz authz not_home authz_read alice_admitted

resolve_token_roles-denied_iff_example :
    (resolve_token_roles config app alice with_authz ≡ denied) ↔ (
      (app.require_assignment ≡ true)
      × (alice.owner_app_id ≢ app.app_id)
      × ((role : String) → assigns authz alice with_authz role ≡ false))
resolve_token_roles-denied_iff_example =
    resolve_token_roles-denied_iff config app alice with_authz authz not_home authz_read

abbrev uri : String
uri = "https://app.example/cb"

-- The ASCII part of the package `unicode`.
abbrev pub ascii : CharClass
ascii = record {
  is_upper = λ c. leb b'A' (code c) && leb (code c) b'Z';
  is_lower = λ c. leb b'a' (code c) && leb (code c) b'z';
  is_digit = λ c. leb b'0' (code c) && leb (code c) b'9';
  is_letter = λ c. leb b'A' (code c) && leb (code c) b'Z' || leb b'a' (code c) && leb (code c) b'z';
}

abbrev policy : PasswordPolicy
policy = record {
  min_length = pos 8;
  require_uppercase = true;
  require_lowercase = true;
  require_digit = true;
  require_special = false;
}
