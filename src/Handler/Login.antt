-- ===== src/Handler/Login.antt =====
-- internal/handler/auth.go: authenticateUser.
--
-- A password is tried on the app's own user of the name, then on the local user, then on the
-- directory. Errors of the store that the code does not look at are not looked at here either.
pub mod Sound
use simple_auth.Prelude.{
  ℕ, String, Bool, true, false, not, ◌&&◌, ◌||◌, Option, none, some, List, [], ◌∷◌, ltb,
  if◌then◌else◌, ◌==◌, ◌^^◌,
}
use simple_auth.Outcome.{Result, ok, err, ◌>>=◌}
use simple_auth.Bolt.{Bbolt}
use simple_auth.Store.Types.{Time, User, App, LdapConfig}
use simple_auth.Store.Users.{create_user, with_defaults, resolve_user, update_user}
use simple_auth.Store.Mappings.{resolve_mapping, set_identity_mapping}
use simple_auth.Handler.State.{Config, LdapResult, Env, HandlerState, exec}
use simple_auth.Handler.Provision.{sync_user_from_ldap, jit_provision}
use simple_auth.Handler.Lockout.{is_account_locked, record_failed_login, unlocked}
use simple_auth.Handler.Directory.{
  get_ldap_config_decrypted, directory_account_disabled, record_directory_check,
}

pub data LoginError : Type 0 where
  account_disabled account_locked invalid_credentials user_resolution_failed : LoginError

pub data Login : Type 0 where
  accepted : String → List String → Login
  refused : LoginError → Login

abbrev pub groups_of : Option LdapResult → List String
groups_of none = []
groups_of (some r) = r.groups

-- The hash is there, and it is the password's.
abbrev pub password_matches : Env → User → String → Bool
password_matches env u password =
    not (u.password_hash == "") && env.check_password u.password_hash password

module _ ⦃bolt : Bbolt⦄ where
  -- What follows the check of the user's own flags: the counter is cleared, the profile is synced.
  abbrev pub clear_failures : User → HandlerState → User × HandlerState
  clear_failures u st =
      if ltb 0 u.failed_login_attempts
      then (unlocked u, exec (update_user (unlocked u)) st)
      else (u, st)

  abbrev pub sync_if : Env → Time → Option LdapResult → User × HandlerState → HandlerState
  sync_if env now none (u, st) = st
  sync_if env now (some r) (u, st) =
      record_directory_check env now u.guid (sync_user_from_ldap u r st)

  -- The directory is asked again about an account whose local password matched.
  abbrev pub recheck :
      Env → Config → Time → Option LdapResult → User → HandlerState → Bool × HandlerState
  recheck env cfg now none u st = directory_account_disabled env cfg now u st
  recheck env cfg now (some r) u st = (false, st)

  abbrev pub admit :
      Env → Time → Option LdapResult → User → Bool × HandlerState → Login × HandlerState
  admit env now r u (true, st) = (refused account_disabled, st)
  admit env now r u (false, st) =
      (accepted u.guid (groups_of r), sync_if env now r (clear_failures u st))

  abbrev pub finish_with :
      Env → Config → Time → Option LdapResult → HandlerState → Result User → Login × HandlerState
  finish_with env cfg now r st (err e) = (refused user_resolution_failed, st)
  finish_with env cfg now r st (ok u) =
      if u.disabled
      then (refused account_disabled, st)
      else admit env now r u (recheck env cfg now r u st)

  -- From "Check disabled" to the end.
  unfoldable pub finish :
      Env → Config → Time → String → Option LdapResult → HandlerState → Login × HandlerState
  finish env cfg now guid r st = finish_with env cfg now r st (resolve_user guid st.store)

  abbrev pub fail_login : Config → Time → Option User → HandlerState → Login × HandlerState
  fail_login cfg now none st = (refused invalid_credentials, st)
  fail_login cfg now (some u) st = (refused invalid_credentials, record_failed_login cfg now u st)

  abbrev pub owner_or_jit :
      String → Time → String → LdapResult → HandlerState → Result String → String × HandlerState
  owner_or_jit fresh now username r st (ok guid) = (guid, st)
  owner_or_jit fresh now username r st (err e) = jit_provision fresh now username r st

  abbrev pub ldap_answered :
      Env
      → Config
      → String
      → Time
      → String
      → Option User
      → HandlerState
      → Option LdapResult
      → Login × HandlerState
  ldap_answered env cfg fresh now username local st none = fail_login cfg now local st
  ldap_answered env cfg fresh now username local st (some r) =
      let (guid, st') =
        owner_or_jit fresh now username r st (resolve_mapping "ldap" username st.store) in
      finish env cfg now guid (some r) st'

  abbrev pub ask_ldap : Env → Option LdapConfig → String → String → Option LdapResult
  ask_ldap env none username password = none
  ask_ldap env (some c) username password = env.ldap_authenticate c username password

  -- Step 2, where the local password did not match.
  unfoldable pub ldap_login :
      Env
      → Config
      → String
      → Time
      → String
      → String
      → Option User
      → HandlerState
      → Login × HandlerState
  ldap_login env cfg fresh now username password local st =
      ldap_answered env cfg fresh now username local st
        (ask_ldap env (get_ldap_config_decrypted env st) username password)

  -- What stands before each password check: the disabled flag, then the lockout.
  abbrev pub unless_locked :
      (User → HandlerState → Login × HandlerState)
      → Bool × User × HandlerState
      → Login × HandlerState
  unless_locked k (true, u, st) = (refused account_locked, st)
  unless_locked k (false, u, st) = k u st

  abbrev pub guarded :
      Config
      → Time
      → (User → HandlerState → Login × HandlerState)
      → User
      → HandlerState
      → Login × HandlerState
  guarded cfg now k u st =
      if u.disabled
      then (refused account_disabled, st)
      else unless_locked k (is_account_locked cfg now u st)

  abbrev pub app_local_check :
      Env → Config → Time → String → User → HandlerState → Login × HandlerState
  app_local_check env cfg now password u st =
      if password_matches env u password
      then (accepted u.guid [], st)
      else (refused invalid_credentials, record_failed_login cfg now u st)

  abbrev pub local_check :
      Env → Config → String → Time → String → String → User → HandlerState → Login × HandlerState
  local_check env cfg fresh now username password u st =
      if password_matches env u password
      then finish env cfg now u.guid none st
      else ldap_login env cfg fresh now username password (some u) st

  abbrev pub user_if_ok : Result User → Option User
  user_if_ok (ok u) = some u
  user_if_ok (err e) = none

  -- The user of a mapping, where both lookups succeed.
  abbrev pub mapped_user : String → String → HandlerState → Option User
  mapped_user provider username st =
      user_if_ok (do guid ← resolve_mapping provider username st.store; resolve_user guid st.store)

  abbrev pub owned_by : String → Option User → Option User
  owned_by app_id none = none
  owned_by app_id (some u) = if u.owner_app_id == app_id then some u else none

  abbrev pub app_local_user : Option App → String → HandlerState → Option User
  app_local_user none username st = none
  app_local_user (some a) username st =
      owned_by a.app_id (mapped_user ("applocal:" ^^ a.app_id) username st)

  abbrev pub local_login :
      Env
      → Config
      → String
      → Time
      → String
      → String
      → HandlerState
      → Option User
      → Login × HandlerState
  local_login env cfg fresh now username password st none =
      ldap_login env cfg fresh now username password none st
  local_login env cfg fresh now username password st (some u) =
      guarded cfg now (local_check env cfg fresh now username password) u st

  abbrev pub app_login :
      Env
      → Config
      → String
      → Time
      → String
      → String
      → HandlerState
      → Option User
      → Login × HandlerState
  app_login env cfg fresh now username password st none =
      local_login env cfg fresh now username password st (mapped_user "local" username st)
  app_login env cfg fresh now username password st (some u) =
      guarded cfg now (app_local_check env cfg now password) u st

  -- `fresh` is the GUID that a JIT-provisioned user gets.
  unfoldable pub authenticate_user :
      Env
      → Config
      → String
      → Time
      → String
      → String
      → Option App
      → HandlerState
      → Login × HandlerState
  authenticate_user env cfg fresh now username password app st =
      app_login env cfg fresh now username password st (app_local_user app username st)
