-- ===== src/Handler/Refresh.antt =====
-- internal/handler/auth.go: handleRefresh. The rate limiter and the decoding of the body come before:
-- `handle_refresh` starts with the token.
pub mod Rotation
use simple_auth.Prelude.{
  String, Bool, true, false, not, ◌&&◌, Option, none, some, List, [], ◌∷◌, ltb, if◌then◌else◌, ◌==◌,
  ℤ,
}
use simple_auth.Outcome.{Result, ok, err}
use simple_auth.Bolt.{Bbolt}
use simple_auth.Store.Types.{Time, User, App, RefreshToken, IdentityMapping, AuditEntry}
use simple_auth.Store.State.{BoltStore}
use simple_auth.Store.Users.{resolve_user}
use simple_auth.Store.Mappings.{get_mappings_for_user}
use simple_auth.Store.Tokens.{
  Consumed, consumed, reused, failed, consume_refresh_token, revoke_token_family,
  save_refresh_token, is_user_access_revoked,
}
use simple_auth.Store.Audit.{write_audit_log}
use simple_auth.Handler.State.{Config, Env, HandlerState, exec}
use simple_auth.Handler.Limiter.{add_duration}
use simple_auth.Handler.Directory.{list_or_nil, first_ldap_name, directory_account_disabled}
use simple_auth.Handler.Roles.{
  AppLookup, found, not_served, Grant, granted, denied, resolve_app, resolve_token_roles,
  app_audience,
}
use simple_auth.Handler.Jwt.{Claims, Mint}
use simple_auth.Handler.Issue.{new_refresh_token, audit, claims_of, issue}

pub data RefreshError : Type 0 where
  invalid_token reuse_detected token_not_found token_expired user_missing : RefreshError
  account_off access_off app_unavailable unassigned generation_failed : RefreshError

pub data Refreshed : Type 0 where
  refreshed : (access refresh : String) → Refreshed
  declined : RefreshError → Refreshed

module _ ⦃bolt : Bbolt⦄ where
  -- The end of handleRefresh.
  abbrev pub answered :
      Mint → User → HandlerState → Option (String × String) × BoltStore → Refreshed × HandlerState
  answered mint u st (none, s) = (declined generation_failed, record st { store = s })
  answered mint u st (some (access, refresh), s) =
      (refreshed access refresh, audit mint "token_refresh" u.guid [] (record st { store = s }))

  abbrev pub with_grant :
      Mint → RefreshToken → User → App → HandlerState → Grant → Refreshed × HandlerState
  with_grant mint rt u a st denied = (declined unassigned, st)
  with_grant mint rt u a st (granted roles perms) = answered mint u st (
      issue mint u (record (claims_of u st.store roles perms) { audience = app_audience a ∷ [] })
        (new_refresh_token mint u rt.family_id rt.app_id (app_audience a)) st.store)

  abbrev pub with_app :
      Config → Mint → RefreshToken → User → HandlerState → AppLookup → Refreshed × HandlerState
  with_app cfg mint rt u st (not_served e) = (declined app_unavailable, st)
  with_app cfg mint rt u st (found a) =
      with_grant mint rt u a st (resolve_token_roles cfg a u st.store)

  abbrev pub with_status :
      Config → Mint → RefreshToken → User → Bool × HandlerState → Refreshed × HandlerState
  with_status cfg mint rt u (true, st) = (declined account_off, st)
  with_status cfg mint rt u (false, st) =
      if is_user_access_revoked mint.now u.guid st.store
      then (declined access_off, st)
      else with_app cfg mint rt u st (resolve_app cfg rt.app_id st.store)

  abbrev pub with_user :
      Env → Config → Mint → RefreshToken → HandlerState → Result User → Refreshed × HandlerState
  with_user env cfg mint rt st (err e) = (declined user_missing, st)
  with_user env cfg mint rt st (ok u) =
      if u.disabled
      then (declined account_off, st)
      else with_status cfg mint rt u (directory_account_disabled env cfg mint.now u st)

  abbrev pub with_consumed :
      Env → Config → Mint → Claims → HandlerState → Consumed × BoltStore → Refreshed × HandlerState
  with_consumed env cfg mint c st (failed e, s) =
      (declined token_not_found, record st { store = s })
  with_consumed env cfg mint c st (reused rt, s) = (
    declined reuse_detected,
    audit mint "token_refresh" c.subject
        (("event", "replay_detected") ∷ ("family_id", rt.family_id) ∷ [])
        (exec (revoke_token_family rt.family_id) (record st { store = s })),
  )
  with_consumed env cfg mint c st (consumed rt, s) =
      if ltb rt.expires_at mint.now
      then (declined token_expired, record st { store = s })
      else with_user env cfg mint rt (record st { store = s }) (resolve_user c.subject s)

  abbrev pub with_claims :
      Env → Config → Mint → HandlerState → Option Claims → Refreshed × HandlerState
  with_claims env cfg mint st none = (declined invalid_token, st)
  with_claims env cfg mint st (some c) =
      with_consumed env cfg mint c st (consume_refresh_token c.id st.store)

  unfoldable pub handle_refresh :
      Env
      → Config
      → Mint
      → (String → Option Claims)
      → String
      → HandlerState
      → Refreshed × HandlerState
  handle_refresh env cfg mint parse token st = with_claims env cfg mint st (parse token)
