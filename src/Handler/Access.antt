-- ===== src/Handler/Access.antt =====
-- internal/handler/auth.go and app_admin.go: validateAccessToken and requireAppAdmin.
--
-- ValidateToken, which checks the signature and the expiry of a JWT, is an argument `parse`.
pub mod Admitted
pub mod Classes
use simple_auth.Prelude.{
  String, Bool, true, false, not, ◌&&◌, ◌||◌, Option, none, some, if◌then◌else◌, ◌==◌,
}
use simple_auth.Outcome.{Result, ok, err}
use simple_auth.Bolt.{Bbolt}
use simple_auth.Store.Types.{Time, User, App}
use simple_auth.Store.State.{BoltStore}
use simple_auth.Store.Users.{resolve_user}
use simple_auth.Store.Apps.{is_app_admin}
use simple_auth.Store.Tokens.{is_access_token_revoked, is_user_access_revoked}
use simple_auth.Handler.State.{Config}
use simple_auth.Handler.Jwt.{Claims}
use simple_auth.Handler.Roles.{AppLookup, found, not_served, resolve_app}

pub data TokenError : Type 0 where
  invalid_token app_management_token refresh_token id_token access_revoked token_revoked :
      TokenError

pub data Validated : Type 0 where
  good : Claims → Validated
  bad : TokenError → Validated

-- What requireAppAdmin sets in the context: the app and the actor; or the 403.
pub data Gate : Type 0 where
  passed : (app_id actor : String) → Gate
  forbidden : Gate

module _ ⦃bolt : Bbolt⦄ where
  abbrev pub validated : Time → BoltStore → Option Claims → Validated
  validated now s none = bad invalid_token
  validated now s (some c) =
      if c.typ == "app-mgmt"
      then bad app_management_token
      else if not (c.family_id == "")
      then bad refresh_token
      else if c.typ == "ID"
      then bad id_token
      else if is_user_access_revoked now c.subject s
      then bad access_revoked
      else if not (c.id == "") && is_access_token_revoked c.id s
      then bad token_revoked
      else good c

  unfoldable pub validate_access_token :
      (String → Option Claims) → Time → String → BoltStore → Validated
  validate_access_token parse now token s = validated now s (parse token)

  abbrev pub as_admin : App → BoltStore → Result User → Gate
  as_admin a s (err e) = forbidden
  as_admin a s (ok u) =
      if u.disabled || not (u.merged_into == "")
      then forbidden
      else if is_app_admin a.app_id u.guid s
      then passed a.app_id u.guid
      else forbidden

  abbrev pub at_app : Claims → BoltStore → AppLookup → Gate
  at_app c s (not_served e) = forbidden
  at_app c s (found a) = as_admin a s (resolve_user c.subject s)

  abbrev pub with_claims : Config → BoltStore → Validated → Gate
  with_claims cfg s (bad e) = forbidden
  with_claims cfg s (good c) =
      if c.impersonated || c.azp == "" then forbidden else at_app c s (resolve_app cfg c.azp s)

  unfoldable pub require_app_admin :
      Config → (String → Option Claims) → Time → String → BoltStore → Gate
  unfolding validate_access_token
  require_app_admin cfg parse now token s =
      with_claims cfg s (validate_access_token parse now token s)
