-- ===== src/Handler/Issue.antt =====
-- internal/handler/auth.go: issueTokenPair and resolvePreferredUsername; and `audit` of handler.go.
use simple_auth.Prelude.{String, false, not, Option, none, some, List, [], ◌∷◌, if◌then◌else◌, ◌==◌}
use simple_auth.Outcome.{Result, ok, err}
use simple_auth.Bolt.{Bbolt}
use simple_auth.Store.Types.{User, App, RefreshToken, IdentityMapping, AuditEntry}
use simple_auth.Store.State.{BoltStore}
use simple_auth.Store.Mappings.{get_mappings_for_user}
use simple_auth.Store.Tokens.{save_refresh_token}
use simple_auth.Store.Audit.{write_audit_log}
use simple_auth.Handler.State.{HandlerState, exec}
use simple_auth.Handler.Limiter.{add_duration}
use simple_auth.Handler.Jwt.{
  Claims, no_claims, Mint, family_or_new, issue_access_token, issue_refresh_token,
}
use simple_auth.Handler.Directory.{list_or_nil, first_ldap_name}
use simple_auth.Handler.Roles.{app_audience}

-- The first name of the provider "local".
unfoldable pub first_local_name : List IdentityMapping → Option String
first_local_name [] = none
first_local_name (m ∷ l) =
    let rest = first_local_name l in if m.provider == "local" then some m.external_id else rest

abbrev pub preferred_among : User → List IdentityMapping → Option String → String
preferred_among u l (some name) = name
preferred_among u l none =
    if not (first_ldap_name l == "")
    then first_ldap_name l
    else if not (u.email == "")
    then u.email
    else u.display_name

-- The record of a new refresh token.
abbrev pub new_refresh_token : Mint → User → String → String → String → RefreshToken
new_refresh_token mint u family app_id audience = record {
  token_id = mint.token_id;
  family_id = family_or_new mint family;
  user_guid = u.guid;
  used = false;
  expires_at = add_duration mint.now mint.refresh_ttl;
  created_at = mint.now;
  app_id = app_id;
  audience = audience;
}

module _ ⦃bolt : Bbolt⦄ where
  unfoldable pub resolve_preferred_username : User → BoltStore → String
  unfolding first_local_name
  resolve_preferred_username u s =
      let l = list_or_nil (get_mappings_for_user u.guid s) in
      preferred_among u l (first_local_name l)

  unfoldable pub audit :
      Mint → String → String → List (String × String) → HandlerState → HandlerState
  audit mint event actor details st =
      let blank : AuditEntry = record {
        id = "";
        timestamp = 0;
        event = event;
        actor = actor;
        ip = mint.ip;
        details = details;
      } in
      exec (write_audit_log mint.format_nano mint.audit_id mint.now blank) st

  -- The claims that the issuers of access tokens set.
  abbrev pub claims_of : User → BoltStore → List String → List String → Claims
  claims_of u s roles perms = record no_claims {
    guid = u.guid;
    name = u.display_name;
    email = u.email;
    department = u.department;
    company = u.company;
    job_title = u.job_title;
    sam_account_name = u.sam_account_name;
    roles = roles;
    permissions = perms;
    preferred_username = resolve_preferred_username u s;
    subject = u.guid;
  }

  -- The two signatures, then the record of the refresh token: all or an error.
  abbrev pub saved :
      String → String → Result (Unit {0}) × BoltStore → Option (String × String) × BoltStore
  saved access refresh (ok u, s) = (some (access, refresh), s)
  saved access refresh (err e, s) = (none, s)

  abbrev pub signed :
      RefreshToken
      → Option String
      → Option String
      → BoltStore
      → Option (String × String) × BoltStore
  signed rt (some access) (some refresh) s = saved access refresh (save_refresh_token rt s)
  signed rt none refresh s = (none, s)
  signed rt (some access) none s = (none, s)

  abbrev pub issue :
      Mint → User → Claims → RefreshToken → BoltStore → Option (String × String) × BoltStore
  issue mint u claims rt s =
      signed rt (issue_access_token mint claims mint.access_ttl)
        (issue_refresh_token mint u.guid rt.family_id) s

  abbrev pub audience_of : Option App → List String
  audience_of none = []
  audience_of (some a) = app_audience a ∷ []

  abbrev pub azp_of : Option App → String
  azp_of none = ""
  azp_of (some a) = a.app_id

  abbrev pub bound_audience : Option App → String
  bound_audience none = ""
  bound_audience (some a) = app_audience a

  unfoldable pub issue_token_pair :
      Mint
      → User
      → (roles perms groups : List String) → Option App
      → BoltStore
      → Option (String × String) × BoltStore
  issue_token_pair mint u roles perms groups app s =
      issue mint u
        (record (claims_of u s roles perms) {
          groups = groups;
          audience = audience_of app;
          azp = azp_of app;
        })
        (new_refresh_token mint u "" (azp_of app) (bound_audience app)) s
