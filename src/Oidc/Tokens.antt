-- ===== src/Oidc/Tokens.antt =====
-- internal/handler/oidc.go: buildOIDCAccessClaims and issueOIDCTokens.
use simple_auth.Prelude.{String, Option, some, List, [], ◌∷◌, if◌then◌else◌, ◌==◌}
use simple_auth.Bolt.{Bbolt}
use simple_auth.Store.Types.{User, App}
use simple_auth.Store.Tokens.{save_refresh_token}
use simple_auth.Handler.State.{Config}
use simple_auth.Handler.Roles.{app_audience}
use simple_auth.Handler.Jwt.{
  Claims, no_claims, Mint, issue_access_token_with_issuer, issue_refresh_token, issue_id_token,
}
use simple_auth.Handler.Issue.{new_refresh_token, audit}
use simple_auth.Handler.Act.{Refusal, http_error, Act, ◌>>=◌, ◌>>◌, reply, some_or, call, effect}
use simple_auth.Handler.Guards.{grant_roles}
use simple_auth.Handler.Request.{Request}
use simple_auth.Oidc.{oidc_issuer}

-- What the token endpoint answers; a client-credentials grant has no refresh and no ID token.
pub record TokenSet : Type 0 where
  pub access_token : String
  pub refresh_token : Option String
  pub id_token : Option String
  pub scope : String

abbrev pub server_error : Refusal
server_error = http_error 500 "server_error"

abbrev pub access_denied : Refusal
access_denied = http_error 403 "access_denied"

abbrev pub email_or_name : User → String
email_or_name u = if u.email == "" then u.display_name else u.email

abbrev pub scope_or_default : String → String
scope_or_default scope = if scope == "" then "openid profile email" else scope

unfoldable pub build_oidc_access_claims :
    User → (roles perms groups : List String) → String → App → Claims
build_oidc_access_claims u roles perms groups scope a = record no_claims {
  name = u.display_name;
  email = u.email;
  department = u.department;
  company = u.company;
  job_title = u.job_title;
  sam_account_name = u.sam_account_name;
  roles = roles;
  permissions = perms;
  groups = groups;
  preferred_username = email_or_name u;
  typ = "Bearer";
  azp = a.app_id;
  scope = scope_or_default scope;
  realm_access = some roles;
  resource_access = (a.app_id, roles) ∷ [];
  subject = u.guid;
  audience = app_audience a ∷ [];
}

-- `at_hash` is ComputeAtHash, a hash of the access token.
abbrev pub id_claims : (String → String) → User → String → String → App → Claims
id_claims at_hash u nonce access a = record no_claims {
  name = u.display_name;
  email = u.email;
  preferred_username = email_or_name u;
  nonce = nonce;
  at_hash = at_hash access;
  typ = "ID";
  azp = a.app_id;
  subject = u.guid;
  audience = app_audience a ∷ [];
}

module _ ⦃bolt : Bbolt⦄ (cfg : Config) (mint : Mint) (at_hash : String → String)
    (req : Request) where
  unfoldable pub issue_oidc_tokens : User → String → String → App → Act TokenSet
  unfolding build_oidc_access_claims
  issue_oidc_tokens u scope nonce a = do
    grant ← grant_roles access_denied cfg a u
    let issuer = oidc_issuer cfg req
    let claims = build_oidc_access_claims u grant.0 grant.1 [] scope a
    access ←
        some_or server_error (issue_access_token_with_issuer mint claims mint.access_ttl issuer)
    refresh ← some_or server_error (issue_refresh_token mint u.guid "")
    call server_error (save_refresh_token (new_refresh_token mint u "" a.app_id (app_audience a)))
    id ←
        some_or server_error
          (issue_id_token mint (id_claims at_hash u nonce access a) mint.access_ttl issuer)
    effect (audit mint "oidc_token" u.guid (("flow", "oidc") ∷ []))
    reply (record {
      access_token = access;
      refresh_token = some refresh;
      id_token = some id;
      scope = scope_or_default scope;
    })
