-- ===== src/Oidc/Grants.antt =====
-- internal/handler/oidc.go: the token endpoint, handleOIDCToken and one handler for each grant.
pub mod Exchange
pub mod Sound
pub mod Served
use simple_auth.Prelude.{
  String, Bool, true, false, not, ◌&&◌, ◌||◌, Option, none, some, List, [], ◌∷◌, if◌then◌else◌,
  ◌==◌,
}
use simple_auth.Outcome.{Result, ok, err}
use simple_auth.Bolt.{Bbolt}
use simple_auth.Store.Types.{Time, User, App, OidcAuthCode, RefreshToken}
use simple_auth.Store.State.{BoltStore}
use simple_auth.Store.Users.{resolve_user}
use simple_auth.Store.Tokens.{
  Consumed, consumed, reused, failed, consume_refresh_token, revoke_token_family,
  save_refresh_token, consume_oidc_auth_code,
}
use simple_auth.Handler.State.{Config, Env, HandlerState, exec}
use simple_auth.Handler.Signin.{log_in}
use simple_auth.Handler.Roles.{app_audience}
use simple_auth.Handler.Redirect.{verify_pkce}
use simple_auth.Handler.Jwt.{
  Claims, no_claims, Mint, issue_access_token_with_issuer, issue_refresh_token,
}
use simple_auth.Handler.Issue.{new_refresh_token, audit}
use simple_auth.Handler.Act.{
  Refusal, http_error, Act, ◌>>=◌, ◌>>◌, reply, refuse, refuse_if, some_or, call, fetch, effect,
  rate_limit, after, Answer, done,
}
use simple_auth.Handler.Act as Act
use simple_auth.Handler.Guards.{serve_app, grant_roles, refuse_inactive, refuse_revoked}
use simple_auth.Handler.Request.{Request}
use simple_auth.Oidc.{oidc_issuer}
use simple_auth.Oidc.Clients.{authenticate_oidc_client, authenticate_confidential_client}
use simple_auth.Oidc.Tokens.{
  TokenSet, server_error, access_denied, build_oidc_access_claims, issue_oidc_tokens,
}

abbrev pub invalid_request : Refusal
invalid_request = http_error 400 "invalid_request"

abbrev pub invalid_grant : Refusal
invalid_grant = http_error 400 "invalid_grant"

abbrev pub grant_unauthorized : Refusal
grant_unauthorized = http_error 401 "invalid_grant"

abbrev pub too_many_requests : Refusal
too_many_requests = http_error 429 "invalid_request"

module _ ⦃bolt : Bbolt⦄ where
  -- A replay revokes the family of the token.
  abbrev redeem : Consumed × BoltStore → Act RefreshToken
  redeem (consumed rt, s) st = (done rt, record st { store = s })
  redeem (reused rt, s) st = (
    Act.refused grant_unauthorized,
    exec (revoke_token_family rt.family_id) (record st { store = s }),
  )
  redeem (failed e, s) st = (Act.refused grant_unauthorized, record st { store = s })

  unfoldable pub redeem_token : String → Act RefreshToken
  redeem_token id st = redeem (consume_refresh_token id st.store) st

module _ ⦃bolt : Bbolt⦄ (env : Env) (cfg : Config) (mint : Mint) (at_hash : String → String)
    (challenge_of : String → String) (parse : String → Option Claims) (fresh : String)
    (req : Request) where
  -- A code that is bound to a redirect URI or to a challenge is exchanged only with these.
  abbrev pub is_other_redirect : OidcAuthCode → String → Bool
  is_other_redirect ac redirect_uri =
      not (ac.redirect_uri == "") && not (ac.redirect_uri == redirect_uri)

  abbrev pub fails_pkce : OidcAuthCode → String → Bool
  fails_pkce ac verifier =
      not (ac.code_challenge == "")
      && not (verify_pkce challenge_of verifier ac.code_challenge ac.code_challenge_method)

  -- What follows the consumption of the code.
  unfoldable pub exchange_code : OidcAuthCode → Act TokenSet
  exchange_code ac = do
    refuse_if (is_other_redirect ac (req.form_value "redirect_uri")) invalid_grant
    refuse_if (fails_pkce ac (req.form_value "code_verifier")) invalid_grant
    u ← fetch server_error (resolve_user ac.user_guid)
    a ← serve_app invalid_grant cfg ac.app_id
    issue_oidc_tokens cfg mint at_hash req u ac.scope ac.nonce a

  unfoldable pub handle_oidc_token_auth_code : Act TokenSet
  handle_oidc_token_auth_code = do
    authenticate_oidc_client req
    let code = req.form_value "code"
    refuse_if (code == "") invalid_request
    ac ← call invalid_grant (consume_oidc_auth_code mint.now code)
    exchange_code ac

  unfoldable pub handle_oidc_token_password : Act TokenSet
  handle_oidc_token_password = do
    a ← authenticate_confidential_client env cfg req
    let username = req.form_value "username"
    let password = req.form_value "password"
    refuse_if (username == "" || password == "") invalid_request
    rate_limit mint.now mint.ip too_many_requests
    login ←
        log_in grant_unauthorized env cfg mint fresh username password
          (("flow", "oidc_password") ∷ []) a
    u ← fetch server_error (resolve_user login.0)
    refuse_if u.disabled grant_unauthorized
    issue_oidc_tokens cfg mint at_hash req u (req.form_value "scope") "" a

  abbrev pub service_claims : App → Claims
  service_claims a = record no_claims {
    typ = "Bearer";
    scope = req.form_value "scope";
    subject = a.app_id;
    audience = app_audience a ∷ [];
  }

  unfoldable pub handle_oidc_token_client_credentials : Act TokenSet
  handle_oidc_token_client_credentials = do
    rate_limit mint.now mint.ip too_many_requests
    a ← authenticate_confidential_client env cfg req
    access ← some_or server_error (
        issue_access_token_with_issuer mint (service_claims a) mint.access_ttl
          (oidc_issuer cfg req))
    effect (audit mint "oidc_token" a.app_id (("grant_type", "client_credentials") ∷ []))
    reply (record {
      access_token = access;
      refresh_token = none;
      id_token = none;
      scope = req.form_value "scope";
    })

  unfoldable pub handle_oidc_token_refresh : Act TokenSet
  handle_oidc_token_refresh = do
    authenticate_oidc_client req
    let token = req.form_value "refresh_token"
    refuse_if (token == "") invalid_request
    c ← some_or grant_unauthorized (parse token)
    rt ← redeem_token c.id
    u ← fetch grant_unauthorized (resolve_user c.subject)
    refuse_inactive grant_unauthorized env cfg mint.now u
    refuse_revoked grant_unauthorized mint.now u.guid
    a ← serve_app grant_unauthorized cfg rt.app_id
    grant ← grant_roles access_denied cfg a u
    access ← some_or server_error (
        issue_access_token_with_issuer mint (build_oidc_access_claims u grant.0 grant.1 [] "" a)
          mint.access_ttl (oidc_issuer cfg req))
    refresh ← some_or server_error (issue_refresh_token mint u.guid rt.family_id)
    call server_error
        (save_refresh_token (new_refresh_token mint u rt.family_id rt.app_id rt.audience))
    reply (record {
      access_token = access;
      refresh_token = some refresh;
      id_token = none;
      scope = req.form_value "scope";
    })

  unfoldable pub handle_oidc_token : Act TokenSet
  handle_oidc_token =
      let grant_type = req.form_value "grant_type" in
      if not req.form_parses
      then refuse invalid_request
      else if grant_type == "authorization_code"
      then handle_oidc_token_auth_code
      else if grant_type == "client_credentials"
      then handle_oidc_token_client_credentials
      else if grant_type == "password"
      then handle_oidc_token_password
      else if grant_type == "refresh_token"
      then handle_oidc_token_refresh
      else refuse (http_error 400 "unsupported_grant_type")
