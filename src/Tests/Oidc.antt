-- ===== src/Tests/Oidc.antt =====
-- The token endpoint, the authorize endpoint, introspection and logout on small requests.
use simple_auth.Prelude.{
  String, ◌≡◌, ◌≢◌, false, ◌⊎◌, refl, true, false, none, some, List, [], ◌∷◌, arith, eq_iff,
  if◌then◌else◌, ◌==◌,
}
use simple_auth.Outcome.{ok}
use simple_auth.Bolt.{read, put_raw}
use simple_auth.Bolt.Assoc.{assoc_bolt}
use simple_auth.Store.Types.{User, App, OidcAuthCode}
use simple_auth.Store.State.{BoltStore}
use simple_auth.Store.Users.{create_user, get_user, resolve_loop, resolve_user}
use simple_auth.Store.Mappings.{
  set_identity_mapping, mapping_key, add_mapping_to_index, get_mappings_for_user,
}
use simple_auth.Store.Apps.{
  create_app, get_app, get_app_authz, save_app_authz, add_app_admin, app_admin_key,
}
use simple_auth.Store.Audit.{write_audit_log}
use simple_auth.Store.Tokens.{save_oidc_auth_code, consume_oidc_auth_code, save_refresh_token}
use simple_auth.Handler.State.{HandlerState}
use simple_auth.Handler.Request.{Request}
use simple_auth.Handler.Redirect.{verify_pkce}
use simple_auth.Handler.Roles.{
  found, granted, any_assigned, user_assignment_keys, resolve_app, resolve_token_roles,
}
use simple_auth.Handler.Act.{done, refused, refuse_if, effect, some_or, call, fetch}
use simple_auth.Handler.Guards.{serve_app, grant_roles}
use simple_auth.Oidc.{oidc_issuer, oidc_base_url, host_matches}
use simple_auth.Oidc.Tokens.{build_oidc_access_claims, issue_oidc_tokens}
use simple_auth.Oidc.Grants.{invalid_grant, exchange_code, handle_oidc_token_auth_code}
use simple_auth.Oidc.Grants.Exchange.{
  handle_oidc_token_auth_code-done, handle_oidc_token_auth_code-twice,
}
use simple_auth.Oidc.Authorize.Params.{value_in}
use simple_auth.Tests.Handler.{env, config, state, with_authz}
use simple_auth.Tests.Requests.{mint}

abbrev pub request : List (String × String) → Request
request values = record {
  method = "POST";
  form_parses = true;
  form_value = value_in values;
  query = value_in values;
  basic_password = none;
  csrf_cookie = some "csrf";
  session_cookies = [];
  sso_attempted = none;
  user_agent = "";
  host = "auth.example";
  forwarded_proto = "";
  from_trusted_proxy = false;
  split_host = λ s. none;
  equal_fold = λ s t. s == t;
  has_query = λ s. false;
  query_escape = λ s. s;
  encode = λ l. "";
}

-- A code of the user "g1" for the app "a", bound to a redirect URI and to a challenge.
abbrev code : OidcAuthCode
code = record {
  code = "c";
  user_guid = "g1";
  app_id = "a";
  redirect_uri = "https://a/cb";
  scope = "";
  nonce = "n";
  code_challenge = "hv";
  code_challenge_method = "S256";
  expires_at = 50;
  created_at = 10;
}

abbrev code_state : HandlerState
code_state = record state { store = (save_oidc_auth_code code with_authz).1 }

abbrev exchange : Request
exchange = request (("code", "c") ∷ ("redirect_uri", "https://a/cb") ∷ ("code_verifier", "v") ∷ [])

abbrev challenge_of : String → String
challenge_of verifier = if verifier == "v" then "hv" else ""

code_exchanged :
    handle_oidc_token_auth_code env config mint
      (λ t. "")
      challenge_of
      (λ t. none)
      "x"
      exchange
      code_state
    ≡ (
      done (record {
        access_token = "access";
        refresh_token = some "refresh";
        id_token = some "access";
        scope = "openid profile email";
      }),
      (handle_oidc_token_auth_code env config mint
          (λ t. "")
          challenge_of
          (λ t. none)
          "x"
          exchange
          code_state).1,
    )
unfolding handle_oidc_token_auth_code exchange_code issue_oidc_tokens build_oidc_access_claims
    oidc_issuer oidc_base_url host_matches verify_pkce call consume_oidc_auth_code
    save_oidc_auth_code fetch resolve_user save_app_authz set_identity_mapping mapping_key
    create_user add_app_admin create_app add_mapping_to_index serve_app resolve_app put_raw read
    effect some_or grant_roles any_assigned resolve_token_roles user_assignment_keys app_admin_key
    get_app get_app_authz write_audit_log get_mappings_for_user get_user resolve_loop assoc_bolt
    refuse_if save_refresh_token
code_exchanged = refl

handle_oidc_token_auth_code-done_example :
    (ac : OidcAuthCode) × (u : User) × (a : App) × (lists : List String × List String)
    × (s : BoltStore) × (consume_oidc_auth_code 20 "c" code_state.store ≡ (ok ac, s))
    × ((ac.redirect_uri ≡ "") ⊎ (ac.redirect_uri ≡ "https://a/cb"))
    × ((ac.code_challenge ≡ "")
        ⊎ (verify_pkce challenge_of "v" ac.code_challenge ac.code_challenge_method ≡ true))
    × (resolve_user ac.user_guid s ≡ ok u)
    × (resolve_app config ac.app_id s ≡ found a)
    × (resolve_token_roles config a u s ≡ granted lists.0 lists.1)
handle_oidc_token_auth_code-done_example =
    handle_oidc_token_auth_code-done env config mint (λ t. "") challenge_of (λ t. none) "x" exchange
      code_state code_exchanged

code_taken : (consume_oidc_auth_code 20 "c" code_state.store).0 ≡ ok code
unfolding call consume_oidc_auth_code save_oidc_auth_code fetch resolve_user save_app_authz
    set_identity_mapping mapping_key create_user add_app_admin create_app add_mapping_to_index
    serve_app resolve_app put_raw read effect some_or grant_roles any_assigned resolve_token_roles
    user_assignment_keys app_admin_key get_app get_app_authz write_audit_log get_mappings_for_user
    get_user resolve_loop assoc_bolt refuse_if save_refresh_token
code_taken = refl

c_not_blank : exchange.form_value "code" ≢ ""
c_not_blank e = ground (arith, eq_iff "c" "")

handle_oidc_token_auth_code-twice_example :
    (handle_oidc_token_auth_code env config mint
      (λ t. "")
      challenge_of
      (λ t. none)
      "x"
      exchange
      (handle_oidc_token_auth_code env config mint
        (λ t. "")
        challenge_of
        (λ t. none)
        "x"
        exchange
        code_state).1).0
    ≡ refused invalid_grant
handle_oidc_token_auth_code-twice_example =
    handle_oidc_token_auth_code-twice env config mint (λ t. "") challenge_of (λ t. none) "x"
      exchange mint exchange code_state c_not_blank refl code_taken
