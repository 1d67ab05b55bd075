-- ===== src/Tests/Endpoints.antt =====
-- The redirect with a code, introspection and logout, on small requests.
use simple_auth.Prelude.{◌≡◌, ◌≢◌, refl, true, false, none, some, [], ◌∷◌}
use simple_auth.Outcome.{ok}
use simple_auth.Bolt.{read, put_raw, prune}
use simple_auth.Handler.Sessions.{delete_current_session}
use simple_auth.Handler.Issue.{audit}
use simple_auth.Bolt.Assoc.{assoc_bolt}
use simple_auth.Store.Types.{App}
use simple_auth.Store.Users.{create_user, get_user, resolve_loop, resolve_user}
use simple_auth.Store.Mappings.{
  set_identity_mapping, mapping_key, add_mapping_to_index, get_mappings_for_user,
}
use simple_auth.Store.Apps.{
  create_app, get_app, get_app_authz, save_app_authz, add_app_admin, app_admin_key,
}
use simple_auth.Store.Audit.{write_audit_log}
use simple_auth.Store.Tokens.{
  save_oidc_auth_code, consume_oidc_auth_code, save_refresh_token, is_user_access_revoked,
  is_access_token_revoked, get_refresh_token, is_active, list_user_sessions, revoke_token_family,
  delete_user_sessions, active_of,
}
use simple_auth.Handler.State.{HandlerState, Config}
use simple_auth.Handler.Request.{Request}
use simple_auth.Handler.Redirect.{is_allowed_redirect, app_allows_redirect}
use simple_auth.Handler.Roles.{any_assigned, user_assignment_keys, resolve_app, resolve_token_roles}
use simple_auth.Handler.Jwt.{Claims, no_claims}
use simple_auth.Handler.Access.{validate_access_token}
use simple_auth.Handler.Access.Admitted.{IsAccess}
use simple_auth.Handler.Act.{done, refuse_if, effect, some_or, call, fetch, look}
use simple_auth.Handler.Guards.{serve_app, grant_roles}
use simple_auth.Oidc.Clients.{
  presented_client_secret, require_confidential_client, oidc_confidential_enabled,
}
use simple_auth.Oidc.Authorize.{redirected}
use simple_auth.Oidc.Authorize.Params.{
  AuthzRequest, parse_authz_request, value_in, retry_values, kept, parse_authz_request-retry_values,
}
use simple_auth.Oidc.Resource.{Active, no_audience, active, handle_oidc_introspect}
use simple_auth.Oidc.Resource.Sound.{handle_oidc_introspect-active}
use simple_auth.Oidc.Logout.{
  LoggedOut, form_or_query, revoke_families, end_sessions, handle_oidc_logout,
}
use simple_auth.Oidc.Logout.Effects.{handle_oidc_logout-revoked, handle_oidc_logout-redirected}
use simple_auth.Tests.Tokens.{token}
use simple_auth.Tests.Handler.{env, config, state, claims, with_authz}
use simple_auth.Tests.Requests.{mint}
use simple_auth.Tests.Oidc.{request}
use simple_auth.Tests.Grants.{confidential, trusted}

abbrev asked : AuthzRequest
asked = record {
  client_id = "a";
  redirect_uri = "https://a/cb";
  state = "s";
  nonce = "n";
  scope = "openid";
  code_challenge = "hv";
  code_challenge_method = "S256";
  prompt = "";
}

parse_authz_request-retry_values_example :
    parse_authz_request (value_in (retry_values "Invalid credentials" asked)) ≡ kept asked
parse_authz_request-retry_values_example =
    parse_authz_request-retry_values "Invalid credentials" asked

abbrev pub listed : Config
listed = record config { redirect_uris = "https://a/cb" ∷ [] }

abbrev served_state : HandlerState
served_state = record state { store = with_authz }

abbrev answer : Active
answer = record {
  sub = "g1";
  iss = "";
  exp = 0;
  iat = 0;
  scope = "";
  client_id = some "a";
  aud = no_audience;
  preferred_username = none;
  name = none;
  email = none;
}

token_active :
    handle_oidc_introspect confidential (λ t. some claims) 20 trusted served_state
    ≡ (done (active answer), served_state)
unfolding handle_oidc_introspect require_confidential_client oidc_confidential_enabled
    presented_client_secret look validate_access_token is_user_access_revoked
    is_access_token_revoked call consume_oidc_auth_code save_oidc_auth_code fetch resolve_user
    save_app_authz set_identity_mapping mapping_key create_user add_app_admin create_app
    add_mapping_to_index serve_app resolve_app put_raw read effect some_or grant_roles any_assigned
    resolve_token_roles user_assignment_keys app_admin_key get_app get_app_authz write_audit_log
    get_mappings_for_user get_user resolve_loop assoc_bolt refuse_if save_refresh_token
token_active = refl

handle_oidc_introspect-active_example :
    (c : Claims) × (some claims ≡ some c)
    × IsAccess 20 served_state.store c
    × (answer.sub ≡ c.subject)
    × (answer.scope ≡ c.scope)
    × (confidential.client_secret ≢ "")
    × (presented_client_secret trusted ≡ confidential.client_secret)
handle_oidc_introspect-active_example =
    handle_oidc_introspect-active confidential (λ t. some claims) 20 trusted served_state
      token_active

-- The user "g1" holds two tokens, of which one is expired.
abbrev held_state : HandlerState
held_state = record state {
  store =
      (save_refresh_token (record token { user_guid = "g1" })
        (save_refresh_token
          (record token { token_id = "old"; family_id = "g"; user_guid = "g1"; expires_at = 15 })
          with_authz).1).1;
}

abbrev leaving : Request
leaving = request (("id_token_hint", "i") ∷ ("post_logout_redirect_uri", "https://a/cb") ∷ [])

abbrev id_token : Claims
id_token = record no_claims { subject = "g1"; audience = "a" ∷ []; typ = "ID" }

old_left :
    get_refresh_token "old"
      (handle_oidc_logout listed mint (λ t. some id_token) leaving held_state).2.store
    ≡ ok (record token { token_id = "old"; family_id = "g"; user_guid = "g1"; expires_at = 15 })
unfolding handle_oidc_logout end_sessions revoke_families revoke_token_family delete_user_sessions
    list_user_sessions active_of get_refresh_token delete_current_session audit prune call
    consume_oidc_auth_code save_oidc_auth_code fetch resolve_user save_app_authz
    set_identity_mapping mapping_key create_user add_app_admin create_app add_mapping_to_index
    serve_app resolve_app put_raw read effect some_or grant_roles any_assigned resolve_token_roles
    user_assignment_keys app_admin_key get_app get_app_authz write_audit_log get_mappings_for_user
    get_user resolve_loop assoc_bolt refuse_if save_refresh_token
old_left = refl

handle_oidc_logout-revoked_example :
    (is_active 20 "g1"
        (record token { token_id = "old"; family_id = "g"; user_guid = "g1"; expires_at = 15 })
      ≡ false)
    × (get_refresh_token "old" held_state.store
        ≡ ok
            (record token { token_id = "old"; family_id = "g"; user_guid = "g1"; expires_at = 15 }))
handle_oidc_logout-revoked_example =
    handle_oidc_logout-revoked env listed mint (λ t. some id_token) leaving held_state id_token
      "old" (record token { token_id = "old"; family_id = "g"; user_guid = "g1"; expires_at = 15 })
      refl refl old_left

sent_home :
    (handle_oidc_logout listed mint (λ t. some id_token) leaving held_state).0
    ≡ LoggedOut.redirected "https://a/cb"
unfolding handle_oidc_logout end_sessions revoke_families revoke_token_family delete_user_sessions
    list_user_sessions active_of get_refresh_token delete_current_session audit prune
    app_allows_redirect is_allowed_redirect call consume_oidc_auth_code save_oidc_auth_code fetch
    resolve_user save_app_authz set_identity_mapping mapping_key create_user add_app_admin
    create_app add_mapping_to_index serve_app resolve_app put_raw read effect some_or grant_roles
    any_assigned resolve_token_roles user_assignment_keys app_admin_key get_app get_app_authz
    write_audit_log get_mappings_for_user get_user resolve_loop assoc_bolt refuse_if
    save_refresh_token
sent_home = refl

handle_oidc_logout-redirected_example :
    (a : App) × (s : HandlerState) × (form_or_query leaving "post_logout_redirect_uri"
      ≡ "https://a/cb")
    × (app_allows_redirect listed s.runtime_settings a "https://a/cb" ≡ true)
    × (s ≡ (handle_oidc_logout listed mint (λ t. some id_token) leaving held_state).2)
handle_oidc_logout-redirected_example =
    handle_oidc_logout-redirected env listed mint (λ t. some id_token) leaving held_state
      "https://a/cb" sent_home
