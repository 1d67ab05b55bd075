-- ===== src/Tests/Grants.antt =====
-- The refresh and the password grant of the token endpoint, on small requests.
use simple_auth.Prelude.{◌≡◌, ◌≢◌, ◌⊎◌, refl, true, none, some, [], ◌∷◌}
use simple_auth.Outcome.{ok}
use simple_auth.Bolt.{read, put_raw}
use simple_auth.Bolt.Assoc.{assoc_bolt}
use simple_auth.Store.Types.{User, App, RefreshToken}
use simple_auth.Store.Users.{create_user, get_user, resolve_loop, resolve_user}
use simple_auth.Store.Mappings.{
  set_identity_mapping, mapping_key, add_mapping_to_index, get_mappings_for_user, resolve_mapping,
}
use simple_auth.Store.Roles.{get_ldap_config}
use simple_auth.Store.Apps.{
  create_app, get_app, get_app_authz, save_app_authz, add_app_admin, app_admin_key,
}
use simple_auth.Store.Audit.{write_audit_log}
use simple_auth.Store.Tokens.{
  save_oidc_auth_code, consume_oidc_auth_code, save_refresh_token, consumed, consume_refresh_token,
  is_user_access_revoked,
}
use simple_auth.Handler.State.{HandlerState, Config}
use simple_auth.Handler.Limiter.{allow}
use simple_auth.Handler.Lockout.{is_account_locked}
use simple_auth.Handler.Request.{Request}
use simple_auth.Handler.Directory.{
  is_directory_backed, has_foreign_provider, get_ldap_config_decrypted, directory_account_disabled,
}
use simple_auth.Handler.Login.{app_local_user, mapped_user, authenticate_user, finish}
use simple_auth.Handler.Login.Sound.{DirectoryAgrees, PasswordAgrees}
use simple_auth.Handler.Roles.{
  found, any_assigned, user_assignment_keys, resolve_app, resolve_token_roles,
}
use simple_auth.Handler.Jwt.{Claims}
use simple_auth.Handler.Act.{done, refuse_if, effect, some_or, call, fetch, rate_limit}
use simple_auth.Handler.Guards.{serve_app, grant_roles, refuse_inactive, refuse_revoked}
use simple_auth.Handler.Signin.{log_in}
use simple_auth.Oidc.{oidc_issuer, oidc_base_url, host_matches}
use simple_auth.Oidc.Clients.{
  presented_client_secret, authenticate_confidential_client, oidc_confidential_enabled,
}
use simple_auth.Oidc.Clients.Secret.{Knows, authenticate_confidential_client-Knows}
use simple_auth.Oidc.Tokens.{build_oidc_access_claims, issue_oidc_tokens}
use simple_auth.Oidc.Grants.{redeem_token, handle_oidc_token_refresh, handle_oidc_token_password}
use simple_auth.Oidc.Grants.Sound.{
  IsOpen, counted, handle_oidc_token_refresh-done, handle_oidc_token_password-done,
}
use simple_auth.Tests.Apps.{app}
use simple_auth.Tests.Handler.{env, config, state, with_authz}
use simple_auth.Tests.Requests.{mint, refresh_claims, refresh_state}
use simple_auth.Tests.Oidc.{request}

abbrev refreshing : Request
refreshing = request (("refresh_token", "t") ∷ [])

token_redeemed :
    handle_oidc_token_refresh env config mint
      (λ t. "")
      (λ v. "")
      (λ t. some refresh_claims)
      "x"
      refreshing
      refresh_state
    ≡ (
      done (record {
        access_token = "access";
        refresh_token = some "refresh";
        id_token = none;
        scope = "";
      }),
      (handle_oidc_token_refresh env config mint
          (λ t. "")
          (λ v. "")
          (λ t. some refresh_claims)
          "x"
          refreshing
          refresh_state).1,
    )
unfolding handle_oidc_token_refresh redeem_token refuse_inactive refuse_revoked
    consume_refresh_token directory_account_disabled is_directory_backed has_foreign_provider
    get_ldap_config_decrypted get_ldap_config is_user_access_revoked issue_oidc_tokens
    build_oidc_access_claims oidc_issuer oidc_base_url host_matches call consume_oidc_auth_code
    save_oidc_auth_code fetch resolve_user save_app_authz set_identity_mapping mapping_key
    create_user add_app_admin create_app add_mapping_to_index serve_app resolve_app put_raw read
    effect some_or grant_roles any_assigned resolve_token_roles user_assignment_keys app_admin_key
    get_app get_app_authz write_audit_log get_mappings_for_user get_user resolve_loop assoc_bolt
    refuse_if save_refresh_token
token_redeemed = refl

handle_oidc_token_refresh-done_example :
    (c : Claims) × (rt : RefreshToken) × (u : User) × (a : App) × (some refresh_claims ≡ some c)
    × ((consume_refresh_token c.id refresh_state.store).0 ≡ consumed rt)
    × (resolve_user c.subject (consume_refresh_token c.id refresh_state.store).1 ≡ ok u)
    × IsOpen env config mint
        (λ t. "")
        (λ v. "")
        (λ t. some refresh_claims)
        "x"
        refreshing
        rt
        u
        a
        (record refresh_state { store = (consume_refresh_token c.id refresh_state.store).1 })
handle_oidc_token_refresh-done_example =
    handle_oidc_token_refresh-done env config mint (λ t. "") (λ v. "") (λ t. some refresh_claims)
      "x" refreshing refresh_state token_redeemed

-- An app without a secret of its own falls back on the configured one.
abbrev pub confidential : Config
confidential = record config { client_secret = "sesame" }

abbrev pub trusted : Request
trusted = request (
    ("client_id", "a")
    ∷ ("client_secret", "sesame")
    ∷ ("username", "alice")
    ∷ ("password", "hash")
    ∷ ("token", "j")
    ∷ [])

abbrev pub login_state : HandlerState
login_state = record state { store = (set_identity_mapping "local" "alice" "g1" with_authz).1 }

client_admitted :
    authenticate_confidential_client env confidential trusted login_state ≡ (done app, login_state)
unfolding authenticate_confidential_client oidc_confidential_enabled presented_client_secret call
    consume_oidc_auth_code save_oidc_auth_code fetch resolve_user save_app_authz
    set_identity_mapping mapping_key create_user add_app_admin create_app add_mapping_to_index
    serve_app resolve_app put_raw read effect some_or grant_roles any_assigned resolve_token_roles
    user_assignment_keys app_admin_key get_app get_app_authz write_audit_log get_mappings_for_user
    get_user resolve_loop assoc_bolt refuse_if save_refresh_token
client_admitted = refl

authenticate_confidential_client-Knows_example :
    (resolve_app confidential "a" login_state.store ≡ found app)
    × (presented_client_secret trusted ≢ "")
    × Knows env confidential app (presented_client_secret trusted)
    × (login_state ≡ login_state)
authenticate_confidential_client-Knows_example =
    authenticate_confidential_client-Knows env confidential trusted login_state client_admitted

password_taken :
    handle_oidc_token_password env confidential mint
      (λ t. "")
      (λ v. "")
      (λ t. none)
      "x"
      trusted
      login_state
    ≡ (
      done (record {
        access_token = "access";
        refresh_token = some "refresh";
        id_token = some "access";
        scope = "openid profile email";
      }),
      (handle_oidc_token_password env confidential mint
          (λ t. "")
          (λ v. "")
          (λ t. none)
          "x"
          trusted
          login_state).1,
    )
unfolding handle_oidc_token_password log_in rate_limit allow authenticate_user finish
    is_account_locked authenticate_confidential_client oidc_confidential_enabled
    presented_client_secret issue_oidc_tokens build_oidc_access_claims oidc_issuer oidc_base_url
    host_matches directory_account_disabled is_directory_backed has_foreign_provider
    get_ldap_config_decrypted get_ldap_config resolve_mapping call consume_oidc_auth_code
    save_oidc_auth_code fetch resolve_user save_app_authz set_identity_mapping mapping_key
    create_user add_app_admin create_app add_mapping_to_index serve_app resolve_app put_raw read
    effect some_or grant_roles any_assigned resolve_token_roles user_assignment_keys app_admin_key
    get_app get_app_authz write_audit_log get_mappings_for_user get_user resolve_loop assoc_bolt
    refuse_if save_refresh_token
password_taken = refl

handle_oidc_token_password-done_example :
    (a : App) × (s : HandlerState) × (resolve_app confidential "a" login_state.store ≡ found a)
    × Knows env confidential a (presented_client_secret trusted)
    × ((allow 20 "ip" login_state.login_limiter).0 ≡ true)
    × (s ≡ counted env confidential mint (λ t. "") (λ v. "") (λ t. none) "x" trusted login_state)
    × (((u : User) × ((app_local_user (some a) "alice" s ≡ some u)
            ⊎ (mapped_user "local" "alice" s ≡ some u))
          × PasswordAgrees env confidential "x" 20 "alice" "hash" u s)
        ⊎ DirectoryAgrees env confidential "x" 20 "alice" "hash")
handle_oidc_token_password-done_example =
    handle_oidc_token_password-done env confidential mint (λ t. "") (λ v. "") (λ t. none) "x"
      trusted login_state password_taken
