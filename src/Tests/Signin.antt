-- ===== src/Tests/Signin.antt =====
-- Sign-in, impersonation, a change of password and the classes of tokens, on small requests.
use simple_auth.Prelude.{
  String, ◌≡◌, ◌≢◌, ◌⊎◌, refl, true, false, none, some, List, [], ◌∷◌, arith, eq_iff, pos,
  is_positive, ◌&&◌,
}
use simple_auth.Outcome.{ok}
use simple_auth.Bolt.{read, put_raw}
use simple_auth.Bolt.Assoc.{assoc_bolt}
use simple_auth.Store.Types.{User, App}
use simple_auth.Store.Users.{update_user, create_user, get_user, resolve_loop, resolve_user}
use simple_auth.Store.Mappings.{
  set_identity_mapping, mapping_key, add_mapping_to_index, get_mappings_for_user, resolve_mapping,
}
use simple_auth.Store.Roles.{get_ldap_config}
use simple_auth.Store.Apps.{
  create_app, get_app, get_app_authz, save_app_authz, add_app_admin, app_admin_key,
}
use simple_auth.Store.Audit.{write_audit_log}
use simple_auth.Store.Tokens.{
  save_oidc_auth_code, consume_oidc_auth_code, save_refresh_token, is_user_access_revoked,
  is_access_token_revoked,
}
use simple_auth.Handler.State.{HandlerState}
use simple_auth.Handler.Limiter.{allow}
use simple_auth.Handler.Lockout.{is_account_locked}
use simple_auth.Handler.Request.{Request}
use simple_auth.Handler.Directory.{
  is_directory_backed, has_foreign_provider, get_ldap_config_decrypted, directory_account_disabled,
}
use simple_auth.Handler.Login.{authenticate_user, finish}
use simple_auth.Handler.Redirect.{is_allowed_redirect, app_allows_redirect}
use simple_auth.Handler.Roles.{
  found, granted, any_assigned, user_assignment_keys, resolve_app, resolve_token_roles,
}
use simple_auth.Handler.Jwt.{Claims}
use simple_auth.Handler.Access.{validate_access_token}
use simple_auth.Handler.Act.{done, refuse_if, effect, some_or, call, fetch, rate_limit, look}
use simple_auth.Handler.Guards.{refuse_redirect, serve_app, grant_roles, refuse_revoked}
use simple_auth.Handler.Signin.{log_in, audit_login}
use simple_auth.Auth.Passwords.{valid, validate_password, check_password_history}
use simple_auth.Handler.Settings.{get_password_history_count}
use simple_auth.Handler.Jwt.{registered, issue_access_token}
use simple_auth.Handler.Access.{good}
use simple_auth.Handler.Issue.{issue_token_pair, resolve_preferred_username}
use simple_auth.Handler.Roles.{app_audience}
use simple_auth.Handler.Signin.{
  LoginBody, SignedIn, Impersonation, access_claims, issue_token_response, token_pair, handle_login,
  handle_impersonate,
}
use simple_auth.Handler.Signin.Gate.{handle_impersonate-done}
use simple_auth.Handler.Hosted.{
  landed, landing, complete_hosted_login_with_session, hosted_tokens, or_login_error,
}
use simple_auth.Handler.Hosted.Targets.{complete_hosted_login_with_session-landed}
use simple_auth.Handler.Reset.{
  ResetBody, password_policy, rehashed, require_local_hash, prove_possession, handle_reset_password,
}
use simple_auth.Handler.Reset.Possession.{handle_reset_password-done}
use simple_auth.Handler.Kerberos.{Principal}
use simple_auth.Handler.Kerberos.Sso.{Kerberos}
use simple_auth.Tests.Store.{alice}
use simple_auth.Tests.Handler.{env, config, state, claims, with_authz, ascii}
use simple_auth.Tests.Requests.{mint}
use simple_auth.Tests.Oidc.{request}
use simple_auth.Tests.Endpoints.{listed}
use simple_auth.Tests.Grants.{login_state}

abbrev body : LoginBody
body = record { username = "alice"; password = "hash"; app_id = ""; client_id = "a" }

abbrev pair : SignedIn
pair = record { access_token = "access"; refresh_token = "refresh"; force_password_change = false }

alice_in :
    handle_login env config mint "x" (some body) login_state
    ≡ (done pair, (handle_login env config mint "x" (some body) login_state).1)
unfolding handle_login issue_token_response log_in rate_limit allow authenticate_user finish
    is_account_locked resolve_mapping token_pair issue_token_pair audit_login
    resolve_preferred_username directory_account_disabled is_directory_backed has_foreign_provider
    get_ldap_config_decrypted get_ldap_config call consume_oidc_auth_code save_oidc_auth_code fetch
    resolve_user save_app_authz set_identity_mapping mapping_key create_user add_app_admin
    create_app add_mapping_to_index serve_app resolve_app put_raw read effect some_or grant_roles
    any_assigned resolve_token_roles user_assignment_keys app_admin_key get_app get_app_authz
    write_audit_log get_mappings_for_user get_user resolve_loop assoc_bolt refuse_if
    save_refresh_token
alice_in = refl

abbrev target : Impersonation
target = record { target_guid = "g1"; app_id = "a" }

alice_impersonated :
    handle_impersonate config mint (some target) login_state
    ≡ (done "access", (handle_impersonate config mint (some target) login_state).1)
unfolding handle_impersonate look refuse_revoked is_user_access_revoked resolve_preferred_username
    call consume_oidc_auth_code save_oidc_auth_code fetch resolve_user save_app_authz
    set_identity_mapping mapping_key create_user add_app_admin create_app add_mapping_to_index
    serve_app resolve_app put_raw read effect some_or grant_roles any_assigned resolve_token_roles
    user_assignment_keys app_admin_key get_app get_app_authz write_audit_log get_mappings_for_user
    get_user resolve_loop assoc_bolt refuse_if save_refresh_token
alice_impersonated = refl

handle_impersonate-done_example :
    (b : Impersonation) × (u : User) × (a : App) × (c : Claims) × (some target ≡ some b)
    × (resolve_user b.target_guid login_state.store ≡ ok u)
    × (u.disabled ≡ false)
    × (is_user_access_revoked 20 u.guid login_state.store ≡ false)
    × (resolve_app config b.app_id login_state.store ≡ found a)
    × (issue_access_token mint c mint.impersonate_ttl ≡ some "access")
    × (c.impersonated ≡ true)
    × (c.subject ≡ u.guid)
    × (c.audience ≡ app_audience a ∷ [])
handle_impersonate-done_example =
    handle_impersonate-done config mint (some target) login_state alice_impersonated

abbrev returning : Request
returning = request (("client_id", "a") ∷ [])

alice_landed :
    complete_hosted_login_with_session listed returning mint alice "https://a/cb"
      (λ access refresh. access)
      login_state
    ≡ (
      done (landed "https://a/cb#access" "access" "refresh"),
      (complete_hosted_login_with_session listed returning mint alice "https://a/cb"
          (λ access refresh. access)
          login_state).1,
    )
unfolding complete_hosted_login_with_session or_login_error hosted_tokens refuse_redirect
    app_allows_redirect is_allowed_redirect token_pair issue_token_pair audit_login
    resolve_preferred_username call consume_oidc_auth_code save_oidc_auth_code fetch resolve_user
    save_app_authz set_identity_mapping mapping_key create_user add_app_admin create_app
    add_mapping_to_index serve_app resolve_app put_raw read effect some_or grant_roles any_assigned
    resolve_token_roles user_assignment_keys app_admin_key get_app get_app_authz write_audit_log
    get_mappings_for_user get_user resolve_loop assoc_bolt refuse_if save_refresh_token
alice_landed = refl

complete_hosted_login_with_session-landed_example :
    (a : App) × (lists : List String × List String) × (resolve_app listed "a" login_state.store
      ≡ found a)
    × (resolve_token_roles listed a alice login_state.store ≡ granted lists.0 lists.1)
    × ("https://a/cb#access" ≡ landing listed returning "https://a/cb" "access")
    × ((◌≡◌ {A = String} "https://a/cb" "")
        ⊎ (app_allows_redirect listed none a "https://a/cb" ≡ true))
complete_hosted_login_with_session-landed_example =
    complete_hosted_login_with_session-landed listed returning mint alice "https://a/cb"
      (λ access refresh. access) login_state alice_landed

abbrev change : ResetBody
change = record { current_password = "hash"; new_password = "Secret123" }

password_changed :
    handle_reset_password env config ascii mint (λ t. some claims) "token" (some change) login_state
    ≡ (
      done tt,
      (handle_reset_password env config ascii mint
          (λ t. some claims)
          "token"
          (some change)
          login_state).1,
    )
unfolding handle_reset_password access_claims validate_access_token is_user_access_revoked
    is_access_token_revoked look password_policy require_local_hash prove_possession update_user
    validate_password check_password_history directory_account_disabled is_directory_backed
    has_foreign_provider get_ldap_config_decrypted get_ldap_config call consume_oidc_auth_code
    save_oidc_auth_code fetch resolve_user save_app_authz set_identity_mapping mapping_key
    create_user add_app_admin create_app add_mapping_to_index serve_app resolve_app put_raw read
    effect some_or grant_roles any_assigned resolve_token_roles user_assignment_keys app_admin_key
    get_app get_app_authz write_audit_log get_mappings_for_user get_user resolve_loop assoc_bolt
    refuse_if save_refresh_token
password_changed = refl

handle_reset_password-done_example :
    (c : Claims) × (b : ResetBody) × (u : User) × (hash : String) × (validate_access_token
        (λ t. some claims)
        20
        "token"
        login_state.store
      ≡ good c)
    × (some change ≡ some b)
    × (resolve_user c.subject login_state.store ≡ ok u)
    × (u.password_hash ≢ "")
    × ((u.force_password_change ≡ true)
        ⊎ (env.check_password u.password_hash b.current_password ≡ true))
    × (validate_password ascii b.new_password (password_policy config none) ≡ valid)
    × ((is_positive (get_password_history_count config none)
          && check_password_history env.check_password b.new_password u.password_history)
        ≡ false)
    × (env.hash_password b.new_password ≡ some hash)
    × ((update_user (rehashed (get_password_history_count config none) hash u) login_state.store).0
        ≡ ok tt)
handle_reset_password-done_example =
    handle_reset_password-done env config mint ascii (λ t. some claims) "token" (some change)
      login_state password_changed

abbrev issued : Claims
issued = registered mint "j2" (pos 50) "simpleauth" claims

family_not_blank : mint.family_id ≢ ""
family_not_blank e = ground (arith, eq_iff mint.family_id "")

abbrev kerberos : Kerberos
kerberos = record { keytab_path = "krb5.keytab"; realm = "R" }

abbrev principal : Principal
principal = record { cname = "alice@R"; realm = "R" }

abbrev kerberos_state : HandlerState
kerberos_state = record state {
  store = (set_identity_mapping "kerberos" "alice@R" "g1" with_authz).1;
}
