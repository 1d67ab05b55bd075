-- ===== src/Tests/Requests.antt =====
-- Refreshes and session cookies on small stores.
use simple_auth.Prelude.{
  String, ◌≡◌, ◌≢◌, refl, sym, ◌∙◌, true, some, arith, eq_iff, pos, if◌then◌else◌, ◌==◌,
}
use simple_auth.Outcome.{ok}
use simple_auth.Bolt.{read, put_raw}
use simple_auth.Bolt.Assoc.{assoc_bolt}
use simple_auth.Store.Types.{User, Session}
use simple_auth.Store.Users.{create_user, get_user, resolve_loop, resolve_user}
use simple_auth.Store.Mappings.{
  set_identity_mapping, mapping_key, add_mapping_to_index, get_mappings_for_user,
}
use simple_auth.Store.Apps.{
  create_app, get_app, get_app_authz, save_app_authz, add_app_admin, app_admin_key,
}
use simple_auth.Store.Roles.{get_ldap_config}
use simple_auth.Store.Audit.{write_audit_log}
use simple_auth.Store.Tokens.{
  reused, save_refresh_token, get_refresh_token, consume_refresh_token, is_user_access_revoked,
  create_session, get_session, touch_session,
}
use simple_auth.Store.Tokens.Family.{outside_family}
use simple_auth.Handler.State.{HandlerState}
use simple_auth.Handler.Directory.{
  is_directory_backed, has_foreign_provider, get_ldap_config_decrypted, directory_account_disabled,
}
use simple_auth.Handler.Roles.{any_assigned, user_assignment_keys, resolve_app, resolve_token_roles}
use simple_auth.Handler.Jwt.{Claims, Mint}
use simple_auth.Handler.Refresh.{refreshed, declined, reuse_detected, handle_refresh}
use simple_auth.Handler.Refresh.Rotation.{
  IsRedeemed, handle_refresh-refreshed, handle_refresh-replay,
}
use simple_auth.Handler.Sessions.{resolve_session_cookie}
use simple_auth.Handler.Sessions.Live.{IsLive, IsWelcome, resolve_session_cookie-IsLive}
use simple_auth.Tests.Tokens.{token, session}
use simple_auth.Tests.Handler.{env, config, state, claims, with_authz}

abbrev pub mint : Mint
mint = record {
  now = 20;
  ip = "ip";
  token_id = "t2";
  family_id = "f2";
  audit_id = "e1";
  access_id = "j2";
  id_token_id = "i2";
  issuer = "simpleauth";
  access_ttl = pos 50;
  refresh_ttl = pos 100;
  impersonate_ttl = pos 50;
  sign = λ c. some (if c.family_id == "" then "access" else "refresh");
  format_nano = λ t. "20";
}

abbrev pub refresh_claims : Claims
refresh_claims = record claims { id = "t"; family_id = "f" }

abbrev pub refresh_state : HandlerState
refresh_state = record state { store = (save_refresh_token token with_authz).1 }

token_refreshed :
    (handle_refresh env config mint (λ token. some refresh_claims) "token" refresh_state).0
    ≡ refreshed "access" "refresh"
unfolding handle_refresh consume_refresh_token save_refresh_token write_audit_log
    is_user_access_revoked any_assigned user_assignment_keys resolve_app resolve_token_roles get_app
    get_app_authz save_app_authz directory_account_disabled is_directory_backed has_foreign_provider
    get_mappings_for_user get_ldap_config_decrypted get_ldap_config resolve_user resolve_loop
    get_user set_identity_mapping mapping_key add_mapping_to_index create_user add_app_admin
    app_admin_key create_app read put_raw assoc_bolt
token_refreshed = refl

handle_refresh-refreshed_example :
    (c : Claims) × (some refresh_claims ≡ some c)
    × IsRedeemed env config mint c (consume_refresh_token c.id refresh_state.store) refresh_state
handle_refresh-refreshed_example =
    handle_refresh-refreshed env config mint (λ token. some refresh_claims) "token" refresh_state
      token_refreshed

abbrev replay_state : HandlerState
replay_state = record state { store = (consume_refresh_token "t" refresh_state.store).1 }

token_replayed :
    (consume_refresh_token "t" replay_state.store).0 ≡ reused (record token { used = true })
unfolding consume_refresh_token save_refresh_token save_app_authz set_identity_mapping mapping_key
    add_mapping_to_index create_user add_app_admin app_admin_key create_app read put_raw assoc_bolt
token_replayed = refl

handle_refresh-replay_example :
    ((handle_refresh env config mint (λ token. some refresh_claims) "token" replay_state).0
      ≡ declined reuse_detected)
    × (get_refresh_token "t"
          (handle_refresh env config mint
            (λ token. some refresh_claims)
            "token"
            replay_state).1.store
        ≡ outside_family "f" (get_refresh_token "t" replay_state.store))
handle_refresh-replay_example =
    handle_refresh-replay env config mint (λ token. some refresh_claims) "token" "t" replay_state
      refresh_claims (record token { used = true }) refl token_replayed

abbrev session_state : HandlerState
session_state = record state {
  store = (create_session (record session { user_guid = "g1" }) with_authz).1;
}

session_resolved : (resolve_session_cookie env config 20 (some "s") session_state).0 ≡ "g1"
unfolding resolve_session_cookie create_session get_session touch_session is_user_access_revoked
    save_app_authz directory_account_disabled is_directory_backed has_foreign_provider
    get_mappings_for_user get_ldap_config_decrypted get_ldap_config resolve_user resolve_loop
    get_user set_identity_mapping mapping_key add_mapping_to_index create_user add_app_admin
    app_admin_key create_app read put_raw assoc_bolt
session_resolved = refl

subject_not_blank : claims.subject ≢ ""
subject_not_blank e = ground (arith, eq_iff claims.subject "")

session_not_blank : (resolve_session_cookie env config 20 (some "s") session_state).0 ≢ ""
session_not_blank e = subject_not_blank (sym session_resolved ∙ e)

resolve_session_cookie-IsLive_example :
    (value : String) × (x : Session) × (u : User) × (some "s" ≡ some value)
    × (get_session value session_state.store ≡ ok x)
    × IsLive env config 20 x session_state
    × (resolve_user x.user_guid session_state.store ≡ ok u)
    × IsWelcome env config 20 u session_state
    × ((resolve_session_cookie env config 20 (some "s") session_state).0 ≡ u.guid)
resolve_session_cookie-IsLive_example =
    resolve_session_cookie-IsLive env config 20 (some "s") session_state session_not_blank
