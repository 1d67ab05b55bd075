-- ===== src/Tests/Tokens.antt =====
-- Refresh tokens, authorization codes, sessions and revocations on small stores.
use simple_auth.Prelude.{◌≤◌, ◌≡◌, refl, true, false, [], ◌∷◌}
use simple_auth.Outcome.{ok, err, code_expired, session_not_found}
use simple_auth.Bolt.{read, put_raw}
use simple_auth.Bolt.Assoc.{assoc_bolt}
use simple_auth.Store.Types.{RefreshToken, OidcAuthCode, Session}
use simple_auth.Store.State.{BoltStore, init}
use simple_auth.Store.Tokens.{
  consumed, save_refresh_token, consume_refresh_token, save_oidc_auth_code, consume_oidc_auth_code,
  create_session, get_session, touch_session, delete_user_sessions, clean_expired_sessions,
  revoke_all_user_access_tokens,
}
use simple_auth.Store.Tokens.Refresh.{handed_out, handed_out-le-one, consume, clean}
use simple_auth.Store.Tokens.Codes.{consume_oidc_auth_code-save}
use simple_auth.Store.Tokens.Revocation.{get_session-after}

abbrev pub token : RefreshToken
token = record {
  token_id = "t";
  family_id = "f";
  user_guid = "u";
  used = false;
  expires_at = 50;
  created_at = 10;
  app_id = "a";
  audience = "a";
}

abbrev with_token : BoltStore
with_token = (save_refresh_token token init).1

consume_refresh_token_run :
    (consume_refresh_token "t" with_token).0 ≡ consumed (record token { used = true })
unfolding consume_refresh_token save_refresh_token read put_raw assoc_bolt
consume_refresh_token_run = refl

handed_out-le-one_example :
    handed_out "t" (consume "t" ∷ clean 20 ∷ consume "t" ∷ []) with_token ≤ 1
handed_out-le-one_example =
    handed_out-le-one "t" (consume "t" ∷ clean 20 ∷ consume "t" ∷ []) with_token
      (refl, (refl, (refl, tt)))

abbrev auth_code : OidcAuthCode
auth_code = record {
  code = "c";
  user_guid = "u";
  app_id = "a";
  redirect_uri = "https://a.example/cb";
  scope = "openid";
  nonce = "n";
  code_challenge = "";
  code_challenge_method = "";
  expires_at = 50;
  created_at = 10;
}

abbrev with_code : BoltStore
with_code = (save_oidc_auth_code auth_code init).1

consume_oidc_auth_code_run : (consume_oidc_auth_code 20 "c" with_code).0 ≡ ok auth_code
unfolding consume_oidc_auth_code save_oidc_auth_code read put_raw assoc_bolt
consume_oidc_auth_code_run = refl

refuses_c : assoc_bolt.refuses "c" ≡ false
unfolding assoc_bolt
refuses_c = refl

refuses_u : assoc_bolt.refuses "u" ≡ false
unfolding assoc_bolt
refuses_u = refl

consume_oidc_auth_code-save_example :
    ((consume_oidc_auth_code 60 "c" with_code).0 ≡ err code_expired)
    × ((consume_oidc_auth_code 60 "c" with_code).1 ≡ with_code)
consume_oidc_auth_code-save_example = consume_oidc_auth_code-save 60 auth_code init refuses_c

abbrev revoked : BoltStore
revoked = (revoke_all_user_access_tokens "u" 50 init).1

abbrev pub session : Session
session = record {
  id = "s";
  user_guid = "u";
  created_at = 10;
  last_used_at = 10;
  expires_at = 50;
  user_agent = "";
  ip = "";
}

abbrev with_session : BoltStore
with_session = (create_session session init).1

get_session_run : get_session "s" with_session ≡ ok session
unfolding get_session create_session read put_raw assoc_bolt
get_session_run = refl

get_session-after_example :
    (get_session "s" (touch_session "s" 20 with_session).1
      ≡ ok (record session { last_used_at = 20 }))
    × (get_session "s" (clean_expired_sessions 60 with_session).1 ≡ err session_not_found)
    × (get_session "s" (delete_user_sessions "v" with_session).1 ≡ ok session)
get_session-after_example = get_session-after 60 20 "s" "s" "v" with_session session get_session_run
