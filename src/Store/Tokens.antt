-- ===== src/Store/Tokens.antt =====
-- internal/store/bolt.go: refresh tokens, authorization codes, SSO sessions and revocations. `now` is
-- the `time.Now()` of the call.
pub mod Refresh
pub mod Family
pub mod Revocation
pub mod Codes
use simple_auth.Prelude.{
  ℕ, String, Bool, true, false, not, ◌&&◌, Option, none, some, List, [], ◌∷◌, ltb, if◌then◌else◌,
  ◌==◌,
}
use simple_auth.Outcome.{
  Error, Result, ok, err, refresh_token_not_found, refresh_token_reused, code_not_found,
  code_expired, session_not_found, ◌>>=◌,
}
use simple_auth.Bolt.{Bbolt, Bytes, json, garbage, read, put_raw, put, passes, is_some, prune}
use simple_auth.Store.Types.{Time, RefreshToken, OidcAuthCode, Session}
use simple_auth.Store.State.{BoltStore, Method, update}

-- ListUserSessions keeps the tokens of the user that are unused and not expired.
abbrev pub is_active : Time → String → RefreshToken → Bool
is_active now user_guid rt = rt.user_guid == user_guid && (not rt.used && ltb now rt.expires_at)

unfoldable pub active_of : Time → String → List (String × Bytes RefreshToken) → List RefreshToken
active_of now user_guid [] = []
active_of now user_guid ((k, garbage) ∷ l) = active_of now user_guid l
active_of now user_guid ((k, json rt) ∷ l) =
    let rest = active_of now user_guid l in if is_active now user_guid rt then rt ∷ rest else rest

-- ConsumeRefreshToken returns the token beside an error too.
pub data Consumed : Type 0 where
  consumed reused : RefreshToken → Consumed
  failed : Error → Consumed

module _ ⦃bolt : Bbolt⦄ where
  unfoldable pub save_refresh_token : RefreshToken → Method (Unit {0})
  unfolding put_raw
  save_refresh_token rt = update λ s. do
    tokens ← put s.refresh_tokens rt.token_id rt
    ok (tt, record s { refresh_tokens = tokens })

  unfoldable pub get_refresh_token : String → BoltStore → Result RefreshToken
  unfolding read
  get_refresh_token token_id s = read refresh_token_not_found s.refresh_tokens token_id

  unfoldable pub mark_refresh_token_used : String → Method (Unit {0})
  unfolding read put_raw
  mark_refresh_token_used token_id = update λ s. do
    rt ← read refresh_token_not_found s.refresh_tokens token_id
    tokens ← put s.refresh_tokens token_id (record rt { used = true })
    ok (tt, record s { refresh_tokens = tokens })

  abbrev pub consume_written :
      RefreshToken → BoltStore → Result (bolt.Bucket (Bytes RefreshToken)) → Consumed × BoltStore
  consume_written rt s (ok tokens) =
      (consumed (record rt { used = true }), record s { refresh_tokens = tokens })
  consume_written rt s (err e) = (failed e, s)

  abbrev pub consume_found : String → BoltStore → Result RefreshToken → Consumed × BoltStore
  consume_found token_id s (err e) = (failed e, s)
  consume_found token_id s (ok rt) =
      if rt.used
      then (reused rt, s)
      else consume_written rt s (put s.refresh_tokens token_id (record rt { used = true }))

  unfoldable pub consume_refresh_token : String → BoltStore → Consumed × BoltStore
  unfolding read put_raw
  consume_refresh_token token_id s =
      consume_found token_id s (read refresh_token_not_found s.refresh_tokens token_id)

  unfoldable pub revoke_token_family : String → Method (Unit {0})
  revoke_token_family family_id = update λ s.
      ok
        (tt, record s { refresh_tokens = prune (λ rt. rt.family_id == family_id) s.refresh_tokens })

  unfoldable pub list_user_sessions : Time → String → BoltStore → List RefreshToken
  unfolding active_of
  list_user_sessions now user_guid s = active_of now user_guid (bolt.entries s.refresh_tokens)

  unfoldable pub revoke_user_tokens : String → Method (Unit {0})
  revoke_user_tokens user_guid = update λ s.
      ok
        (tt, record s { refresh_tokens = prune (λ rt. rt.user_guid == user_guid) s.refresh_tokens })

  unfoldable pub clean_expired_refresh_tokens : Time → Method (Unit {0})
  clean_expired_refresh_tokens now = update λ s.
      ok (tt, record s { refresh_tokens = prune (λ rt. ltb rt.expires_at now) s.refresh_tokens })

  unfoldable pub save_oidc_auth_code : OidcAuthCode → Method (Unit {0})
  unfolding put_raw
  save_oidc_auth_code code = update λ s. do
    codes ← put s.oidc_auth_codes code.code code
    ok (tt, record s { oidc_auth_codes = codes })

  -- An expired code is deleted inside a transaction that then returns an error.
  unfoldable pub consume_oidc_auth_code : Time → String → Method OidcAuthCode
  unfolding read
  consume_oidc_auth_code now code = update λ s. do
    ac ← read code_not_found s.oidc_auth_codes code
    let deleted = record s { oidc_auth_codes = bolt.delete s.oidc_auth_codes code }
    if ltb ac.expires_at now then err code_expired else ok (ac, deleted)

  unfoldable pub clean_expired_oidc_codes : Time → Method (Unit {0})
  clean_expired_oidc_codes now = update λ s.
      ok (tt, record s { oidc_auth_codes = prune (λ c. ltb c.expires_at now) s.oidc_auth_codes })

  unfoldable pub create_session : Session → Method (Unit {0})
  unfolding put_raw
  create_session sess =
      update
        λ s. do sessions ← put s.sessions sess.id sess; ok (tt, record s { sessions = sessions })

  unfoldable pub get_session : String → BoltStore → Result Session
  unfolding read
  get_session id s = read session_not_found s.sessions id

  unfoldable pub touch_session : String → Time → Method (Unit {0})
  unfolding read put_raw
  touch_session id last_used = update λ s. do
    sess ← read session_not_found s.sessions id
    sessions ← put s.sessions id (record sess { last_used_at = last_used })
    ok (tt, record s { sessions = sessions })

  unfoldable pub delete_session : String → Method (Unit {0})
  delete_session id = update λ s. ok (tt, record s { sessions = bolt.delete s.sessions id })

  unfoldable pub delete_user_sessions : String → Method (Unit {0})
  delete_user_sessions user_guid =
      update λ s. ok (tt, record s { sessions = prune (λ x. x.user_guid == user_guid) s.sessions })

  unfoldable pub clean_expired_sessions : Time → Method (Unit {0})
  clean_expired_sessions now =
      update λ s. ok (tt, record s { sessions = prune (λ x. ltb x.expires_at now) s.sessions })

  unfoldable pub revoke_access_token : String → Time → Method (Unit {0})
  unfolding put_raw
  revoke_access_token jti expires_at = update λ s. do
    revoked ← put s.revoked_tokens jti expires_at
    ok (tt, record s { revoked_tokens = revoked })

  unfoldable pub is_access_token_revoked : String → BoltStore → Bool
  is_access_token_revoked jti s = is_some (bolt.get s.revoked_tokens jti)

  unfoldable pub clean_expired_revocations : Time → Method (Unit {0})
  clean_expired_revocations now = update λ s. ok (
    tt,
    record s {
      revoked_tokens = prune (λ t. ltb t now) s.revoked_tokens;
      revoked_users = prune (λ t. ltb t now) s.revoked_users;
    },
  )

  unfoldable pub revoke_all_user_access_tokens : String → Time → Method (Unit {0})
  unfolding put_raw
  revoke_all_user_access_tokens user_guid expires_at = update λ s. do
    revoked ← put s.revoked_users user_guid expires_at
    ok (tt, record s { revoked_users = revoked })

  abbrev pub found_after : Time → Option (Bytes Time) → Bool
  found_after now none = false
  found_after now (some d) = passes (λ t. ltb now t) d

  unfoldable pub is_user_access_revoked : Time → String → BoltStore → Bool
  is_user_access_revoked now user_guid s = found_after now (bolt.get s.revoked_users user_guid)
