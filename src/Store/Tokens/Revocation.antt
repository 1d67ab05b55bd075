-- ===== src/Store/Tokens/Revocation.antt =====
-- Access token revocation, user revocation and SSO sessions, with the reapers.
use simple_auth.Prelude.{
  String, ◌≡◌, ◌≤◌, true, false, ltb, if◌then◌else◌, ◌==◌, arith, eq_iff, eq_refl, Option-cases,
  inl, inr,
}
use simple_auth.Outcome.{ok, err, session_not_found}
use simple_auth.Bolt.{Bbolt, json, garbage}
use simple_auth.Bolt.Laws.{get-prune, accepted_of_stored, put_raw-accepted}
use simple_auth.Store.Types.{Time, Session}
use simple_auth.Store.State.{BoltStore}
use simple_auth.Store.Tokens.{
  revoke_access_token, is_access_token_revoked, clean_expired_revocations,
  revoke_all_user_access_tokens, is_user_access_revoked, get_session, touch_session,
  delete_user_sessions, clean_expired_sessions,
}

module _ ⦃bolt : Bbolt⦄ where
  -- The reaper is invisible to the check of a user's revocation, from its own time on.
  pub is_user_access_revoked-clean :
      (now later : Time) (guid : String) (s : BoltStore)
      → now ≤ later
      → is_user_access_revoked later guid (clean_expired_revocations now s).1
        ≡ is_user_access_revoked later guid s
  unfolding is_user_access_revoked clean_expired_revocations
  is_user_access_revoked-clean now later guid s le =
      ground (arith, get-prune (λ (t : Time). ltb t now) s.revoked_users guid)

  -- The revocation of a user holds from the call until `expires_at`, for that user, and changes the
  -- answer for no other.
  pub is_user_access_revoked-revoke_all :
      (now expires_at : Time) (guid other : String) (s : BoltStore)
      → bolt.refuses guid ≡ false
      → is_user_access_revoked now other (revoke_all_user_access_tokens guid expires_at s).1
        ≡ (if guid == other then ltb now expires_at else is_user_access_revoked now other s)
  unfolding is_user_access_revoked revoke_all_user_access_tokens
  is_user_access_revoked-revoke_all now expires_at guid other s fits =
      rw
        (
          put_raw-accepted s.revoked_users guid (json expires_at) fits,
          bolt.get-write s.revoked_users guid other (json expires_at) fits,
        )
        (ground arith)

  -- A revoked access token stays revoked through every clean-up that runs at or before its expiry.
  pub is_access_token_revoked-clean :
      (now expires_at : Time) (jti : String) (s : BoltStore)
      → bolt.refuses jti ≡ false
      → now ≤ expires_at
      → is_access_token_revoked jti
          (clean_expired_revocations now (revoke_access_token jti expires_at s).1).1
        ≡ true
  unfolding is_access_token_revoked clean_expired_revocations revoke_access_token
  is_access_token_revoked-clean now expires_at jti s fits le =
      rw
        (
          put_raw-accepted s.revoked_tokens jti (json expires_at) fits,
          get-prune (λ (t : Time). ltb t now) (bolt.write s.revoked_tokens jti (json expires_at))
              jti,
          bolt.get-write s.revoked_tokens jti jti (json expires_at) fits,
          eq_refl jti,
        )
        (ground arith)

  get_session-touch :
      (last_used : Time) (id touched : String) (s : BoltStore) (x : Session)
      → get_session id s ≡ ok x
      → get_session id (touch_session touched last_used s).1
        ≡ ok (if touched == id then record x { last_used_at = last_used } else x)
  unfolding get_session touch_session
  get_session-touch last_used id touched s x h = elim (Option-cases (bolt.get s.sessions touched)) [
    | inl missing ↦ rw missing (ground (arith, eq_iff touched id))
    | inr (garbage, found) ↦ rw found (ground (arith, eq_iff touched id))
    | inr (json y, found) ↦
        let written : Session = record y { last_used_at = last_used } in
        let fits = accepted_of_stored s.sessions touched found in
        rw
          (
            found,
            put_raw-accepted s.sessions touched (json written) fits,
            bolt.get-write s.sessions touched id (json written) fits,
          )
          (ground (arith, eq_iff touched id))
  ]

  -- A login session after a touch, after the reaper and after the user's sessions are deleted: a touch
  -- changes only the time of last use of its own session, the others remove exactly the expired
  -- sessions and exactly the user's.
  pub get_session-after :
      (now last_used : Time) (id touched guid : String) (s : BoltStore) (x : Session)
      → get_session id s ≡ ok x
      → (get_session id (touch_session touched last_used s).1
          ≡ ok (if touched == id then record x { last_used_at = last_used } else x))
        × (get_session id (clean_expired_sessions now s).1
            ≡ (if ltb x.expires_at now then err session_not_found else ok x))
        × (get_session id (delete_user_sessions guid s).1
            ≡ (if x.user_guid == guid then err session_not_found else ok x))
  unfolding get_session touch_session clean_expired_sessions delete_user_sessions
  get_session-after now last_used id touched guid s x h = (
    get_session-touch last_used id touched s x h,
    ground (arith, get-prune (λ (y : Session). ltb y.expires_at now) s.sessions id),
    ground (arith, get-prune (λ (y : Session). y.user_guid == guid) s.sessions id),
  )
