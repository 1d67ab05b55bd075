-- ===== src/Admin/Users/Ended.antt =====
-- internal/handler/admin.go and user_self.go: what is left of a user who was deleted or logged out.
use simple_auth.Prelude.{
  String, ◌≡◌, refl, ◌∙◌, sym, ap, false, Option, [], ◌∷◌, arith, eq_iff, ltb, if◌then◌else◌, ◌==◌,
  ◌^^◌, inl, inr, without,
}
use simple_auth.Outcome.{
  Result, Result-cases, ok, err, user_not_found, refresh_token_not_found, session_not_found,
}
use simple_auth.Bolt.{Bbolt, Bytes, json, put_raw, read}
use simple_auth.Bolt.Laws.{get-prune}
use simple_auth.Store.Types.{Time, RefreshToken, Session}
use simple_auth.Store.State.{BoltStore}
use simple_auth.Store.Users.{get_user, delete_user}
use simple_auth.Store.Roles.{delete_config_value}
use simple_auth.Store.Tokens.{
  get_refresh_token, get_session, is_user_access_revoked, revoke_user_tokens, delete_user_sessions,
  revoke_all_user_access_tokens,
}
use simple_auth.Store.Tokens.Revocation.{is_user_access_revoked-revoke_all}
use simple_auth.Handler.State.{HandlerState}
use simple_auth.Handler.Limiter.{add_duration, allow}
use simple_auth.Handler.Directory.{dir_check_key}
use simple_auth.Handler.Jwt.{Claims, Mint}
use simple_auth.Handler.Act.Frame.{audit-eq}
use simple_auth.Handler.Act.{
  done, call, stored, effect, after-rate_limit, after-refuse_if, after-call,
}
use simple_auth.Handler.Access.{good, validate_access_token}
use simple_auth.Handler.Signin.Gate.{after-access_claims}
use simple_auth.Admin.Users.{handle_user_logout_all, handle_delete_user, handle_revoke_sessions}

-- The answers of GetRefreshToken and GetSession, with what belongs to a user missing.
abbrev pub token_of_others : String → Result RefreshToken → Result RefreshToken
token_of_others guid (err e) = err e
token_of_others guid (ok rt) = if rt.user_guid == guid then err refresh_token_not_found else ok rt

abbrev pub session_of_others : String → Result Session → Result Session
session_of_others guid (err e) = err e
session_of_others guid (ok x) = if x.user_guid == guid then err session_not_found else ok x

module _ ⦃bolt : Bbolt⦄ where
  get_refresh_token-revoke_user_tokens :
      (guid t : String) (s : BoltStore)
      → get_refresh_token t (revoke_user_tokens guid s).1
        ≡ token_of_others guid (get_refresh_token t s)
  unfolding get_refresh_token revoke_user_tokens
  get_refresh_token-revoke_user_tokens guid t s =
      ground (arith, get-prune (λ (x : RefreshToken). x.user_guid == guid) s.refresh_tokens t)

  get_session-delete_user_sessions :
      (guid id : String) (s : BoltStore)
      → get_session id (delete_user_sessions guid s).1 ≡ session_of_others guid (get_session id s)
  unfolding get_session delete_user_sessions
  get_session-delete_user_sessions guid id s =
      ground (arith, get-prune (λ (x : Session). x.user_guid == guid) s.sessions id)

  -- A revocation changes the revoked users and nothing else.
  revoke_all-eq :
      (guid : String) (until : Time) (s : BoltStore)
      → (b : bolt.Bucket (Bytes Time)) × ((revoke_all_user_access_tokens guid until s).1
          ≡ record s { revoked_users = b })
  unfolding revoke_all_user_access_tokens
  revoke_all-eq guid until s = elim (Result-cases (put_raw s.revoked_users guid (json until))) [
    | inl (b, put) ↦ (b, rw put refl)
    | inr (failure, put) ↦ (s.revoked_users, rw put refl)
  ]

  is_user_access_revoked-revoke_all_own :
      (now until : Time) (guid : String) (s : BoltStore)
      → bolt.refuses guid ≡ false
      → is_user_access_revoked now guid (revoke_all_user_access_tokens guid until s).1
        ≡ ltb now until
  is_user_access_revoked-revoke_all_own now until guid s takes =
      let own = is_user_access_revoked-revoke_all now until guid guid s takes in
      ground (arith, eq_iff guid guid)

  get_user-delete_user :
      (guid : String) (s : BoltStore)
      → get_user guid (delete_user guid s).1 ≡ err (user_not_found guid)
  unfolding get_user delete_user read
  get_user-delete_user guid s = ground (arith, bolt.get-delete s.users guid guid, eq_iff guid guid)

  -- After an administrator has revoked a user's sessions, none of the user's refresh tokens and
  -- sessions is left, those of others are as before, and where the key of the user can be stored the
  -- user's access tokens are refused until the lifetime of a token is over.
  pub handle_revoke_sessions_lem :
      (mint : Mint) (guid t id : String) (now : Time) (st : HandlerState)
      → bolt.refuses guid ≡ false
      → (get_refresh_token t (handle_revoke_sessions mint guid st).1.store
          ≡ token_of_others guid (get_refresh_token t st.store))
        × (get_session id (handle_revoke_sessions mint guid st).1.store
            ≡ session_of_others guid (get_session id st.store))
        × (is_user_access_revoked now guid (handle_revoke_sessions mint guid st).1.store
            ≡ ltb now (add_duration mint.now mint.access_ttl))
  unfolding handle_revoke_sessions call stored effect get_refresh_token get_session read
      is_user_access_revoked revoke_user_tokens delete_user_sessions
  handle_revoke_sessions_lem mint guid t id now st takes =
      let until = add_duration mint.now mint.access_ttl in
      let s1 = (revoke_user_tokens guid st.store).1 in
      let s2 = (revoke_all_user_access_tokens guid until s1).1 in
      let s3 = (delete_user_sessions guid s2).1 in
      let (b, e) =
        audit-eq mint "sessions_revoked" "admin" (("target_guid", guid) ∷ [])
          (record st { store = s3 }) in
      let (r, f) = revoke_all-eq guid until s1 in
      (
        ap (λ x. get_refresh_token t x.store) e
            ∙ ap (get_refresh_token t) f
            ∙ get_refresh_token-revoke_user_tokens guid t st.store,
        ap (λ x. get_session id x.store) e
            ∙ get_session-delete_user_sessions guid id s2
            ∙ ap (λ s. session_of_others guid (get_session id s)) f,
        ap (λ x. is_user_access_revoked now guid x.store) e
            ∙ is_user_access_revoked-revoke_all_own now until guid s1 takes,
      )

  -- After an administrator has deleted a user, the user is not found; none of the user's refresh tokens
  -- and sessions is left, those of others are as before, and where the key of the user can be stored
  -- the user's access tokens are refused until the lifetime of a token is over.
  pub handle_delete_user_lem :
      (mint : Mint) (guid t id : String) (now : Time) (st : HandlerState)
      → bolt.refuses guid ≡ false
      → (get_user guid (handle_delete_user mint guid st).1.store ≡ err (user_not_found guid))
        × (get_refresh_token t (handle_delete_user mint guid st).1.store
            ≡ token_of_others guid (get_refresh_token t st.store))
        × (get_session id (handle_delete_user mint guid st).1.store
            ≡ session_of_others guid (get_session id st.store))
        × (is_user_access_revoked now guid (handle_delete_user mint guid st).1.store
            ≡ ltb now (add_duration mint.now mint.access_ttl))
  unfolding handle_delete_user call stored effect get_refresh_token get_session get_user read
      is_user_access_revoked delete_user delete_config_value revoke_user_tokens delete_user_sessions
  handle_delete_user_lem mint guid t id now st takes =
      let until = add_duration mint.now mint.access_ttl in
      let s0 = (delete_user guid st.store).1 in
      let s1 = (revoke_all_user_access_tokens guid until s0).1 in
      let s2 = (revoke_user_tokens guid s1).1 in
      let s3 = (delete_user_sessions guid s2).1 in
      let s4 = (delete_config_value ("user_prefs:" ^^ guid) s3).1 in
      let s5 = (delete_config_value (dir_check_key guid) s4).1 in
      let (b, e) =
        audit-eq mint "user_deleted" "admin" (("target_guid", guid) ∷ [])
          (record st { store = s5; dir_checked = without guid st.dir_checked }) in
      let (r, f) = revoke_all-eq guid until s0 in
      (
        ap (λ x. get_user guid x.store) e
            ∙ ap (get_user guid) f
            ∙ get_user-delete_user guid st.store,
        ap (λ x. get_refresh_token t x.store) e
            ∙ get_refresh_token-revoke_user_tokens guid t s1
            ∙ ap (λ s. token_of_others guid (get_refresh_token t s)) f,
        ap (λ x. get_session id x.store) e
            ∙ get_session-delete_user_sessions guid id s2
            ∙ ap (λ s. session_of_others guid (get_session id s)) f,
        ap (λ x. is_user_access_revoked now guid x.store) e
            ∙ is_user_access_revoked-revoke_all_own now until guid s0 takes,
      )

  -- A user who logs out everywhere does so with an access token that is valid, and for its own subject:
  -- none of the subject's refresh tokens and sessions is left, and those of others are as before.
  pub handle_user_logout_all-done :
      (mint : Mint) (parse : String → Option Claims) (token t id : String) (st : HandlerState)
      {last : HandlerState}
      → handle_user_logout_all mint parse token st ≡ (done tt, last)
      → (c : Claims) × (validate_access_token parse mint.now token st.store ≡ good c)
        × (get_refresh_token t last.store
            ≡ token_of_others c.subject (get_refresh_token t st.store))
        × (get_session id last.store ≡ session_of_others c.subject (get_session id st.store))
  unfolding handle_user_logout_all effect get_refresh_token get_session read revoke_user_tokens
      delete_user_sessions
  handle_user_logout_all-done mint parse token t id st h =
      let (limited, h1) = after-rate_limit mint.now mint.ip _ st _ h in
      let s0 = record st { login_limiter = (allow mint.now mint.ip st.login_limiter).1 } in
      let (given, h2) = after-refuse_if _ _ s0 _ h1 in
      let (c, valid, h3) = after-access_claims parse mint.now token _ s0 _ h2 in
      let (unit, revoked, h4) = after-call (revoke_user_tokens c.subject) _ s0 _ h3 in
      let s1 = (revoke_user_tokens c.subject st.store).1 in
      let s2 = (delete_user_sessions c.subject s1).1 in
      let ended = ap (λ p. p.1) h4 in
      let (b, e) =
        audit-eq mint "user_logout_all" c.subject
          (if c.impersonated then ("impersonated_by", c.impersonated_by) ∷ [] else [])
          (record s0 { store = s2 }) in
      (
        c,
        valid,
        ap (λ x. get_refresh_token t x.store) (sym ended ∙ e)
            ∙ get_refresh_token-revoke_user_tokens c.subject t st.store,
        ap (λ x. get_session id x.store) (sym ended ∙ e)
            ∙ get_session-delete_user_sessions c.subject id s1,
      )
