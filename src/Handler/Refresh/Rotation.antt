-- ===== src/Handler/Refresh/Rotation.antt =====
-- internal/handler/auth.go: what a refresh asks for, and what a replay does.
use simple_auth.Prelude.{
  String, ◌≡◌, ◌≢◌, refl, Bool, true, false, Option, none, some, List, [], ◌∷◌, ◌^^◌, ap, ap₂, ◌∙◌,
  ltb, Bool-cases, inl, inr,
}
use simple_auth.Outcome.{Result, Result-cases, ok, err, refresh_token_not_found}
use simple_auth.Bolt.{Bbolt, json, put_raw, decode_or}
use simple_auth.Store.Types.{Time, User, App, RefreshToken, AuditEntry}
use simple_auth.Store.State.{BoltStore}
use simple_auth.Store.Users.{resolve_user}
use simple_auth.Store.Tokens.{
  Consumed, consumed, reused, failed, consume_refresh_token, revoke_token_family, get_refresh_token,
  is_user_access_revoked,
}
use simple_auth.Store.Tokens.Refresh.{consume_refresh_token-reused}
use simple_auth.Store.Tokens.Family.{outside_family, get_refresh_token-revoke_token_family}
use simple_auth.Store.Audit.{entry_with_defaults, write_audit_log}
use simple_auth.Handler.State.{Config, Env, HandlerState}
use simple_auth.Handler.Directory.{directory_account_disabled}
use simple_auth.Handler.Roles.{
  AppLookup, found, not_served, Grant, granted, denied, resolve_app, resolve_token_roles,
}
use simple_auth.Handler.Jwt.{Claims, Mint}
use simple_auth.Handler.Issue.{audit}
use simple_auth.Handler.Refresh.{
  refreshed, declined, reuse_detected, with_grant, with_app, with_status, with_user, with_consumed,
  with_claims, handle_refresh,
}

module _ ⦃bolt : Bbolt⦄ (env : Env) (cfg : Config) (mint : Mint) where
  -- What holds of the user and the app once the directory was asked: the account is on, its access is
  -- not revoked, the app is served and grants the roles.
  abbrev pub IsOpen : RefreshToken → User → HandlerState → App → Type 0
  IsOpen rt u st a =
      (u.disabled ≡ false)
      × ((directory_account_disabled env cfg mint.now u st).0 ≡ false)
      × (is_user_access_revoked mint.now u.guid
            (directory_account_disabled env cfg mint.now u st).1.store
          ≡ false)
      × (resolve_app cfg rt.app_id (directory_account_disabled env cfg mint.now u st).1.store
          ≡ found a)
      × (resolve_token_roles cfg a u (directory_account_disabled env cfg mint.now u st).1.store
          ≢ denied)

  with_grant-refreshed :
      (rt : RefreshToken) (u : User) (a : App) (st : HandlerState) (g : Grant)
      {access refresh : String}
      → (with_grant mint rt u a st g).0 ≡ refreshed access refresh
      → g ≢ denied
  with_grant-refreshed rt u a st denied h e = cc
  with_grant-refreshed rt u a st (granted roles perms) h e = cc

  with_app-refreshed :
      (rt : RefreshToken) (u : User) (st : HandlerState) (l : AppLookup) {access refresh : String}
      → (with_app cfg mint rt u st l).0 ≡ refreshed access refresh
      → (a : App) × (l ≡ found a) × (resolve_token_roles cfg a u st.store ≢ denied)
  with_app-refreshed rt u st (not_served e) h = cc
  with_app-refreshed rt u st (found a) h =
      (a, refl, with_grant-refreshed rt u a st (resolve_token_roles cfg a u st.store) h)

  with_status-refreshed :
      (rt : RefreshToken) (u : User) (p : Bool × HandlerState) {access refresh : String}
      → (with_status cfg mint rt u p).0 ≡ refreshed access refresh
      → (a : App) × (p.0 ≡ false)
        × (is_user_access_revoked mint.now u.guid p.1.store ≡ false)
        × (resolve_app cfg rt.app_id p.1.store ≡ found a)
        × (resolve_token_roles cfg a u p.1.store ≢ denied)
  with_status-refreshed rt u (true, st) h = cc
  with_status-refreshed rt u (false, st) h =
      elim (Bool-cases (is_user_access_revoked mint.now u.guid st.store)) [
        | inl revoked ↦ let refuted = rw revoked at h in cc
        | inr kept ↦
            let (a, served, admitted) =
              with_app-refreshed rt u st (resolve_app cfg rt.app_id st.store) (rw kept at h) in
            (a, refl, kept, served, admitted)
      ]

  with_user-refreshed :
      (rt : RefreshToken) (st : HandlerState) (r : Result User) {access refresh : String}
      → (with_user env cfg mint rt st r).0 ≡ refreshed access refresh
      → (u : User) × (a : App) × (r ≡ ok u) × IsOpen rt u st a
  with_user-refreshed rt st (err e) h = cc
  with_user-refreshed rt st (ok u) h = elim (Bool-cases u.disabled) [
    | inl off ↦ let refuted = simp off at h in cc
    | inr on ↦
        let (a, active, kept, served, admitted) =
          with_status-refreshed rt u (directory_account_disabled env cfg mint.now u st)
            (simp on at h) in
        (u, a, refl, (on, active, kept, served, admitted))
  ]

  -- A refresh that succeeds, as to the token `c` and what its consumption gave.
  abbrev pub IsRedeemed : Claims → Consumed × BoltStore → HandlerState → Type 0
  IsRedeemed c p st =
      (rt : RefreshToken) × (u : User) × (a : App) × (p.0 ≡ consumed rt)
      × (ltb rt.expires_at mint.now ≡ false)
      × (resolve_user c.subject p.1 ≡ ok u)
      × IsOpen rt u (record st { store = p.1 }) a

  with_consumed-refreshed :
      (c : Claims) (st : HandlerState) (p : Consumed × BoltStore) {access refresh : String}
      → (with_consumed env cfg mint c st p).0 ≡ refreshed access refresh
      → IsRedeemed c p st
  with_consumed-refreshed c st (failed e, s) h = cc
  with_consumed-refreshed c st (reused rt, s) h = cc
  with_consumed-refreshed c st (consumed rt, s) h = elim (Bool-cases (ltb rt.expires_at mint.now)) [
    | inl late ↦ let refuted = rw late at h in cc
    | inr live ↦
        let (u, a, resolved, open_) =
          with_user-refreshed rt (record st { store = s }) (resolve_user c.subject s)
            (rw live at h) in
        (rt, u, a, refl, live, resolved, open_)
  ]

  with_claims-refreshed :
      (st : HandlerState) (o : Option Claims) {access refresh : String}
      → (with_claims env cfg mint st o).0 ≡ refreshed access refresh
      → (c : Claims) × (o ≡ some c) × IsRedeemed c (consume_refresh_token c.id st.store) st
  with_claims-refreshed st none h = cc
  with_claims-refreshed st (some c) h =
      (c, refl, with_consumed-refreshed c st (consume_refresh_token c.id st.store) h)

  -- A refresh that gives tokens redeems a token that parses, that the store hands out for the first
  -- time and that has not expired; its subject resolves to a user who is enabled, active in the
  -- directory and not revoked, and the app that it is bound to is served and does not deny the user.
  pub handle_refresh-refreshed :
      (parse : String → Option Claims) (token : String) (st : HandlerState)
      {access refresh : String}
      → (handle_refresh env cfg mint parse token st).0 ≡ refreshed access refresh
      → (c : Claims) × (parse token ≡ some c)
        × IsRedeemed c (consume_refresh_token c.id st.store) st
  unfolding handle_refresh
  handle_refresh-refreshed parse token st h = with_claims-refreshed st (parse token) h

  pub refresh_tokens-write_audit_log :
      (format : Time → String) (fresh : String) (now : Time) (e : AuditEntry) (s : BoltStore)
      → (write_audit_log format fresh now e s).1.refresh_tokens ≡ s.refresh_tokens
  unfolding write_audit_log
  refresh_tokens-write_audit_log format fresh now entry s =
      let e = entry_with_defaults fresh now entry in
      elim (Result-cases (put_raw s.audit_log (format e.timestamp ^^ (":" ^^ e.id)) (json e))) [
        | inl (b, done) ↦ rw done refl
        | inr (failure, done) ↦ rw done refl
      ]

  pub get_refresh_token-audit :
      (t event actor : String) (details : List (String × String)) (st : HandlerState)
      → get_refresh_token t (audit mint event actor details st).store ≡ get_refresh_token t st.store
  unfolding audit get_refresh_token write_audit_log
  get_refresh_token-audit t event actor details st =
      let e : AuditEntry = record {
        id = mint.audit_id;
        timestamp = mint.now;
        event = event;
        actor = actor;
        ip = mint.ip;
        details = details;
      } in
      ap (λ b. decode_or refresh_token_not_found (bolt.get b t))
        (refresh_tokens-write_audit_log mint.format_nano mint.audit_id mint.now
          (record e { id = ""; timestamp = 0 }) st.store)

  with_consumed-replay :
      (c : Claims) (t : String) (st : HandlerState) (rt : RefreshToken) (s : BoltStore)
      → ((with_consumed env cfg mint c st (reused rt, s)).0 ≡ declined reuse_detected)
        × (get_refresh_token t (with_consumed env cfg mint c st (reused rt, s)).1.store
            ≡ outside_family rt.family_id (get_refresh_token t s))
  with_consumed-replay c t st rt s = (
    refl,
    get_refresh_token-audit t "token_refresh" c.subject
          (("event", "replay_detected") ∷ ("family_id", rt.family_id) ∷ [])
          (record st { store = (revoke_token_family rt.family_id s).1 })
        ∙ get_refresh_token-revoke_token_family rt.family_id t s,
  )

  -- The replay of a token that was redeemed is declined, and afterwards no token of its family is
  -- found, while every other token is found as before.
  pub handle_refresh-replay :
      (parse : String → Option Claims) (token t : String) (st : HandlerState) (c : Claims)
      (rt : RefreshToken)
      → parse token ≡ some c
      → (consume_refresh_token c.id st.store).0 ≡ reused rt
      → ((handle_refresh env cfg mint parse token st).0 ≡ declined reuse_detected)
        × (get_refresh_token t (handle_refresh env cfg mint parse token st).1.store
            ≡ outside_family rt.family_id (get_refresh_token t st.store))
  unfolding handle_refresh
  handle_refresh-replay parse token t st c rt parsed replay =
      let e : consume_refresh_token c.id st.store ≡ (reused rt, st.store) =
        ap₂ (λ a b. (a, b)) replay (consume_refresh_token-reused c.id st.store replay) in
      rw (parsed, e) (with_consumed-replay c t st rt st.store)
