-- ===== src/Handler/Sessions/Live.antt =====
-- internal/handler/session_sso.go: whom resolveSessionCookie lets in.
use simple_auth.Prelude.{
  ◌-◌, String, ◌≡◌, ◌≢◌, refl, Bool, true, false, Option, none, some, ltb, ◌==◌, Bool-cases, inl,
  inr,
}
use simple_auth.Outcome.{Result, ok, err}
use simple_auth.Bolt.{Bbolt}
use simple_auth.Store.Types.{Time, User, Session}
use simple_auth.Store.Users.{resolve_user}
use simple_auth.Store.Tokens.{get_session, is_user_access_revoked}
use simple_auth.Handler.State.{Config, Env, HandlerState}
use simple_auth.Handler.Settings.{get_session_sso_enabled, get_session_sso_idle_ttl}
use simple_auth.Handler.Directory.{directory_account_disabled}
use simple_auth.Handler.Sessions.{
  exceeds, with_status, with_owner, with_session, with_cookie, resolve_session_cookie,
}

module _ ⦃bolt : Bbolt⦄ (env : Env) (cfg : Config) (now : Time) where
  -- The owner is enabled, active in the directory, and its access is not revoked.
  abbrev pub IsWelcome : User → HandlerState → Type 0
  IsWelcome u st =
      (u.disabled ≡ false)
      × ((directory_account_disabled env cfg now u st).0 ≡ false)
      × (is_user_access_revoked now u.guid (directory_account_disabled env cfg now u st).1.store
          ≡ false)

  -- The session is neither past its end nor idle for too long.
  abbrev pub IsLive : Session → HandlerState → Type 0
  IsLive x st =
      (ltb x.expires_at now ≡ false)
      × (exceeds (now - x.last_used_at) (get_session_sso_idle_ttl cfg st.runtime_settings) ≡ false)

  with_status-guid :
      (x : Session) (u : User) (p : Bool × HandlerState)
      → (with_status now x u p).0 ≢ ""
      → ((with_status now x u p).0 ≡ u.guid)
        × (p.0 ≡ false)
        × (is_user_access_revoked now u.guid p.1.store ≡ false)
  with_status-guid x u (true, st) h = absurd (h refl)
  with_status-guid x u (false, st) h =
      elim (Bool-cases (is_user_access_revoked now u.guid st.store)) [
        | inl revoked ↦ absurd (h (rw revoked refl))
        | inr kept ↦ (rw kept refl, refl, kept)
      ]

  with_owner-guid :
      (x : Session) (st : HandlerState) (r : Result User)
      → (with_owner env cfg now x st r).0 ≢ ""
      → (u : User) × (r ≡ ok u) × ((with_owner env cfg now x st r).0 ≡ u.guid) × IsWelcome u st
  with_owner-guid x st (err e) h = absurd (h refl)
  with_owner-guid x st (ok u) h = elim (Bool-cases u.disabled) [
    | inl off ↦ absurd (h (simp off refl))
    | inr on ↦
        let (same, active, kept) =
          with_status-guid x u (directory_account_disabled env cfg now u st) (simp on at h) in
        (u, refl, simp on same, (on, active, kept))
  ]

  with_session-guid :
      (st : HandlerState) (r : Result Session)
      → (with_session env cfg now st r).0 ≢ ""
      → (x : Session) × (u : User) × (r ≡ ok x)
        × IsLive x st
        × (resolve_user x.user_guid st.store ≡ ok u)
        × IsWelcome u st
        × ((with_session env cfg now st r).0 ≡ u.guid)
  with_session-guid st (err e) h = absurd (h refl)
  with_session-guid st (ok x) h = elim (Bool-cases (ltb x.expires_at now)) [
    | inl over ↦ absurd (h (rw over refl))
    | inr open_ ↦
        elim (Bool-cases
          (exceeds (now - x.last_used_at) (get_session_sso_idle_ttl cfg st.runtime_settings))) [
            | inl idle ↦ absurd (h (rw (open_, idle) refl))
            | inr used ↦
                let (u, resolved, same, welcome) =
                  with_owner-guid x st (resolve_user x.user_guid st.store)
                    (rw (open_, used) at h) in
                (x, u, refl, (open_, used), resolved, welcome, rw (open_, used) same)
          ]
  ]

  with_cookie-guid :
      (st : HandlerState) (o : Option String)
      → (with_cookie env cfg now st o).0 ≢ ""
      → (value : String) × (x : Session) × (u : User) × (o ≡ some value)
        × (get_session value st.store ≡ ok x)
        × IsLive x st
        × (resolve_user x.user_guid st.store ≡ ok u)
        × IsWelcome u st
        × ((with_cookie env cfg now st o).0 ≡ u.guid)
  with_cookie-guid st none h = absurd (h refl)
  with_cookie-guid st (some value) h = elim (Bool-cases (value == "")) [
    | inl blank ↦ absurd (h (rw blank refl))
    | inr given ↦
        let (x, u, stored, live, resolved, welcome, same) =
          with_session-guid st (get_session value st.store) (rw given at h) in
        (value, x, u, refl, stored, live, resolved, welcome, rw given same)
  ]

  -- A cookie that resolves to a user names a stored session that is neither expired nor idle, and the
  -- user is the one that its owner resolves to: enabled, active in the directory, access not revoked.
  pub resolve_session_cookie-IsLive :
      (cookie : Option String) (st : HandlerState)
      → (resolve_session_cookie env cfg now cookie st).0 ≢ ""
      → (value : String) × (x : Session) × (u : User) × (cookie ≡ some value)
        × (get_session value st.store ≡ ok x)
        × IsLive x st
        × (resolve_user x.user_guid st.store ≡ ok u)
        × IsWelcome u st
        × ((resolve_session_cookie env cfg now cookie st).0 ≡ u.guid)
  unfolding resolve_session_cookie
  resolve_session_cookie-IsLive cookie st h =
      elim (Bool-cases (get_session_sso_enabled cfg st.runtime_settings)) [
        | inl on ↦
            let (value, x, u, named, stored, live, resolved, welcome, same) =
              with_cookie-guid st cookie (rw on at h) in
            (value, x, u, named, stored, live, resolved, welcome, rw on same)
        | inr off ↦ absurd (h (rw off refl))
      ]
