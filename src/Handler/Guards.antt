-- ===== src/Handler/Guards.antt =====
-- The guards that several handlers of internal/handler share, with what each establishes.
use simple_auth.Prelude.{
  String, ◌≡◌, refl, Bool, true, false, not, ◌&&◌, ◌==◌, Option, List, if◌then◌else◌, Bool-cases,
  inl, inr,
}
use simple_auth.Bolt.{Bbolt}
use simple_auth.Store.Types.{Time, User, App, RuntimeSettings}
use simple_auth.Store.Tokens.{is_user_access_revoked}
use simple_auth.Handler.State.{Config, Env, HandlerState}
use simple_auth.Handler.Directory.{directory_account_disabled}
use simple_auth.Handler.Roles.{
  AppLookup, found, not_served, Grant, granted, denied, resolve_app, resolve_token_roles,
}
use simple_auth.Handler.Redirect.{app_allows_redirect}
use simple_auth.Handler.Act.{Refusal, Answer, done, refused, Act, refuse_if, after, after-refuse_if}

module _ ⦃bolt : Bbolt⦄ where
  abbrev app_or : Refusal → AppLookup → Act App
  app_or r (found a) st = (done a, st)
  app_or r (not_served e) st = (refused r, st)

  -- `app, err := h.resolveApp(clientID)`, and a refusal on the error.
  unfoldable pub serve_app : Refusal → Config → String → Act App
  serve_app r cfg client_id st = app_or r (resolve_app cfg client_id st.store) st

  abbrev grant_or : Refusal → Grant → Act (List String × List String)
  grant_or r (granted roles perms) st = (done (roles, perms), st)
  grant_or r denied st = (refused r, st)

  -- `roles, perms, denied := h.resolveTokenRoles(app, user)`, and a refusal where it is denied.
  unfoldable pub grant_roles : Refusal → Config → App → User → Act (List String × List String)
  grant_roles r cfg a u st = grant_or r (resolve_token_roles cfg a u st.store) st

  abbrev active_or : Refusal → Bool × HandlerState → Answer (Unit {0}) × HandlerState
  active_or r (true, st) = (refused r, st)
  active_or r (false, st) = (done tt, st)

  -- `if user.Disabled || h.directoryAccountDisabled(user)`
  unfoldable pub refuse_inactive : Refusal → Env → Config → Time → User → Act (Unit {0})
  refuse_inactive r env cfg now u st =
      if u.disabled
      then (refused r, st)
      else active_or r (directory_account_disabled env cfg now u st)

  -- `if revoked, _ := h.store.IsUserAccessRevoked(user.GUID); revoked`
  unfoldable pub refuse_revoked : Refusal → Time → String → Act (Unit {0})
  refuse_revoked r now guid st = refuse_if (is_user_access_revoked now guid st.store) r st

  -- `if redirectURI != "" && !h.appAllowsRedirect(app, redirectURI)`
  unfoldable pub refuse_redirect : Refusal → Config → App → String → Act (Unit {0})
  refuse_redirect r cfg a uri st =
      refuse_if (not (uri == "") && not (app_allows_redirect cfg st.runtime_settings a uri)) r st

  -- What two calls that fail give: an app and a URI that it allows.
  abbrev pub app_allows : Config → Option RuntimeSettings → AppLookup → String → Bool
  app_allows cfg rs (not_served e) uri = false
  app_allows cfg rs (found a) uri = app_allows_redirect cfg rs a uri

  module _ {B : Type 0} {b : B} {last : HandlerState} where
    after-app_or :
        (l : AppLookup) (r : Refusal) (st : HandlerState) (rest : App → Act B)
        → after (app_or r l st) rest ≡ (done b, last)
        → (a : App) × (l ≡ found a) × (rest a st ≡ (done b, last))
    after-app_or (found a) r st rest h = (a, refl, h)
    after-app_or (not_served e) r st rest h = cc

    pub after-serve_app :
        (cfg : Config) (client_id : String) (r : Refusal) (st : HandlerState) (rest : App → Act B)
        → after (serve_app r cfg client_id st) rest ≡ (done b, last)
        → (a : App) × (resolve_app cfg client_id st.store ≡ found a) × (rest a st ≡ (done b, last))
    unfolding serve_app
    after-serve_app cfg client_id r st rest h =
        after-app_or (resolve_app cfg client_id st.store) r st rest h

    after-grant_or :
        (g : Grant) (r : Refusal) (st : HandlerState) (rest : List String × List String → Act B)
        → after (grant_or r g st) rest ≡ (done b, last)
        → (lists : List String × List String) × (g ≡ granted lists.0 lists.1)
          × (rest lists st ≡ (done b, last))
    after-grant_or (granted roles perms) r st rest h = ((roles, perms), refl, h)
    after-grant_or denied r st rest h = cc

    pub after-grant_roles :
        (cfg : Config) (a : App) (u : User) (r : Refusal) (st : HandlerState)
        (rest : List String × List String → Act B)
        → after (grant_roles r cfg a u st) rest ≡ (done b, last)
        → (lists : List String × List String) × (resolve_token_roles cfg a u st.store
            ≡ granted lists.0 lists.1)
          × (rest lists st ≡ (done b, last))
    unfolding grant_roles
    after-grant_roles cfg a u r st rest h =
        after-grant_or (resolve_token_roles cfg a u st.store) r st rest h

    after-active_or :
        (p : Bool × HandlerState) (r : Refusal) (rest : Unit {0} → Act B)
        → after (active_or r p) rest ≡ (done b, last)
        → (p.0 ≡ false) × (rest tt p.1 ≡ (done b, last))
    after-active_or (true, st) r rest h = cc
    after-active_or (false, st) r rest h = (refl, h)

    pub after-refuse_inactive :
        (env : Env) (cfg : Config) (now : Time) (u : User) (r : Refusal) (st : HandlerState)
        (rest : Unit {0} → Act B)
        → after (refuse_inactive r env cfg now u st) rest ≡ (done b, last)
        → (u.disabled ≡ false)
          × ((directory_account_disabled env cfg now u st).0 ≡ false)
          × (rest tt (directory_account_disabled env cfg now u st).1 ≡ (done b, last))
    unfolding refuse_inactive
    after-refuse_inactive env cfg now u r st rest h = elim (Bool-cases u.disabled) [
      | inl off ↦ let refuted = simp off at h in cc
      | inr on ↦
          let (active, later) =
            after-active_or (directory_account_disabled env cfg now u st) r rest (simp on at h) in
          (on, active, later)
    ]

    pub after-refuse_revoked :
        (now : Time) (guid : String) (r : Refusal) (st : HandlerState) (rest : Unit {0} → Act B)
        → after (refuse_revoked r now guid st) rest ≡ (done b, last)
        → (is_user_access_revoked now guid st.store ≡ false) × (rest tt st ≡ (done b, last))
    unfolding refuse_revoked
    after-refuse_revoked now guid r st rest h = after-refuse_if _ r st rest h

    pub after-refuse_redirect :
        (cfg : Config) (a : App) (uri : String) (r : Refusal) (st : HandlerState)
        (rest : Unit {0} → Act B)
        → after (refuse_redirect r cfg a uri st) rest ≡ (done b, last)
        → ((not (uri == "") && not (app_allows_redirect cfg st.runtime_settings a uri)) ≡ false)
          × (rest tt st ≡ (done b, last))
    unfolding refuse_redirect
    after-refuse_redirect cfg a uri r st rest h = after-refuse_if _ r st rest h

  module _ {X : Type 0} (part : HandlerState → X) where
    keeps-app_or :
        {B : Type 0} (rest : App → Act B) (st : HandlerState) (r : Refusal) (l : AppLookup)
        → ((a : App) → part (rest a st).1 ≡ part st)
        → part (after (app_or r l st) rest).1 ≡ part st
    keeps-app_or rest st r (found a) keep = keep a
    keeps-app_or rest st r (not_served e) keep = refl

    pub keeps-serve_app :
        {B : Type 0} (rest : App → Act B) (st : HandlerState) (r : Refusal) (cfg : Config)
        (client_id : String)
        → ((a : App) → part (rest a st).1 ≡ part st)
        → part (after (serve_app r cfg client_id st) rest).1 ≡ part st
    unfolding serve_app
    keeps-serve_app rest st r cfg client_id keep =
        keeps-app_or rest st r (resolve_app cfg client_id st.store) keep

    keeps-grant_or :
        {B : Type 0} (rest : List String × List String → Act B) (st : HandlerState) (r : Refusal)
        (g : Grant)
        → ((lists : List String × List String) → part (rest lists st).1 ≡ part st)
        → part (after (grant_or r g st) rest).1 ≡ part st
    keeps-grant_or rest st r (granted roles perms) keep = keep (roles, perms)
    keeps-grant_or rest st r denied keep = refl

    pub keeps-grant_roles :
        {B : Type 0} (rest : List String × List String → Act B) (st : HandlerState) (r : Refusal)
        (cfg : Config) (a : App) (u : User)
        → ((lists : List String × List String) → part (rest lists st).1 ≡ part st)
        → part (after (grant_roles r cfg a u st) rest).1 ≡ part st
    unfolding grant_roles
    keeps-grant_roles rest st r cfg a u keep =
        keeps-grant_or rest st r (resolve_token_roles cfg a u st.store) keep
