-- ===== src/Oidc/Logout.antt =====
-- internal/handler/oidc.go: the end-session endpoint.
pub mod Effects
use simple_auth.Prelude.{
  String, Bool, true, false, not, ◌&&◌, Option, none, some, List, [], ◌∷◌, if◌then◌else◌, ◌==◌,
}
use simple_auth.Bolt.{Bbolt}
use simple_auth.Store.Types.{Time, App, RefreshToken}
use simple_auth.Store.Tokens.{list_user_sessions, revoke_token_family, delete_user_sessions}
use simple_auth.Handler.State.{Config, HandlerState, exec}
use simple_auth.Handler.Request.{Request}
use simple_auth.Handler.Redirect.{app_allows_redirect}
use simple_auth.Handler.Roles.{AppLookup, found, not_served, resolve_app}
use simple_auth.Handler.Sessions.{Cookie, delete_current_session}
use simple_auth.Handler.Jwt.{Claims, Mint}
use simple_auth.Handler.Issue.{audit}

pub data LoggedOut : Type 0 where
  redirected : String → LoggedOut
  page : LoggedOut

abbrev pub form_or_query : Request → String → String
form_or_query req key = if req.form_value key == "" then req.query key else req.form_value key

-- Only an ID token ends the sessions of its subject.
abbrev pub is_id_token : Claims → Bool
is_id_token c = c.typ == "ID" && (c.family_id == "")

abbrev pub app_or_none : AppLookup → Option App
app_or_none (not_served e) = none
app_or_none (found a) = some a

module _ ⦃bolt : Bbolt⦄ where
  unfoldable pub revoke_families : List RefreshToken → HandlerState → HandlerState
  revoke_families [] st = st
  revoke_families (rt ∷ l) st = revoke_families l (exec (revoke_token_family rt.family_id) st)

  abbrev pub hinted_app : Config → List String → HandlerState → Option App
  hinted_app cfg [] st = none
  hinted_app cfg (aud ∷ l) st = app_or_none (resolve_app cfg aud st.store)

  unfoldable pub end_sessions : Mint → String → HandlerState → HandlerState
  end_sessions mint subject st =
      let revoked = revoke_families (list_user_sessions mint.now subject st.store) st in
      audit mint "oidc_logout" subject [] (exec (delete_user_sessions subject) revoked)

  -- What the hint gives: the app of its audience, and the state after it.
  abbrev pub with_hint : Config → Mint → Option Claims → HandlerState → Option App × HandlerState
  with_hint cfg mint none st = (none, st)
  with_hint cfg mint (some c) st =
      if is_id_token c
      then (hinted_app cfg c.audience st, end_sessions mint c.subject st)
      else (none, st)

  abbrev pub app_of_request : Config → Request → Option App → HandlerState → Option App
  app_of_request cfg req (some a) st = some a
  app_of_request cfg req none st = app_or_none (resolve_app cfg (req.query "client_id") st.store)

  abbrev pub to_allowed : Config → String → Option App → HandlerState → LoggedOut
  to_allowed cfg uri none st = page
  to_allowed cfg uri (some a) st =
      if app_allows_redirect cfg st.runtime_settings a uri then redirected uri else page

  abbrev pub after_hint :
      Config → Request → Option App × HandlerState → LoggedOut × Cookie × HandlerState
  after_hint cfg req (hint, st) =
      let (cookie, last) = delete_current_session req.session_cookies st in
      let uri = form_or_query req "post_logout_redirect_uri" in
      (
        (if uri == "" then page else to_allowed cfg uri (app_of_request cfg req hint last) last),
        cookie,
        last,
      )

  abbrev pub parse_hint : (String → Option Claims) → String → Option Claims
  parse_hint parse hint = if hint == "" then none else parse hint

  unfoldable pub handle_oidc_logout :
      Config
      → Mint
      → (String → Option Claims)
      → Request
      → HandlerState
      → LoggedOut × Cookie × HandlerState
  handle_oidc_logout cfg mint parse req st =
      after_hint cfg req
        (with_hint cfg mint (parse_hint parse (form_or_query req "id_token_hint")) st)
