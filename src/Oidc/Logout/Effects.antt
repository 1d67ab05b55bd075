-- ===== src/Oidc/Logout/Effects.antt =====
-- internal/handler/oidc.go: what a logout revokes, and where it redirects to.
use simple_auth.Prelude.{
  String, ◌≡◌, refl, inl, inr, ap, sym, ◌∙◌, true, false, Option, none, some, List, [], ◌∷◌,
  Bool-cases, arith, ◌==◌, elem, map, lookup, eq_iff,
}
use simple_auth.Outcome.{Result, ok, err, refresh_token_not_found}
use simple_auth.Bolt.{Bbolt, Bytes, json, garbage, decode_or}
use simple_auth.Store.Types.{Time, App, RefreshToken}
use simple_auth.Store.State.{BoltStore}
use simple_auth.Store.Tokens.{
  is_active, active_of, list_user_sessions, revoke_token_family, delete_user_sessions,
  delete_session, get_refresh_token,
}
use simple_auth.Store.Tokens.Family.{outside_family, get_refresh_token-revoke_token_family}
use simple_auth.Handler.State.{Config, Env, HandlerState, exec}
use simple_auth.Handler.Request.{Request}
use simple_auth.Handler.Redirect.{app_allows_redirect}
use simple_auth.Handler.Sessions.{delete_current_session}
use simple_auth.Handler.Jwt.{Claims, Mint}
use simple_auth.Handler.Refresh.Rotation.{get_refresh_token-audit}
use simple_auth.Oidc.Logout.{
  redirected, form_or_query, is_id_token, revoke_families, end_sessions, with_hint, to_allowed,
  app_of_request, after_hint, parse_hint, handle_oidc_logout,
}

abbrev families : List RefreshToken → List String
families l = map (λ rt. rt.family_id) l

module _ ⦃bolt : Bbolt⦄ where
  outside_family-eq-ok :
      (f : String) (r : Result RefreshToken) {rt : RefreshToken}
      → outside_family f r ≡ ok rt
      → (r ≡ ok rt) × ((f == rt.family_id) ≡ false)
  outside_family-eq-ok f (err e) h = cc
  outside_family-eq-ok f (ok x) {rt} h = elim (Bool-cases (x.family_id == f)) [
    | inl same ↦ let refuted = rw same at h in cc
    | inr other ↦
        let e : ok x ≡ ok rt = rw other at h in
        let same : x ≡ rt = cc in (e, ground (arith, eq_iff x.family_id f, eq_iff f x.family_id))
  ]

  get_refresh_token-revoke_families :
      (l : List RefreshToken) (t : String) (st : HandlerState) {rt : RefreshToken}
      → get_refresh_token t (revoke_families l st).store ≡ ok rt
      → (get_refresh_token t st.store ≡ ok rt) × (elem rt.family_id (families l) ≡ false)
  unfolding revoke_families
  get_refresh_token-revoke_families [] t st h = (h, refl)
  get_refresh_token-revoke_families (x ∷ l) t st h =
      let (found, other) =
        get_refresh_token-revoke_families l t (exec (revoke_token_family x.family_id) st) h in
      let (before, apart) =
        outside_family-eq-ok x.family_id (get_refresh_token t st.store)
          (sym (get_refresh_token-revoke_token_family x.family_id t st.store) ∙ found) in
      (before, ground arith)

  elem-active_of :
      (now : Time) (subject t : String) (l : List (String × Bytes RefreshToken)) {rt : RefreshToken}
      → lookup t l ≡ some (json rt)
      → is_active now subject rt ≡ true
      → elem rt.family_id (families (active_of now subject l)) ≡ true
  unfolding active_of
  elem-active_of now subject t [] h active = cc
  elem-active_of now subject t ((k, garbage) ∷ l) h active = elim (Bool-cases (k == t)) [
    | inl here ↦ let refuted = rw here at h in cc
    | inr there ↦ elem-active_of now subject t l (rw there at h) active
  ]
  elem-active_of now subject t ((k, json x) ∷ l) {rt} h active = elim (Bool-cases (k == t)) [
    | inl here ↦
        let e : some (json x) ≡ some (json rt) = rw here at h in
        let same : x ≡ rt = cc in
        rw (same, active) (ground (arith, eq_iff rt.family_id rt.family_id))
    | inr there ↦
        let later = elem-active_of now subject t l (rw there at h) active in
        elim (Bool-cases (is_active now subject x)) [
          | inl listed ↦ rw listed (ground arith)
          | inr passed_over ↦ rw passed_over later
        ]
  ]

  decode_or-eq-ok :
      (o : Option (Bytes RefreshToken)) {rt : RefreshToken}
      → decode_or refresh_token_not_found o ≡ ok rt
      → o ≡ some (json rt)
  decode_or-eq-ok none h = cc
  decode_or-eq-ok (some garbage) h = cc
  decode_or-eq-ok (some (json x)) h = ap (λ y. some (json y)) cc

  elem-list_user_sessions :
      (now : Time) (subject t : String) (s : BoltStore) {rt : RefreshToken}
      → get_refresh_token t s ≡ ok rt
      → is_active now subject rt ≡ true
      → elem rt.family_id (families (list_user_sessions now subject s)) ≡ true
  unfolding list_user_sessions get_refresh_token
  elem-list_user_sessions now subject t s h active =
      elem-active_of now subject t (bolt.entries s.refresh_tokens)
        (bolt.lookup-entries s.refresh_tokens t ∙ decode_or-eq-ok _ h) active

  get_refresh_token-delete_current_session :
      (l : List String) (t : String) (st : HandlerState)
      → get_refresh_token t (delete_current_session l st).1.store ≡ get_refresh_token t st.store
  unfolding delete_current_session get_refresh_token delete_session
  get_refresh_token-delete_current_session [] t st = refl
  get_refresh_token-delete_current_session (value ∷ l) t st = elim (Bool-cases (value == "")) [
    | inl blank ↦ rw blank (get_refresh_token-delete_current_session l t st)
    | inr given ↦
        rw given (get_refresh_token-delete_current_session l t (exec (delete_session value) st))
  ]

  get_refresh_token-end_sessions :
      (env : Env) (cfg : Config) (mint : Mint) (subject t : String) (st : HandlerState)
      → get_refresh_token t (end_sessions mint subject st).store
        ≡ get_refresh_token t
            (revoke_families (list_user_sessions mint.now subject st.store) st).store
  unfolding end_sessions delete_user_sessions revoke_families list_user_sessions get_refresh_token
  get_refresh_token-end_sessions env cfg mint subject t st =
      get_refresh_token-audit env cfg mint t "oidc_logout" subject [] _ ∙ refl

  module _ (env : Env) (cfg : Config) (mint : Mint) (parse : String → Option Claims) (req : Request)
      (st : HandlerState) where
    -- The state that a logout leaves, up to the cookie of this browser.
    get_refresh_token-after_hint :
        (t : String) (p : Option App × HandlerState)
        → get_refresh_token t (after_hint cfg req p).2.store ≡ get_refresh_token t p.1.store
    get_refresh_token-after_hint t (hint, s) =
        get_refresh_token-delete_current_session req.session_cookies t s

    -- A logout whose hint is an ID token leaves its subject no refresh token that is unused and not
    -- expired; and what refresh tokens there are after it, were there before.
    pub handle_oidc_logout-revoked :
        (c : Claims) (t : String) (rt : RefreshToken)
        → parse_hint parse (form_or_query req "id_token_hint") ≡ some c
        → is_id_token c ≡ true
        → get_refresh_token t (handle_oidc_logout cfg mint parse req st).2.store ≡ ok rt
        → (is_active mint.now c.subject rt ≡ false) × (get_refresh_token t st.store ≡ ok rt)
    unfolding handle_oidc_logout
    handle_oidc_logout-revoked c t rt parsed is_id h =
        let p = with_hint cfg mint (some c) st in
        let here : get_refresh_token t (after_hint cfg req p).2.store ≡ ok rt = rw parsed at h in
        let hinted : get_refresh_token t p.1.store ≡ ok rt =
          sym (get_refresh_token-after_hint t p) ∙ here in
        let ended : get_refresh_token t (end_sessions mint c.subject st).store ≡ ok rt =
          rw is_id at hinted in
        let (before, spared) =
          get_refresh_token-revoke_families (list_user_sessions mint.now c.subject st.store) t st
            (sym (get_refresh_token-end_sessions env cfg mint c.subject t st) ∙ ended) in
        elim (Bool-cases (is_active mint.now c.subject rt)) [
          | inr idle ↦ (idle, before)
          | inl active ↦
              let listed = elem-list_user_sessions mint.now c.subject t st.store before active in
              absurd (ground arith)
        ]

    -- A logout without an ID token, whatever other token it is given, leaves every refresh token.
    pub handle_oidc_logout-kept :
        (t : String)
        → ((c : Claims)
            → parse_hint parse (form_or_query req "id_token_hint") ≡ some c
            → is_id_token c ≡ false)
        → get_refresh_token t (handle_oidc_logout cfg mint parse req st).2.store
          ≡ get_refresh_token t st.store
    unfolding handle_oidc_logout
    handle_oidc_logout-kept t other =
        get_refresh_token-after_hint t
          (with_hint cfg mint (parse_hint parse (form_or_query req "id_token_hint")) st)
        ∙ unhinted (parse_hint parse (form_or_query req "id_token_hint")) other
      where
        unhinted :
            (o : Option Claims)
            → ((c : Claims) → o ≡ some c → is_id_token c ≡ false)
            → get_refresh_token t (with_hint cfg mint o st).1.store ≡ get_refresh_token t st.store
        unhinted none h = refl
        unhinted (some c) h = rw (h c refl) refl

    to_allowed-redirected :
        (uri target : String) (o : Option App) (s : HandlerState)
        → to_allowed cfg uri o s ≡ redirected target
        → (a : App) × (o ≡ some a)
          × (uri ≡ target)
          × (app_allows_redirect cfg s.runtime_settings a target ≡ true)
    to_allowed-redirected uri target none s h = cc
    to_allowed-redirected uri target (some a) s h =
        elim (Bool-cases (app_allows_redirect cfg s.runtime_settings a uri)) [
          | inr refused ↦ let refuted = rw refused at h in cc
          | inl allowed ↦
              let e : redirected uri ≡ redirected target = rw allowed at h in
              let same : uri ≡ target = cc in (a, refl, same, rw (← same) allowed)
        ]

    after_hint-redirected :
        (target : String) (p : Option App × HandlerState)
        → (after_hint cfg req p).0 ≡ redirected target
        → (a : App) × (s : HandlerState) × (form_or_query req "post_logout_redirect_uri" ≡ target)
          × (app_allows_redirect cfg s.runtime_settings a target ≡ true)
          × (s ≡ (after_hint cfg req p).2)
    after_hint-redirected target (hint, s) h =
        let last = (delete_current_session req.session_cookies s).1 in
        let uri = form_or_query req "post_logout_redirect_uri" in
        elim (Bool-cases (uri == "")) [
          | inl blank ↦ let refuted = rw blank at h in cc
          | inr given ↦
              let (a, chosen, same, allowed) =
                to_allowed-redirected uri target (app_of_request cfg req hint last) last
                  (rw given at h) in
              (a, last, same, allowed, refl)
        ]

    -- A logout redirects only to the URI of the request, and only where an app allows that URI under
    -- the settings in force.
    pub handle_oidc_logout-redirected :
        (target : String)
        → (handle_oidc_logout cfg mint parse req st).0 ≡ redirected target
        → (a : App) × (s : HandlerState) × (form_or_query req "post_logout_redirect_uri" ≡ target)
          × (app_allows_redirect cfg s.runtime_settings a target ≡ true)
          × (s ≡ (handle_oidc_logout cfg mint parse req st).2)
    unfolding handle_oidc_logout
    handle_oidc_logout-redirected target h = after_hint-redirected target _ h
