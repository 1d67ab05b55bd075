-- ===== src/Handler/Hosted/Targets.antt =====
-- internal/handler/hosted_login.go: where the browser is sent, with tokens and with errors.
use simple_auth.Prelude.{
  String, ◌≡◌, refl, ◌⊎◌, inl, inr, true, not, ◌&&◌, Option, List, [], ◌==◌, arith, Bool-cases,
  eq_iff,
}
use simple_auth.Bolt.{Bbolt}
use simple_auth.Store.Types.{User, App, RuntimeSettings}
use simple_auth.Handler.State.{Config, HandlerState}
use simple_auth.Handler.Request.{Request}
use simple_auth.Handler.Redirect.{app_allows_redirect}
use simple_auth.Handler.Roles.{
  AppLookup, found, not_served, granted, resolve_app, resolve_token_roles,
}
use simple_auth.Handler.Jwt.{Mint}
use simple_auth.Handler.Act.{
  Answer, done, refused, Act, after, after-eq-done, done-injective, after-effect,
}
use simple_auth.Handler.Guards.{
  app_allows, after-serve_app, after-grant_roles, after-refuse_redirect,
}
use simple_auth.Handler.Signin.{token_pair}
use simple_auth.Handler.Hosted.{
  unspecified, own_login_page, app_error_page, landing, landed, login_error_location,
  to_login_error, sent_on, or_login_error, hosted_tokens, complete_hosted_login_with_session,
}

module _ ⦃bolt : Bbolt⦄ (cfg : Config) (req : Request) where
  app_allows-found :
      (rs : Option RuntimeSettings) (l : AppLookup) (uri : String)
      → app_allows cfg rs l uri ≡ true
      → (a : App) × (l ≡ found a) × (app_allows_redirect cfg rs a uri ≡ true)
  app_allows-found rs (not_served e) uri h = cc
  app_allows-found rs (found a) uri h = (a, refl, h)

  -- An error goes to SimpleAuth's own login page, or to the URI of the request where the app of the
  -- request, which is served, allows that URI.
  pub login_error_location_lem :
      (uri msg : String) (st : HandlerState)
      → (login_error_location cfg req uri msg st ≡ own_login_page cfg req msg)
        ⊎ ((a : App) × (login_error_location cfg req uri msg st ≡ app_error_page req uri msg)
            × (resolve_app cfg (req.form_value "client_id") st.store ≡ found a)
            × (app_allows_redirect cfg st.runtime_settings a uri ≡ true))
  unfolding login_error_location
  login_error_location_lem uri msg st =
      let l = resolve_app cfg (req.form_value "client_id") st.store in
      elim (Bool-cases (not (uri == "") && app_allows cfg st.runtime_settings l uri)) [
        | inr own ↦ inl (rw own refl)
        | inl bounced ↦
            let (a, served, allowed) = app_allows-found st.runtime_settings l uri (ground arith) in
            inr (a, rw bounced refl, served, allowed)
      ]

  after-sent_on :
      {A B : Type 0} {b : B} {last : HandlerState} (uri msg : String) (p : Answer A × HandlerState)
      (rest : A → Act B)
      → after (sent_on cfg req uri msg p) rest ≡ (done b, last)
      → after p rest ≡ (done b, last)
  unfolding to_login_error
  after-sent_on uri msg (done a, st) rest h = h
  after-sent_on uri msg (refused r, st) rest h = cc

  pub after-or_login_error :
      {A B : Type 0} {b : B} {last : HandlerState} (uri msg : String) (step : Act A)
      (st : HandlerState) (rest : A → Act B)
      → after (or_login_error cfg req uri msg step st) rest ≡ (done b, last)
      → after (step st) rest ≡ (done b, last)
  unfolding or_login_error
  after-or_login_error uri msg step st rest h = after-sent_on uri msg (step st) rest h

  hosted_tokens-landed :
      (mint : Mint) (u : User) (a : App) (groups : List String) (uri : String)
      (extra : List (String × String)) (fragment : String → String → String) (st : HandlerState)
      {last : HandlerState} {location access refresh : String}
      → hosted_tokens cfg req mint u a groups uri extra fragment st
        ≡ (done (landed location access refresh), last)
      → (lists : List String × List String) × (resolve_token_roles cfg a u st.store
          ≡ granted lists.0 lists.1)
        × (location ≡ landing cfg req uri (fragment access refresh))
  unfolding hosted_tokens
  hosted_tokens-landed mint u a groups uri extra fragment st h =
      let h1 = after-or_login_error uri _ _ st _ h in
      let (lists, roles, h2) = after-grant_roles cfg a u _ st _ h1 in
      let (pair, s1, signed, h3) =
        after-eq-done (token_pair (unspecified cfg req) mint u lists groups a st) _ (
          after-or_login_error uri _ (token_pair (unspecified cfg req) mint u lists groups a) st _
            h2) in
      let h4 = after-effect _ s1 _ h3 in
      let same = (done-injective h4).0 in (lists, roles, landed-location _ _ same)
    where
      -- The location that is answered, in terms of the tokens that are answered.
      landed-location :
          (x y : String) {location access refresh : String}
          → landed (landing cfg req uri (fragment x y)) x y ≡ landed location access refresh
          → location ≡ landing cfg req uri (fragment access refresh)
      landed-location x y e = cc

  -- Tokens of a session login go to SimpleAuth's own account page, or to the URI of the request where
  -- the app of its client_id, which is served and grants the user roles, allows that URI.
  pub complete_hosted_login_with_session-landed :
      (mint : Mint) (u : User) (uri : String) (fragment : String → String → String)
      (st : HandlerState) {last : HandlerState} {location access refresh : String}
      → complete_hosted_login_with_session cfg req mint u uri fragment st
        ≡ (done (landed location access refresh), last)
      → (a : App) × (lists : List String × List String) × (resolve_app cfg
            (req.query "client_id")
            st.store
          ≡ found a)
        × (resolve_token_roles cfg a u st.store ≡ granted lists.0 lists.1)
        × (location ≡ landing cfg req uri (fragment access refresh))
        × ((uri ≡ "") ⊎ (app_allows_redirect cfg st.runtime_settings a uri ≡ true))
  unfolding complete_hosted_login_with_session
  complete_hosted_login_with_session-landed mint u uri fragment st h =
      let h1 = after-or_login_error uri _ _ st _ h in
      let (a, served, h2) = after-serve_app cfg _ _ st _ h1 in
      let (allowed, h3) = after-refuse_redirect cfg a uri _ st _ h2 in
      let (lists, roles, where_to) = hosted_tokens-landed mint u a [] uri _ fragment st h3 in
      (a, lists, served, roles, where_to, ground (arith, eq_iff uri ""))
