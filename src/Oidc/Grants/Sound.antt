-- ===== src/Oidc/Grants/Sound.antt =====
-- internal/handler/oidc.go: what the refresh and the password grants ask for.
use simple_auth.Prelude.{String, ◌≡◌, refl, ◌⊎◌, ap, sym, true, false, Option, some, List}
use simple_auth.Outcome.{ok}
use simple_auth.Bolt.{Bbolt}
use simple_auth.Store.Types.{User, App, RefreshToken}
use simple_auth.Store.State.{BoltStore}
use simple_auth.Store.Users.{resolve_user}
use simple_auth.Store.Tokens.{
  Consumed, consumed, reused, failed, consume_refresh_token, is_user_access_revoked,
}
use simple_auth.Handler.State.{Config, Env, HandlerState}
use simple_auth.Handler.Request.{Request}
use simple_auth.Handler.Limiter.{allow}
use simple_auth.Handler.Login.{app_local_user, mapped_user}
use simple_auth.Handler.Login.Sound.{DirectoryAgrees, PasswordAgrees, authenticate_user-accepted}
use simple_auth.Handler.Directory.{directory_account_disabled}
use simple_auth.Handler.Roles.{found, granted, resolve_app, resolve_token_roles}
use simple_auth.Handler.Jwt.{Claims, Mint}
use simple_auth.Handler.Act.{
  done, Act, after, after-refuse_if, after-some_or, after-fetch, after-rate_limit, after-eq-done,
}
use simple_auth.Handler.Guards.{
  after-serve_app, after-grant_roles, after-refuse_inactive, after-refuse_revoked,
}
use simple_auth.Handler.Signin.Gate.{after-log_in}
use simple_auth.Oidc.Tokens.{TokenSet}
use simple_auth.Oidc.Clients.{presented_client_secret, authenticate_confidential_client}
use simple_auth.Oidc.Clients.Secret.{Knows, authenticate_confidential_client-Knows}
use simple_auth.Oidc.Grants.{
  redeem, redeem_token, handle_oidc_token_password, handle_oidc_token_refresh,
}

module _ ⦃bolt : Bbolt⦄ (env : Env) (cfg : Config) (mint : Mint) (at_hash : String → String)
    (challenge_of : String → String) (parse : String → Option Claims) (fresh : String)
    (req : Request) where
  after-redeem :
      {B : Type 0} {b : B} {last : HandlerState} (p : Consumed × BoltStore) (st : HandlerState)
      (rest : RefreshToken → Act B)
      → after (redeem p st) rest ≡ (done b, last)
      → (rt : RefreshToken) × (p.0 ≡ consumed rt)
        × (rest rt (record st { store = p.1 }) ≡ (done b, last))
  after-redeem (consumed rt, s) st rest h = (rt, refl, h)
  after-redeem (reused rt, s) st rest h = cc
  after-redeem (failed e, s) st rest h = cc

  after-redeem_token :
      {B : Type 0} {b : B} {last : HandlerState} (id : String) (st : HandlerState)
      (rest : RefreshToken → Act B)
      → after (redeem_token id st) rest ≡ (done b, last)
      → (rt : RefreshToken) × ((consume_refresh_token id st.store).0 ≡ consumed rt)
        × (rest rt (record st { store = (consume_refresh_token id st.store).1 }) ≡ (done b, last))
  unfolding redeem_token
  after-redeem_token id st rest h = after-redeem (consume_refresh_token id st.store) st rest h

  -- What holds of the user and the app of a redeemed token, in the state after the consumption.
  abbrev pub IsOpen : RefreshToken → User → App → HandlerState → Type 0
  IsOpen rt u a st =
      (u.disabled ≡ false)
      × ((directory_account_disabled env cfg mint.now u st).0 ≡ false)
      × (is_user_access_revoked mint.now u.guid
            (directory_account_disabled env cfg mint.now u st).1.store
          ≡ false)
      × (resolve_app cfg rt.app_id (directory_account_disabled env cfg mint.now u st).1.store
          ≡ found a)
      × ((lists : List String × List String) × (resolve_token_roles cfg a u
              (directory_account_disabled env cfg mint.now u st).1.store
            ≡ granted lists.0 lists.1))

  -- A refresh grant that gives tokens redeems a token that parses and that the store hands out for the
  -- first time; its subject resolves to a user who is enabled, active in the directory and not revoked,
  -- and the app that it is bound to is served and grants the user roles.
  pub handle_oidc_token_refresh-done :
      (st : HandlerState) {last : HandlerState} {tokens : TokenSet}
      → handle_oidc_token_refresh env cfg mint at_hash challenge_of parse fresh req st
        ≡ (done tokens, last)
      → (c : Claims) × (rt : RefreshToken) × (u : User) × (a : App) × (parse
            (req.form_value "refresh_token")
          ≡ some c)
        × ((consume_refresh_token c.id st.store).0 ≡ consumed rt)
        × (resolve_user c.subject (consume_refresh_token c.id st.store).1 ≡ ok u)
        × IsOpen rt u a (record st { store = (consume_refresh_token c.id st.store).1 })
  unfolding handle_oidc_token_refresh
  handle_oidc_token_refresh-done st h =
      let (nonblank, h1) = after-refuse_if _ _ st _ h in
      let (c, parsed, h2) = after-some_or _ _ st _ h1 in
      let (rt, first, h3) = after-redeem_token c.id st _ h2 in
      let s1 = record st { store = (consume_refresh_token c.id st.store).1 } in
      let (u, resolved, h4) = after-fetch _ _ s1 _ h3 in
      let (on, active, h5) = after-refuse_inactive env cfg mint.now u _ s1 _ h4 in
      let s2 = (directory_account_disabled env cfg mint.now u s1).1 in
      let (kept, h6) = after-refuse_revoked mint.now u.guid _ s2 _ h5 in
      let (a, served, h7) = after-serve_app cfg rt.app_id _ s2 _ h6 in
      let (lists, roles, h8) = after-grant_roles cfg a u _ s2 _ h7 in
      (c, rt, u, a, parsed, first, resolved, (on, active, kept, served, (lists, roles)))

  -- The state after the limiter has counted the request.
  abbrev pub counted : HandlerState → HandlerState
  counted st = record st { login_limiter = (allow mint.now mint.ip st.login_limiter).1 }

  -- A password grant that gives tokens comes from a client that knows the secret of its app, within the
  -- rate limit, with a name and a password that an enabled and unlocked user of the app or of the local
  -- provider has, or that a directory takes.
  pub handle_oidc_token_password-done :
      (st : HandlerState) {last : HandlerState} {tokens : TokenSet}
      → handle_oidc_token_password env cfg mint at_hash challenge_of parse fresh req st
        ≡ (done tokens, last)
      → (a : App) × (s : HandlerState) × (resolve_app cfg (req.form_value "client_id") st.store
          ≡ found a)
        × Knows env cfg a (presented_client_secret req)
        × ((allow mint.now mint.ip st.login_limiter).0 ≡ true)
        × (s ≡ counted st)
        × (((u : User) × ((app_local_user (some a) (req.form_value "username") s ≡ some u)
                ⊎ (mapped_user "local" (req.form_value "username") s ≡ some u))
              × PasswordAgrees env cfg fresh mint.now
                  (req.form_value "username")
                  (req.form_value "password")
                  u
                  s)
            ⊎ DirectoryAgrees env cfg fresh mint.now
                (req.form_value "username")
                (req.form_value "password"))
  unfolding handle_oidc_token_password
  handle_oidc_token_password-done st h =
      let (a, s1, client, h1) =
        after-eq-done (authenticate_confidential_client env cfg req st) _ h in
      let (served, nonblank, knows, same) =
        authenticate_confidential_client-Knows env cfg req st client in
      let (filled, h2) = after-refuse_if _ _ s1 _ h1 in
      let (passed, h3) = after-rate_limit mint.now mint.ip _ s1 _ h2 in
      let s2 = counted s1 in
      let (guid, groups, agreed, h4) = after-log_in env cfg mint fresh _ _ _ _ a s2 _ h3 in
      (
        a,
        s2,
        served,
        knows,
        rw same passed,
        ap counted (sym same),
        authenticate_user-accepted env cfg fresh mint.now (req.form_value "username")
            (req.form_value "password") (some a) s2 agreed,
      )
