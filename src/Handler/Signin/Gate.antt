-- ===== src/Handler/Signin/Gate.antt =====
-- internal/handler/auth.go: who is signed in, and whom a master may impersonate.
use simple_auth.Prelude.{
  String, ◌≡◌, refl, ◌∙◌, ap, true, false, Option, some, List, [], ◌∷◌, if◌then◌else◌, ◌==◌,
}
use simple_auth.Outcome.{ok}
use simple_auth.Bolt.{Bbolt}
use simple_auth.Store.Types.{Time, User, App}
use simple_auth.Store.Users.{resolve_user}
use simple_auth.Store.Tokens.{is_user_access_revoked}
use simple_auth.Handler.State.{Config, Env, HandlerState}
use simple_auth.Handler.Limiter.{allow}
use simple_auth.Handler.Login.{Login, accepted, authenticate_user}
use simple_auth.Handler.Roles.{found, granted, resolve_app, resolve_token_roles, app_audience}
use simple_auth.Handler.Jwt.{Claims, Mint, issue_access_token}
use simple_auth.Handler.Access.{Validated, good, bad, validate_access_token}
use simple_auth.Handler.Act.{
  Refusal, done, Act, after, after-refuse_if, after-some_or, after-fetch, after-look, after-effect,
  after-rate_limit, done-injective,
}
use simple_auth.Handler.Guards.{after-serve_app, after-grant_roles, after-refuse_revoked}
use simple_auth.Handler.Signin.{
  LoginBody, SignedIn, Impersonation, login_or, log_in, issue_token_response, handle_login,
  impersonation_claims, lists_of, handle_impersonate, claims_or, access_claims,
}

module _ ⦃bolt : Bbolt⦄ where
  module _ {B : Type 0} {b : B} {last : HandlerState} where
    after-login_or :
        (mint : Mint) (r : Refusal) (username : String) (extra : List (String × String))
        (p : Login × HandlerState) (rest : String × List String → Act B)
        → after (login_or r mint username extra p) rest ≡ (done b, last)
        → (guid : String) × (groups : List String) × (p.0 ≡ accepted guid groups)
          × (rest (guid, groups) p.1 ≡ (done b, last))
    after-login_or mint r username extra (accepted guid groups, st) rest h = (guid, groups, refl, h)
    after-login_or mint r username extra (Login.refused e, st) rest h = cc

    pub after-log_in :
        (env : Env) (cfg : Config) (mint : Mint) (fresh : String) (r : Refusal)
        (username password : String) (extra : List (String × String)) (a : App) (st : HandlerState)
        (rest : String × List String → Act B)
        → after (log_in r env cfg mint fresh username password extra a st) rest ≡ (done b, last)
        → (guid : String) × (groups : List String) × ((authenticate_user env cfg fresh mint.now
              username password
              (some a)
              st).0
            ≡ accepted guid groups)
          × (rest
                (guid, groups)
                (authenticate_user env cfg fresh mint.now username password (some a) st).1
              ≡ (done b, last))
    unfolding log_in
    after-log_in env cfg mint fresh r username password extra a st rest h =
        after-login_or mint r username extra
          (authenticate_user env cfg fresh mint.now username password (some a) st) rest h

    after-claims_or :
        (v : Validated) (r : Refusal) (st : HandlerState) (rest : Claims → Act B)
        → after (claims_or r v st) rest ≡ (done b, last)
        → (c : Claims) × (v ≡ good c) × (rest c st ≡ (done b, last))
    after-claims_or (good c) r st rest h = (c, refl, h)
    after-claims_or (bad e) r st rest h = cc

    pub after-access_claims :
        (parse : String → Option Claims) (now : Time) (token : String) (r : Refusal)
        (st : HandlerState) (rest : Claims → Act B)
        → after (access_claims r parse now token st) rest ≡ (done b, last)
        → (c : Claims) × (validate_access_token parse now token st.store ≡ good c)
          × (rest c st ≡ (done b, last))
    unfolding access_claims
    after-access_claims parse now token r st rest h =
        after-claims_or (validate_access_token parse now token st.store) r st rest h

  -- An impersonation token is minted only for a user who is there, enabled and not revoked, at an app
  -- that is served; it names the user, carries that app's audience and is marked as an impersonation.
  pub handle_impersonate-done :
      (cfg : Config) (mint : Mint) (body : Option Impersonation) (st : HandlerState)
      {last : HandlerState} {token : String}
      → handle_impersonate cfg mint body st ≡ (done token, last)
      → (b : Impersonation) × (target : User) × (a : App) × (c : Claims) × (body ≡ some b)
        × (resolve_user b.target_guid st.store ≡ ok target)
        × (target.disabled ≡ false)
        × (is_user_access_revoked mint.now target.guid st.store ≡ false)
        × (resolve_app cfg b.app_id st.store ≡ found a)
        × (issue_access_token mint c mint.impersonate_ttl ≡ some token)
        × (c.impersonated ≡ true)
        × (c.subject ≡ target.guid)
        × (c.audience ≡ app_audience a ∷ [])
  unfolding handle_impersonate
  handle_impersonate-done cfg mint body st h =
      let (b, decoded, h1) = after-some_or body _ st _ h in
      let (named, h2) = after-refuse_if _ _ st _ h1 in
      let (target, resolved, h3) = after-fetch _ _ st _ h2 in
      let (on, h4) = after-refuse_if _ _ st _ h3 in
      let (kept, h5) = after-refuse_revoked mint.now target.guid _ st _ h4 in
      let (a, served, h6) = after-serve_app cfg b.app_id _ st _ h5 in
      let h7 = after-look _ st _ h6 in
      let (access, signed, h8) = after-some_or _ _ st _ h7 in
      let h9 = after-effect _ st _ h8 in
      let same = (done-injective h9).0 in
      (
        b,
        target,
        a,
        impersonation_claims target st.store (lists_of (resolve_token_roles cfg a target st.store))
            a,
        decoded,
        resolved,
        on,
        kept,
        served,
        signed ∙ ap some same,
        refl,
        refl,
        refl,
      )

  -- A login that gives tokens is within the rate limit; the name and the password are those of an
  -- enabled and unlocked user of the app or of the local provider, or a directory takes them; and the
  -- app, which is served, grants the resolved user roles.
  pub handle_login-done :
      (env : Env) (cfg : Config) (mint : Mint) (fresh : String) (body : Option LoginBody)
      (st : HandlerState) {last : HandlerState} {answer : SignedIn}
      → handle_login env cfg mint fresh body st ≡ (done answer, last)
      → (b : LoginBody) × (a : App) × (u : User) × (guid : String) × (groups : List String)
        × (lists : List String × List String) × (s : HandlerState) × (body ≡ some b)
        × ((allow mint.now mint.ip st.login_limiter).0 ≡ true)
        × (resolve_app cfg (if b.app_id == "" then b.client_id else b.app_id) st.store ≡ found a)
        × (authenticate_user env cfg fresh mint.now b.username b.password
              (some a)
              (record st { login_limiter = (allow mint.now mint.ip st.login_limiter).1 })
            ≡ (accepted guid groups, s))
        × (resolve_user guid s.store ≡ ok u)
        × (resolve_token_roles cfg a u s.store ≡ granted lists.0 lists.1)
  unfolding handle_login issue_token_response
  handle_login-done env cfg mint fresh body st h =
      let (passed, h1) = after-rate_limit mint.now mint.ip _ st _ h in
      let s1 = record st { login_limiter = (allow mint.now mint.ip st.login_limiter).1 } in
      let (b, decoded, h2) = after-some_or body _ s1 _ h1 in
      let (filled, h3) = after-refuse_if _ _ s1 _ h2 in
      let (a, served, h4) = after-serve_app cfg _ _ s1 _ h3 in
      let (guid, groups, agreed, h5) =
        after-log_in env cfg mint fresh _ b.username b.password [] a s1 _ h4 in
      let s2 = (authenticate_user env cfg fresh mint.now b.username b.password (some a) s1).1 in
      let (u, resolved, h6) = after-fetch _ _ s2 _ h5 in
      let (lists, roles, h7) = after-grant_roles cfg a u _ s2 _ h6 in
      (
        b,
        a,
        u,
        guid,
        groups,
        lists,
        s2,
        decoded,
        passed,
        served,
        ap (λ (o : Login). (o, s2)) agreed,
        resolved,
        roles,
      )
