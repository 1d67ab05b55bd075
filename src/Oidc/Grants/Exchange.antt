-- ===== src/Oidc/Grants/Exchange.antt =====
-- internal/handler/oidc.go: what the exchange of an authorization code asks for, and that no code is
-- exchanged twice.
use simple_auth.Prelude.{
  String, ◌≡◌, refl, ◌≢◌, ◌⊎◌, ap, ap₂, true, false, Option, none, List, arith, ◌==◌, eq_iff,
}
use simple_auth.Outcome.{ok}
use simple_auth.Bolt.{Bbolt, Bytes}
use simple_auth.Store.Types.{User, App, OidcAuthCode}
use simple_auth.Store.State.{BoltStore}
use simple_auth.Store.Users.{resolve_user}
use simple_auth.Store.Tokens.{consume_oidc_auth_code}
use simple_auth.Store.Tokens.Codes.{get-consume_oidc_auth_code, consume_oidc_auth_code-missing}
use simple_auth.Handler.State.{Config, Env, HandlerState}
use simple_auth.Handler.Request.{Request}
use simple_auth.Handler.Redirect.{verify_pkce}
use simple_auth.Handler.Roles.{found, granted, resolve_app, resolve_token_roles}
use simple_auth.Handler.Jwt.{Claims, Mint}
use simple_auth.Handler.Act.{
  done, refused, call_ok, call_err, after-refuse_if, after-call, after-fetch, refuse_if,
}
use simple_auth.Handler.Act.Frame.{
  keeps-refuse_if, keeps-some_or, keeps-fetch, keeps-call, keeps-effect,
  oidc_auth_codes-save_refresh_token, oidc_auth_codes-audit,
}
use simple_auth.Handler.Guards.{
  after-serve_app, after-grant_roles, keeps-serve_app, keeps-grant_roles,
}
use simple_auth.Oidc.Tokens.{TokenSet, issue_oidc_tokens}
use simple_auth.Oidc.Grants.{
  invalid_grant, is_other_redirect, fails_pkce, exchange_code, handle_oidc_token_auth_code,
}

module _ ⦃bolt : Bbolt⦄ (env : Env) (cfg : Config) (mint : Mint) (at_hash : String → String)
    (challenge_of : String → String) (parse : String → Option Claims) (fresh : String)
    (req : Request) where
  issue_oidc_tokens-granted :
      (u : User) (scope nonce : String) (a : App) (st : HandlerState) {last : HandlerState}
      {tokens : TokenSet}
      → issue_oidc_tokens cfg mint at_hash req u scope nonce a st ≡ (done tokens, last)
      → (lists : List String × List String) × (resolve_token_roles cfg a u st.store
          ≡ granted lists.0 lists.1)
  unfolding issue_oidc_tokens
  issue_oidc_tokens-granted u scope nonce a st h =
      let (lists, roles, rest) = after-grant_roles cfg a u _ st _ h in (lists, roles)

  other_redirect :
      (ac : OidcAuthCode) (uri : String)
      → is_other_redirect env cfg mint at_hash challenge_of parse fresh req ac uri ≡ false
      → (ac.redirect_uri ≡ "") ⊎ (ac.redirect_uri ≡ uri)
  other_redirect ac uri h = ground (arith, eq_iff ac.redirect_uri "", eq_iff ac.redirect_uri uri)

  unverified :
      (ac : OidcAuthCode)
      → fails_pkce env cfg mint at_hash challenge_of parse fresh req ac
          (req.form_value "code_verifier")
        ≡ false
      → (ac.code_challenge ≡ "")
        ⊎ (verify_pkce challenge_of
              (req.form_value "code_verifier")
              ac.code_challenge
              ac.code_challenge_method
            ≡ true)
  unverified ac h = ground (arith, eq_iff ac.code_challenge "")

  -- An exchange that gives tokens redeems a stored code that is not expired; the redirect URI and the
  -- PKCE verifier are the ones that the code is bound to, where it is bound; and its app, which is
  -- served, grants roles to its user.
  pub handle_oidc_token_auth_code-done :
      (st : HandlerState) {last : HandlerState} {tokens : TokenSet}
      → handle_oidc_token_auth_code env cfg mint at_hash challenge_of parse fresh req st
        ≡ (done tokens, last)
      → (ac : OidcAuthCode) × (u : User) × (a : App) × (lists : List String × List String)
        × (s : BoltStore) × (consume_oidc_auth_code mint.now (req.form_value "code") st.store
            ≡ (ok ac, s))
        × ((ac.redirect_uri ≡ "") ⊎ (ac.redirect_uri ≡ req.form_value "redirect_uri"))
        × ((ac.code_challenge ≡ "")
            ⊎ (verify_pkce challenge_of
                  (req.form_value "code_verifier")
                  ac.code_challenge
                  ac.code_challenge_method
                ≡ true))
        × (resolve_user ac.user_guid s ≡ ok u)
        × (resolve_app cfg ac.app_id s ≡ found a)
        × (resolve_token_roles cfg a u s ≡ granted lists.0 lists.1)
  unfolding handle_oidc_token_auth_code exchange_code
  handle_oidc_token_auth_code-done st h =
      let s = (consume_oidc_auth_code mint.now (req.form_value "code") st.store).1 in
      let after_code = record st { store = s } in
      let (nonblank, h1) = after-refuse_if _ _ st _ h in
      let (ac, consumed, h2) = after-call _ _ st _ h1 in
      let (bound, h3) = after-refuse_if _ _ after_code _ h2 in
      let (verified, h4) = after-refuse_if _ _ after_code _ h3 in
      let (u, resolved, h5) = after-fetch _ _ after_code _ h4 in
      let (a, served, h6) = after-serve_app cfg _ _ after_code _ h5 in
      let (lists, roles) = issue_oidc_tokens-granted u ac.scope ac.nonce a after_code h6 in
      (
        ac,
        u,
        a,
        lists,
        s,
        ap₂ (λ o x. (o, x)) consumed refl,
        other_redirect ac (req.form_value "redirect_uri") bound,
        unverified ac verified,
        resolved,
        served,
        roles,
      )

  -- The codes that are stored.
  abbrev codes : HandlerState → bolt.Bucket (Bytes OidcAuthCode)
  codes st = st.store.oidc_auth_codes

  codes-issue_oidc_tokens :
      (u : User) (scope nonce : String) (a : App) (st : HandlerState)
      → codes (issue_oidc_tokens cfg mint at_hash req u scope nonce a st).1 ≡ codes st
  unfolding issue_oidc_tokens
  codes-issue_oidc_tokens u scope nonce a st = keeps-grant_roles codes _ st _ cfg a u λ grant.
      keeps-some_or codes _ st _ _ λ access. keeps-some_or codes _ st _ _ λ refresh.
        keeps-call codes _ st _ _ (oidc_auth_codes-save_refresh_token _ st.store) λ x.
          keeps-some_or codes _ _ _ _
            λ id. keeps-effect codes _ _ _ (oidc_auth_codes-audit mint "oidc_token" u.guid _ _) refl

  codes-exchange_code :
      (ac : OidcAuthCode) (st : HandlerState)
      → codes (exchange_code env cfg mint at_hash challenge_of parse fresh req ac st).1 ≡ codes st
  unfolding exchange_code
  codes-exchange_code ac st = keeps-refuse_if codes _ st _ _ (
      keeps-refuse_if codes _ st _ _ (
        keeps-fetch codes _ st _ _ λ u.
          keeps-serve_app codes _ st _ cfg ac.app_id
            λ a. codes-issue_oidc_tokens u ac.scope ac.nonce a st))

  -- The exchange of a code that the store hands out leaves no such code, whatever it answers.
  get-handle_oidc_token_auth_code :
      (st : HandlerState) {ac : OidcAuthCode}
      → (req.form_value "code" == "") ≡ false
      → (consume_oidc_auth_code mint.now (req.form_value "code") st.store).0 ≡ ok ac
      → bolt.get
          (codes
            (handle_oidc_token_auth_code env cfg mint at_hash challenge_of parse fresh req st).1)
          (req.form_value "code")
        ≡ none
  unfolding handle_oidc_token_auth_code refuse_if
  get-handle_oidc_token_auth_code st {ac} nonblank consumed =
      let spent =
        call_ok (consume_oidc_auth_code mint.now (req.form_value "code")) invalid_grant st
          consumed in
      rw
        (
          nonblank,
          spent,
          codes-exchange_code ac (record st {
            store = (consume_oidc_auth_code mint.now (req.form_value "code") st.store).1;
          }),
        )
        (get-consume_oidc_auth_code mint.now (req.form_value "code") st.store ac consumed)

module _ ⦃bolt : Bbolt⦄ where
  handle_oidc_token_auth_code-missing :
      (env : Env) (cfg : Config) (mint : Mint) (at_hash challenge_of : String → String)
      (parse : String → Option Claims) (fresh : String) (req : Request) (st : HandlerState)
      → (req.form_value "code" == "") ≡ false
      → bolt.get st.store.oidc_auth_codes (req.form_value "code") ≡ none
      → (handle_oidc_token_auth_code env cfg mint at_hash challenge_of parse fresh req st).0
        ≡ refused invalid_grant
  unfolding handle_oidc_token_auth_code refuse_if
  handle_oidc_token_auth_code-missing env cfg mint at_hash challenge_of parse fresh req st nonblank
        missing =
      let lost = consume_oidc_auth_code-missing mint.now (req.form_value "code") st.store missing in
      rw
        (
          nonblank,
          call_err (consume_oidc_auth_code mint.now (req.form_value "code")) invalid_grant st
              (ap (λ p. p.0) lost),
        )
        refl

  -- Once an exchange has consumed a code, whether or not it gave tokens, every later exchange of that
  -- code is refused, from any client, at any time, with any verifier.
  pub handle_oidc_token_auth_code-twice :
      (env : Env) (cfg : Config) (mint : Mint) (at_hash challenge_of : String → String)
      (parse : String → Option Claims) (fresh : String) (req : Request) (later : Mint)
      (other : Request) (st : HandlerState) {ac : OidcAuthCode}
      → req.form_value "code" ≢ ""
      → other.form_value "code" ≡ req.form_value "code"
      → (consume_oidc_auth_code mint.now (req.form_value "code") st.store).0 ≡ ok ac
      → (handle_oidc_token_auth_code env cfg later at_hash challenge_of parse fresh other
          (handle_oidc_token_auth_code env cfg mint at_hash challenge_of parse fresh req st).1).0
        ≡ refused invalid_grant
  handle_oidc_token_auth_code-twice env cfg mint at_hash challenge_of parse fresh req later other st
        nonblank same consumed =
      let blank : (req.form_value "code" == "") ≡ false =
        ground (arith, eq_iff (req.form_value "code") "") in
      handle_oidc_token_auth_code-missing env cfg later at_hash challenge_of parse fresh other _
        (rw same blank)
        (rw same (
          get-handle_oidc_token_auth_code env cfg mint at_hash challenge_of parse fresh req st blank
            consumed))
