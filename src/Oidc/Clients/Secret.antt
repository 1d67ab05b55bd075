-- ===== src/Oidc/Clients/Secret.antt =====
-- internal/handler/oidc.go: whose secret lets a confidential client pass.
use simple_auth.Prelude.{String, ◌≡◌, ◌≢◌, ◌⊎◌, ap, true, arith, eq_iff}
use simple_auth.Bolt.{Bbolt}
use simple_auth.Store.Types.{App}
use simple_auth.Handler.State.{Config, Env, HandlerState}
use simple_auth.Handler.Request.{Request}
use simple_auth.Handler.Roles.{found, resolve_app}
use simple_auth.Handler.Act.{Act, done, refuse_if, after, after-refuse_if}
use simple_auth.Handler.Guards.{after-serve_app}
use simple_auth.Oidc.Clients.{
  oidc_confidential_enabled, presented_client_secret, check_secret,
  authenticate_confidential_client,
}

-- The secret is the app's own, or, for an app that has none, the configured global one.
abbrev pub Knows : Env → Config → App → String → Type 0
Knows env cfg a secret =
    ((a.secret_hash ≢ "") × (env.check_password a.secret_hash secret ≡ true))
    ⊎ ((a.secret_hash ≡ "") × (cfg.client_secret ≢ "") × (secret ≡ cfg.client_secret))

module _ ⦃bolt : Bbolt⦄ (env : Env) (cfg : Config) where
  after-check_secret :
      {B : Type 0} {b : B} {last : HandlerState} (a : App) (secret : String) (st : HandlerState)
      (rest : Unit {0} → Act B)
      → after (check_secret env cfg a secret st) rest ≡ (done b, last)
      → Knows env cfg a secret × (rest tt st ≡ (done b, last))
  unfolding oidc_confidential_enabled refuse_if
  after-check_secret a secret st rest h =
      grind (
        arith,
        eq_iff a.secret_hash "",
        eq_iff cfg.client_secret "",
        eq_iff secret cfg.client_secret,
      )

  -- A client that passes the confidential gate presented a secret that is not blank, and the app that
  -- its token will be for is the one of its client_id and knows that secret; nothing was changed.
  pub authenticate_confidential_client-Knows :
      (req : Request) (st : HandlerState) {last : HandlerState} {a : App}
      → authenticate_confidential_client env cfg req st ≡ (done a, last)
      → (resolve_app cfg (req.form_value "client_id") st.store ≡ found a)
        × (presented_client_secret req ≢ "")
        × Knows env cfg a (presented_client_secret req)
        × (st ≡ last)
  unfolding authenticate_confidential_client
  authenticate_confidential_client-Knows req st {last} {a} h =
      let (b, resolved, h1) = after-serve_app cfg _ _ st _ h in
      let (nonblank, h2) = after-refuse_if _ _ st _ h1 in
      let (knows, h3) = after-check_secret b (presented_client_secret req) st _ h2 in
      let same : b ≡ a = cc in
      (
        rw (← same) resolved,
        ground (arith, eq_iff (presented_client_secret req) ""),
        rw (← same) knows,
        ap (λ p. p.1) h3,
      )
