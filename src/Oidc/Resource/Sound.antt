-- ===== src/Oidc/Resource/Sound.antt =====
-- internal/handler/oidc.go: which tokens introspection and userinfo accept.
use simple_auth.Prelude.{
  String, ◌≡◌, refl, ◌≢◌, Option, some, arith, Bool-cases, inl, inr, ◌==◌, eq_iff,
}
use simple_auth.Bolt.{Bbolt}
use simple_auth.Store.Types.{Time}
use simple_auth.Handler.State.{Config, HandlerState}
use simple_auth.Handler.Request.{Request}
use simple_auth.Handler.Jwt.{Claims}
use simple_auth.Handler.Access.{Validated, good, bad, validate_access_token}
use simple_auth.Handler.Access.Admitted.{IsAccess, validated-IsAccess}
use simple_auth.Handler.Act.{done, Act, after, refuse_if, look, after-refuse_if, done-injective}
use simple_auth.Oidc.Clients.{
  oidc_confidential_enabled, presented_client_secret, require_confidential_client,
}
use simple_auth.Oidc.Resource.{Active, active, introspected, handle_oidc_introspect}

module _ ⦃bolt : Bbolt⦄ (cfg : Config) (parse : String → Option Claims) (now : Time) where
  after-require_confidential_client :
      {B : Type 0} {b : B} {last : HandlerState} (req : Request) (st : HandlerState)
      (rest : Unit {0} → Act B)
      → after (require_confidential_client cfg req st) rest ≡ (done b, last)
      → (cfg.client_secret ≢ "")
        × (presented_client_secret req ≡ cfg.client_secret)
        × (rest tt st ≡ (done b, last))
  unfolding require_confidential_client refuse_if oidc_confidential_enabled
  after-require_confidential_client req st rest h =
      grind
        (arith, eq_iff cfg.client_secret "", eq_iff (presented_client_secret req) cfg.client_secret)

  introspected-active :
      (v : Validated) {x : Active}
      → introspected v ≡ active x
      → (c : Claims) × (v ≡ good c) × (x.sub ≡ c.subject) × (x.scope ≡ c.scope)
  introspected-active (bad e) h = cc
  introspected-active (good c) h = (c, refl, cc, cc)

  -- Introspection calls a token active only for a client that presents the configured secret, which is
  -- not blank, and only if the token parses and is an access token that is not revoked; the subject and
  -- the scope are the token's.
  pub handle_oidc_introspect-active :
      (req : Request) (st : HandlerState) {last : HandlerState} {x : Active}
      → handle_oidc_introspect cfg parse now req st ≡ (done (active x), last)
      → (c : Claims) × (parse (req.form_value "token") ≡ some c)
        × IsAccess now st.store c
        × (x.sub ≡ c.subject)
        × (x.scope ≡ c.scope)
        × (cfg.client_secret ≢ "")
        × (presented_client_secret req ≡ cfg.client_secret)
  unfolding handle_oidc_introspect look validate_access_token
  handle_oidc_introspect-active req st h =
      let (parses, h1) = after-refuse_if _ _ st _ h in
      let (enabled, knows, h2) = after-require_confidential_client req st _ h1 in
      let answer = (done-injective h2).0 in
      elim (Bool-cases (req.form_value "token" == "")) [
        | inl blank ↦ let refuted = rw blank at answer in cc
        | inr given ↦
            let (c, valid, sub, scope) =
              introspected-active
                (validate_access_token parse now (req.form_value "token") st.store)
                (rw given at answer) in
            let (parsed, access) = validated-IsAccess now st.store _ valid in
            (c, parsed, access, sub, scope, enabled, knows)
      ]
