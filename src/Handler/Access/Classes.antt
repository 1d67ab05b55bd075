-- ===== src/Handler/Access/Classes.antt =====
-- internal/auth/jwt.go and internal/handler/auth.go: one key signs every class of token, and
-- validateAccessToken tells them apart.
use simple_auth.Prelude.{String, ◌≡◌, refl, ◌≢◌, Option, some, arith, ℤ, eq_iff}
use simple_auth.Bolt.{Bbolt}
use simple_auth.Store.Types.{Time}
use simple_auth.Store.State.{BoltStore}
use simple_auth.Handler.Jwt.{
  Claims, Mint, registered, issue_refresh_token, issue_id_token, refresh_claims,
}
use simple_auth.Handler.Access.{bad, refresh_token, id_token, validate_access_token}

-- What a key that verifies its own signatures does: the claims of the signed token are those signed.
abbrev pub Verifies : Mint → (String → Option Claims) → Claims → Type 0
Verifies mint parse c = (token : String) → mint.sign c ≡ some token → parse token ≡ some c

module _ ⦃bolt : Bbolt⦄ (mint : Mint) (parse : String → Option Claims) (now : Time)
    (s : BoltStore) where
  -- A refresh token is no access token: where the fresh family id is not blank, validateAccessToken
  -- refuses every refresh token that was issued.
  pub validate_access_token-issue_refresh_token :
      (guid family token : String)
      → Verifies mint parse (refresh_claims mint guid family)
      → mint.family_id ≢ ""
      → issue_refresh_token mint guid family ≡ some token
      → validate_access_token parse now token s ≡ bad refresh_token
  unfolding validate_access_token
  validate_access_token-issue_refresh_token guid family token verifies fresh signed =
      let parsed = verifies token signed in
      rw parsed (ground (arith, eq_iff family "", eq_iff mint.family_id ""))

  -- Nor is an ID token that was issued for claims without a family.
  pub validate_access_token-issue_id_token :
      (c : Claims) (ttl : ℤ) (issuer token : String)
      → Verifies mint parse (record (registered mint mint.id_token_id ttl issuer c) { typ = "ID" })
      → c.family_id ≡ ""
      → issue_id_token mint c ttl issuer ≡ some token
      → validate_access_token parse now token s ≡ bad id_token
  unfolding validate_access_token
  validate_access_token-issue_id_token c ttl issuer token verifies no_family signed =
      let parsed = verifies token signed in rw (parsed, no_family) refl
