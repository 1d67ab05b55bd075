-- ===== src/Store/Tokens/Codes.antt =====
-- Authorization codes are single use, and an expired one is refused without being deleted.
use simple_auth.Prelude.{
  String, ◌≡◌, refl, none, Bool, true, false, ltb, if◌then◌else◌, arith, eq_refl, Option-cases,
  Bool-cases, inl, inr,
}
use simple_auth.Outcome.{Result, ok, err, code_not_found, code_expired}
use simple_auth.Bolt.{Bbolt, json, garbage}
use simple_auth.Bolt.Laws.{get-prune, put_raw-accepted}
use simple_auth.Store.Types.{Time, OidcAuthCode}
use simple_auth.Store.State.{BoltStore}
use simple_auth.Store.Tokens.{save_oidc_auth_code, consume_oidc_auth_code, clean_expired_oidc_codes}

-- Is it the error of an expired code?
abbrev pub is_expired : Result OidcAuthCode → Bool
is_expired (err code_expired) = true
is_expired _ = false

module _ ⦃bolt : Bbolt⦄ where
  pub get-consume_oidc_auth_code :
      (now : Time) (code : String) (s : BoltStore) (ac : OidcAuthCode)
      → (consume_oidc_auth_code now code s).0 ≡ ok ac
      → bolt.get (consume_oidc_auth_code now code s).1.oidc_auth_codes code ≡ none
  unfolding consume_oidc_auth_code
  get-consume_oidc_auth_code now code s ac h =
      elim (Option-cases (bolt.get s.oidc_auth_codes code)) [
        | inl missing ↦ absurd (ground arith)
        | inr (garbage, found) ↦ absurd (ground arith)
        | inr (json c, found) ↦ elim (Bool-cases (ltb c.expires_at now)) [
          | inl old ↦ absurd (ground arith)
          | inr fresh ↦ rw (found, fresh, bolt.get-delete s.oidc_auth_codes code code, eq_refl code)
        ]
      ]

  pub consume_oidc_auth_code-missing :
      (now : Time) (code : String) (s : BoltStore)
      → bolt.get s.oidc_auth_codes code ≡ none
      → consume_oidc_auth_code now code s ≡ (err code_not_found, s)
  unfolding consume_oidc_auth_code
  consume_oidc_auth_code-missing now code s missing = rw missing refl

  -- A code that was exchanged cannot be exchanged again, at any time.
  pub consume_oidc_auth_code-twice :
      (now later : Time) (code : String) (s : BoltStore) (ac : OidcAuthCode)
      → (consume_oidc_auth_code now code s).0 ≡ ok ac
      → consume_oidc_auth_code later code (consume_oidc_auth_code now code s).1
        ≡ (err code_not_found, (consume_oidc_auth_code now code s).1)
  consume_oidc_auth_code-twice now later code s ac h =
      consume_oidc_auth_code-missing later code (consume_oidc_auth_code now code s).1
        (get-consume_oidc_auth_code now code s ac h)

  -- The exchange of a code that was saved: its record and its removal until it expires, and after that
  -- an error with the store unchanged, the code included.
  pub consume_oidc_auth_code-save :
      (now : Time) (c : OidcAuthCode) (s : BoltStore)
      → bolt.refuses c.code ≡ false
      → (consume_oidc_auth_code now c.code (save_oidc_auth_code c s).1).0
          ≡ (if ltb c.expires_at now then err code_expired else ok c)
        × ((consume_oidc_auth_code now c.code (save_oidc_auth_code c s).1).1 ≡ (
            if ltb c.expires_at now then (save_oidc_auth_code c s).1 else record s {
              oidc_auth_codes = bolt.delete (save_oidc_auth_code c s).1.oidc_auth_codes c.code;
            }))
  unfolding consume_oidc_auth_code save_oidc_auth_code
  consume_oidc_auth_code-save now c s fits =
      let put = put_raw-accepted s.oidc_auth_codes c.code (json c) fits in
      let got = bolt.get-write s.oidc_auth_codes c.code c.code (json c) fits in
      (rw (put, got, eq_refl c.code) (ground arith), rw (put, got, eq_refl c.code) (ground arith))

  -- The reaper removes exactly the codes that an exchange would refuse as expired.
  pub consume_oidc_auth_code-clean :
      (now : Time) (code : String) (s : BoltStore)
      → (consume_oidc_auth_code now code (clean_expired_oidc_codes now s).1).0 ≡ (
          if is_expired (consume_oidc_auth_code now code s).0
          then err code_not_found
          else (consume_oidc_auth_code now code s).0)
  unfolding consume_oidc_auth_code clean_expired_oidc_codes
  consume_oidc_auth_code-clean now code s =
      ground (arith, get-prune (λ (c : OidcAuthCode). ltb c.expires_at now) s.oidc_auth_codes code)
