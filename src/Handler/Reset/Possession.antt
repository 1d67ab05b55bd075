-- ===== src/Handler/Reset/Possession.antt =====
-- internal/handler/auth.go: a password changes only for who proves to have the old one.
use simple_auth.Prelude.{
  String, ◌≡◌, refl, ◌≢◌, ◌⊎◌, inl, inr, true, false, ◌&&◌, Option, some, ◌==◌, arith, Bool-cases,
  eq_iff, is_positive,
}
use simple_auth.Outcome.{ok}
use simple_auth.Bolt.{Bbolt}
use simple_auth.Store.Types.{User}
use simple_auth.Store.Users.{resolve_user, update_user}
use simple_auth.Auth.Passwords.{
  CharClass, Verdict, valid, too_short, must_contain, validate_password, check_password_history,
}
use simple_auth.Handler.State.{Config, Env, HandlerState}
use simple_auth.Handler.Settings.{get_password_history_count}
use simple_auth.Handler.Jwt.{Claims, Mint}
use simple_auth.Handler.Access.{good, validate_access_token}
use simple_auth.Handler.Signin.Gate.{after-access_claims}
use simple_auth.Handler.Act.{
  done, Act, after, after-refuse_if, after-some_or, after-fetch, after-call, after-look,
}
use simple_auth.Handler.Reset.{
  password_policy, ResetBody, is_valid, rehashed, require_local_hash, prove_possession,
  handle_reset_password,
}

is_valid-eq : (v : Verdict) → is_valid v ≡ true → v ≡ valid
is_valid-eq valid h = refl
is_valid-eq too_short h = cc
is_valid-eq (must_contain l) h = cc

module _ ⦃bolt : Bbolt⦄ (env : Env) (cfg : Config) (mint : Mint) where
  module _ {B : Type 0} {b : B} {last : HandlerState} where
    after-require_local_hash :
        (u : User) (st : HandlerState) (rest : Unit {0} → Act B)
        → after (require_local_hash mint u st) rest ≡ (done b, last)
        → (u.password_hash ≢ "") × (rest tt st ≡ (done b, last))
    unfolding require_local_hash
    after-require_local_hash u st rest h = elim (Bool-cases (u.password_hash == "")) [
      | inl blank ↦ let refuted = rw blank at h in cc
      | inr there ↦ (ground (arith, eq_iff u.password_hash ""), rw there at h)
    ]

    after-prove_possession :
        (u : User) (current : String) (st : HandlerState) (rest : Unit {0} → Act B)
        → after (prove_possession env u current st) rest ≡ (done b, last)
        → ((u.force_password_change ≡ true) ⊎ (env.check_password u.password_hash current ≡ true))
          × (rest tt st ≡ (done b, last))
    unfolding prove_possession
    after-prove_possession u current st rest h = elim (Bool-cases u.force_password_change) [
      | inl forced ↦ (inl forced, simp forced at h)
      | inr free ↦ elim (Bool-cases (current == "")) [
        | inl blank ↦ let refuted = simp (free, blank) at h in cc
        | inr given ↦ elim (Bool-cases (env.check_password u.password_hash current)) [
          | inl right ↦ (inr right, simp (free, given, right) at h)
          | inr wrong ↦ let refuted = simp (free, given, wrong) at h in cc
        ]
      ]
    ]

  -- A password that is changed is changed by the bearer of a valid access token, for the user that its
  -- subject resolves to, who has a local password already; the current one was given, unless the
  -- administrator asked for a change; the new one meets the policy and, where a history is kept, is none
  -- of the remembered ones.
  pub handle_reset_password-done :
      (classes : CharClass) (parse : String → Option Claims) (token : String)
      (body : Option ResetBody) (st : HandlerState) {last : HandlerState}
      → handle_reset_password env cfg classes mint parse token body st ≡ (done tt, last)
      → (c : Claims) × (b : ResetBody) × (u : User) × (hash : String) × (validate_access_token parse
            mint.now token st.store
          ≡ good c)
        × (body ≡ some b)
        × (resolve_user c.subject st.store ≡ ok u)
        × (u.password_hash ≢ "")
        × ((u.force_password_change ≡ true)
            ⊎ (env.check_password u.password_hash b.current_password ≡ true))
        × (validate_password classes b.new_password (password_policy cfg st.runtime_settings)
            ≡ valid)
        × ((is_positive (get_password_history_count cfg st.runtime_settings)
              && check_password_history env.check_password b.new_password u.password_history)
            ≡ false)
        × (env.hash_password b.new_password ≡ some hash)
        × ((update_user
              (rehashed (get_password_history_count cfg st.runtime_settings) hash u)
              st.store).0
            ≡ ok tt)
  unfolding handle_reset_password
  handle_reset_password-done classes parse token body st h =
      let (bearer, h1) = after-refuse_if _ _ st _ h in
      let (c, valid_token, h2) = after-access_claims parse mint.now token _ st _ h1 in
      let (b, decoded, h3) = after-some_or body _ st _ h2 in
      let (filled, h4) = after-refuse_if _ _ st _ h3 in
      let h5 = after-look _ st _ h4 in
      let (strong, h6) = after-refuse_if _ _ st _ h5 in
      let (u, resolved, h7) = after-fetch _ _ st _ h6 in
      let (hashed, h8) = after-require_local_hash u st _ h7 in
      let (proved, h9) = after-prove_possession u b.current_password st _ h8 in
      let (unused, h10) = after-refuse_if _ _ st _ h9 in
      let (hash, made, h11) = after-some_or _ _ st _ h10 in
      let (x, updated, h12) = after-call _ _ st _ h11 in
      (
        c,
        b,
        u,
        hash,
        valid_token,
        decoded,
        resolved,
        hashed,
        proved,
        is_valid-eq _ (ground arith),
        unused,
        made,
        updated,
      )
