-- ===== src/Handler/Login/Sound.antt =====
-- internal/handler/auth.go: what authenticateUser admits.
use simple_auth.Prelude.{
  String, ◌≡◌, refl, sym, ◌∙◌, ap, ◌⊎◌, inl, inr, Bool, true, false, not, ◌&&◌, Option, none, some,
  List, ltb, Bool-cases, Option-cases, ◌==◌, is_positive,
}
use simple_auth.Bolt.{Bbolt}
use simple_auth.Store.Types.{Time, User, App, LdapConfig}
use simple_auth.Handler.State.{Config, LdapResult, Env, HandlerState}
use simple_auth.Handler.Settings.{get_account_lockout_threshold}
use simple_auth.Handler.Lockout.{is_account_locked}
use simple_auth.Handler.Directory.{get_ldap_config_decrypted}
use simple_auth.Handler.Login.{
  Login, accepted, password_matches, mapped_user, app_local_user, guarded, unless_locked,
  local_check, app_local_check, ask_ldap, ldap_answered, ldap_login, local_login, app_login,
  authenticate_user,
}

module _ ⦃bolt : Bbolt⦄ where
  -- Clearing an expired lock leaves the hash.
  is_account_locked-hash :
      (cfg : Config) (now : Time) (u : User) (st : HandlerState)
      → (is_account_locked cfg now u st).1.password_hash ≡ u.password_hash
  unfolding is_account_locked
  is_account_locked-hash cfg now u st =
      elim (Bool-cases (is_positive (get_account_lockout_threshold cfg st.runtime_settings))) [
        | inl on ↦ elim (Option-cases u.locked_until) [
          | inl free ↦ rw (on, free) refl
          | inr (t, until) ↦ elim (Bool-cases (ltb t now)) [
            | inl ended ↦ rw (on, until, ended) refl
            | inr live ↦ rw (on, until, live) refl
          ]
        ]
        | inr off ↦ rw off refl
      ]

  unless_locked-accepted :
      (k : User → HandlerState → Login × HandlerState) (t : Bool × User × HandlerState)
      {guid : String} {groups : List String}
      → (unless_locked k t).0 ≡ accepted guid groups
      → (t.0 ≡ false) × ((k t.1 t.2).0 ≡ accepted guid groups)
  unless_locked-accepted k (true, u, st) h = cc
  unless_locked-accepted k (false, u, st) h = (refl, h)

  -- What passes the guard is not disabled and not locked.
  guarded-accepted :
      (cfg : Config) (now : Time) (k : User → HandlerState → Login × HandlerState) (u : User)
      (st : HandlerState) {guid : String} {groups : List String}
      → (guarded cfg now k u st).0 ≡ accepted guid groups
      → (u.disabled ≡ false)
        × ((is_account_locked cfg now u st).0 ≡ false)
        × ((k (is_account_locked cfg now u st).1 (is_account_locked cfg now u st).2).0
            ≡ accepted guid groups)
  guarded-accepted cfg now k u st h = elim (Bool-cases u.disabled) [
    | inl disabled ↦ let refuted = simp disabled at h in cc
    | inr enabled ↦
        let (free, passed) =
          unless_locked-accepted k (is_account_locked cfg now u st) (simp enabled at h) in
        (enabled, free, passed)
  ]

module _ ⦃bolt : Bbolt⦄ (env : Env) (cfg : Config) (fresh : String) (now : Time)
    (username password : String) where
  -- A directory, under some configuration, takes the name and the password.
  abbrev pub DirectoryAgrees : Type 0
  DirectoryAgrees =
      (c : LdapConfig) × (r : LdapResult) × (env.ldap_authenticate c username password ≡ some r)

  -- The user may log in at this moment, and the password is the one of the stored hash.
  abbrev pub PasswordAgrees : User → HandlerState → Type 0
  PasswordAgrees u st =
      (u.disabled ≡ false)
      × ((is_account_locked cfg now u st).0 ≡ false)
      × (password_matches env u password ≡ true)

  ask_ldap-agrees :
      (o : Option LdapConfig) {r : LdapResult}
      → ask_ldap env o username password ≡ some r
      → DirectoryAgrees
  ask_ldap-agrees none h = cc
  ask_ldap-agrees (some c) {r} h = (c, r, h)

  ldap_answered-accepted :
      (local : Option User) (st : HandlerState) (a : Option LdapResult) {guid : String}
      {groups : List String}
      → (ldap_answered env cfg fresh now username local st a).0 ≡ accepted guid groups
      → (r : LdapResult) × (a ≡ some r)
  ldap_answered-accepted none st none h = cc
  ldap_answered-accepted (some u) st none h = cc
  ldap_answered-accepted local st (some r) h = (r, refl)

  ldap_login-accepted :
      (local : Option User) (st : HandlerState) {guid : String} {groups : List String}
      → (ldap_login env cfg fresh now username password local st).0 ≡ accepted guid groups
      → DirectoryAgrees
  unfolding ldap_login
  ldap_login-accepted local st h =
      let answer = ask_ldap env (get_ldap_config_decrypted env st) username password in
      ask_ldap-agrees (get_ldap_config_decrypted env st)
        (ldap_answered-accepted local st answer h).1

  -- The hash that is checked after the lockout is the one before it.
  same_password :
      (u : User) (st : HandlerState)
      → password_matches env (is_account_locked cfg now u st).1 password
        ≡ password_matches env u password
  same_password u st =
      ap (λ hash. not (hash == "") && env.check_password hash password)
        (is_account_locked-hash cfg now u st)

  local_check-accepted :
      (u : User) (st : HandlerState) {guid : String} {groups : List String}
      → (local_check env cfg fresh now username password u st).0 ≡ accepted guid groups
      → (password_matches env u password ≡ true) ⊎ DirectoryAgrees
  local_check-accepted u st h = elim (Bool-cases (password_matches env u password)) [
    | inl right ↦ inl right
    | inr wrong ↦ inr (ldap_login-accepted (some u) st (rw wrong at h))
  ]

  app_local_check-accepted :
      (u : User) (st : HandlerState) {guid : String} {groups : List String}
      → (app_local_check env cfg now password u st).0 ≡ accepted guid groups
      → password_matches env u password ≡ true
  app_local_check-accepted u st h = elim (Bool-cases (password_matches env u password)) [
    | inl right ↦ right
    | inr wrong ↦ let refuted = rw wrong at h in cc
  ]

  local_login-accepted :
      (o : Option User) (st : HandlerState) {guid : String} {groups : List String}
      → (local_login env cfg fresh now username password st o).0 ≡ accepted guid groups
      → ((u : User) × (o ≡ some u) × PasswordAgrees u st) ⊎ DirectoryAgrees
  local_login-accepted none st h = inr (ldap_login-accepted none st h)
  local_login-accepted (some u) st h =
      let (enabled, free, passed) =
        guarded-accepted cfg now (local_check env cfg fresh now username password) u st h in
      elim (local_check-accepted (is_account_locked cfg now u st).1
        (is_account_locked cfg now u st).2 passed) [
          | inl right ↦ inl (u, refl, (enabled, free, sym (same_password u st) ∙ right))
          | inr agrees ↦ inr agrees
        ]

  app_login-accepted :
      (o : Option User) (st : HandlerState) {guid : String} {groups : List String}
      → (app_login env cfg fresh now username password st o).0 ≡ accepted guid groups
      → ((u : User) × ((o ≡ some u) ⊎ (mapped_user "local" username st ≡ some u))
          × PasswordAgrees u st)
        ⊎ DirectoryAgrees
  app_login-accepted none st h =
      elim (local_login-accepted (mapped_user "local" username st) st h) [
        | inl (u, mapped, agrees) ↦ inl (u, inr mapped, agrees)
        | inr agrees ↦ inr agrees
      ]
  app_login-accepted (some u) st h =
      let (enabled, free, passed) =
        guarded-accepted cfg now (app_local_check env cfg now password) u st h in
      let right =
        app_local_check-accepted (is_account_locked cfg now u st).1
          (is_account_locked cfg now u st).2 passed in
      inl (u, inl refl, (enabled, free, sym (same_password u st) ∙ right))

  -- A login that is accepted comes from a user that the app or the local provider maps the name to,
  -- who is neither disabled nor locked and whose stored hash is the password's, or from a directory
  -- that takes the name and the password.
  pub authenticate_user-accepted :
      (app : Option App) (st : HandlerState) {guid : String} {groups : List String}
      → (authenticate_user env cfg fresh now username password app st).0 ≡ accepted guid groups
      → ((u : User) × ((app_local_user app username st ≡ some u)
            ⊎ (mapped_user "local" username st ≡ some u))
          × PasswordAgrees u st)
        ⊎ DirectoryAgrees
  unfolding authenticate_user
  authenticate_user-accepted app st h = app_login-accepted (app_local_user app username st) st h
