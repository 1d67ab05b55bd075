-- ===== src/Handler/Kerberos/Realm.antt =====
-- internal/handler/auth.go: what a Kerberos sign-in rests on.
use simple_auth.Prelude.{
  String, ◌≡◌, refl, ◌⊎◌, inl, inr, ap, sym, Bool, true, false, not, ◌&&◌, Option, none, some, List,
  ◌==◌, arith, Bool-cases, eq_iff,
}
use simple_auth.Bolt.{Bbolt}
use simple_auth.Store.Types.{Time, User, LdapConfig}
use simple_auth.Handler.State.{
  Config, LdapResult, SearchAnswer, account, no_account, unreachable, Env, HandlerState,
}
use simple_auth.Handler.Directory.{get_ldap_config_decrypted}
use simple_auth.Handler.Login.{mapped_user}
use simple_auth.Handler.Kerberos.{
  Principal, short_name, verified_principal, known, confirm_mapped, unmapped, by_local, by_ldap,
  with_directory, resolve_kerberos_user,
}

-- A principal that is accepted was verified, and is of the configured realm where there is one; its
-- name is the one before the realm.
pub verified_principal-some :
    (equal_fold : String → String → Bool) (realm : String) (o : Option Principal)
    (names : String × String)
    → verified_principal equal_fold realm o ≡ some names
    → (p : Principal) × (o ≡ some p)
      × ((realm ≡ "") ⊎ (equal_fold p.realm realm ≡ true))
      × (names.0 ≡ short_name p.cname)
      × (names.1 ≡ p.cname)
unfolding verified_principal
verified_principal-some equal_fold realm none names h = cc
verified_principal-some equal_fold realm (some p) names h =
    elim (Bool-cases (not (realm == "") && not (equal_fold p.realm realm))) [
      | inl foreign ↦ let refuted = rw foreign at h in cc
      | inr home ↦
          let e : some (short_name p.cname, p.cname) ≡ some names = rw home at h in
          let same : (short_name p.cname, p.cname) ≡ names = cc in
          (
            p,
            refl,
            ground (arith, eq_iff realm ""),
            ap (λ (n : String × String). n.0) (sym same),
            ap (λ (n : String × String). n.1) (sym same),
          )
    ]

-- The answer of the directory is no disabled account.
abbrev pub NotOff : SearchAnswer → Type 0
NotOff (account r) = r.disabled ≡ false
NotOff no_account = Unit
NotOff unreachable = Unit

module _ ⦃bolt : Bbolt⦄ (env : Env) (cfg : Config) (now : Time) (fresh : String) where
  confirm_mapped-known :
      (u : User) (st : HandlerState) (answer : SearchAnswer) {guid : String} {groups : List String}
      → (confirm_mapped env cfg now fresh u st answer).0 ≡ known guid groups
      → NotOff answer
  confirm_mapped-known u st (account r) h = elim (Bool-cases r.disabled) [
    | inl off ↦ let refuted = simp off at h in cc
    | inr on ↦ on
  ]
  confirm_mapped-known u st no_account h = tt
  confirm_mapped-known u st unreachable h = tt

  unmapped-known :
      (username : String) (st : HandlerState) (answer : SearchAnswer) {guid : String}
      {groups : List String}
      → (unmapped env cfg now fresh username st answer).0 ≡ known guid groups
      → (r : LdapResult) × (answer ≡ account r) × (r.disabled ≡ false)
  unmapped-known username st (account r) h = elim (Bool-cases r.disabled) [
    | inl off ↦ let refuted = simp off at h in cc
    | inr on ↦ (r, refl, on)
  ]
  unmapped-known username st no_account h = cc
  unmapped-known username st unreachable h = cc

  -- What the directory says of the name of a user who is known.
  abbrev pub IsConfirmed : LdapConfig → String → HandlerState → Type 0
  IsConfirmed c username st =
      NotOff (env.ldap_search c "sAMAccountName" username)
      × (((u : User) × ((mapped_user "ldap" username st ≡ some u)
              ⊎ (mapped_user "local" username st ≡ some u)))
          ⊎ ((r : LdapResult) × (env.ldap_search c "sAMAccountName" username ≡ account r)))

  by_local-known :
      (c : LdapConfig) (username : String) (st : HandlerState) (o : Option User) {guid : String}
      {groups : List String}
      → (by_local env cfg now fresh c username st o).0 ≡ known guid groups
      → NotOff (env.ldap_search c "sAMAccountName" username)
        × (((u : User) × (o ≡ some u))
            ⊎ ((r : LdapResult) × (env.ldap_search c "sAMAccountName" username ≡ account r)))
  by_local-known c username st (some u) h =
      (confirm_mapped-known u st (env.ldap_search c "sAMAccountName" username) h, inl (u, refl))
  by_local-known c username st none h =
      let (r, found, on) =
        unmapped-known username st (env.ldap_search c "sAMAccountName" username) h in
      (rw found on, inr (r, found))

  by_ldap-known :
      (c : LdapConfig) (username : String) (st : HandlerState) (o : Option User) {guid : String}
      {groups : List String}
      → mapped_user "ldap" username st ≡ o
      → (by_ldap env cfg now fresh c username st o).0 ≡ known guid groups
      → IsConfirmed c username st
  by_ldap-known c username st (some u) e h =
      (confirm_mapped-known u st (env.ldap_search c "sAMAccountName" username) h, inl (u, inl e))
  by_ldap-known c username st none e h =
      let (on, owner) = by_local-known c username st (mapped_user "local" username st) h in
      (on, elim owner [ inl (u, mapped) ↦ inl (u, inr mapped) | inr found ↦ inr found ])

  with_directory-known :
      (username : String) (st : HandlerState) (o : Option LdapConfig) {guid : String}
      {groups : List String}
      → (with_directory env cfg now fresh username st o).0 ≡ known guid groups
      → (c : LdapConfig) × (o ≡ some c) × IsConfirmed c username st
  with_directory-known username st none h = cc
  with_directory-known username st (some c) h =
      (c, refl, by_ldap-known c username st (mapped_user "ldap" username st) refl h)

  -- A ticket's name becomes a user only where a directory is configured, whose search does not answer
  -- with a disabled account, and where the name is mapped to a user or the directory knows it.
  pub resolve_kerberos_user-known :
      (username : String) (st : HandlerState) {guid : String} {groups : List String}
      → (resolve_kerberos_user env cfg now fresh username st).0 ≡ known guid groups
      → (c : LdapConfig) × (get_ldap_config_decrypted env st ≡ some c) × IsConfirmed c username st
  unfolding resolve_kerberos_user
  resolve_kerberos_user-known username st h =
      with_directory-known username st (get_ldap_config_decrypted env st) h
