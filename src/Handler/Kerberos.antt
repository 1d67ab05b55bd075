-- ===== src/Handler/Kerberos.antt =====
-- internal/handler/auth.go: the users of Kerberos tickets. The SPNEGO message and the verification of
-- its ticket are outside of the model: `Negotiation` is what the Authorization header comes to.
pub mod Sso
pub mod Negotiate
pub mod Entry
pub mod Realm
use Prim.Native.Char.{code}
use simple_auth.Prelude.{
  String, Bool, true, false, not, ◌&&◌, ◌||◌, Option, none, some, List, [], ◌∷◌, if◌then◌else◌,
  ◌==◌, ◌^^◌, eqb, ◌+◌, ◌*◌,
}
use simple_auth.Outcome.{Result, ok, err}
use simple_auth.Bolt.{Bbolt}
use simple_auth.Store.Types.{Time, User, App, LdapConfig, OidcAuthCode}
use simple_auth.Store.Users.{create_user, with_defaults, resolve_user, list_users}
use simple_auth.Store.Mappings.{resolve_mapping, set_identity_mapping}
use simple_auth.Store.Tokens.{save_oidc_auth_code}
use simple_auth.Handler.State.{
  Config, LdapResult, SearchAnswer, account, no_account, unreachable, Env, HandlerState, exec,
}
use simple_auth.Handler.Request.{Request}
use simple_auth.Handler.Settings.{get_default_redirect_uri, second}
use simple_auth.Handler.Provision.{jit_user, sync_user_from_ldap}
use simple_auth.Handler.Directory.{
  get_ldap_config_decrypted, directory_account_disabled, record_directory_check,
}
use simple_auth.Handler.Login.{mapped_user}
use simple_auth.Handler.Roles.{match_auto_provision_user}
use simple_auth.Handler.Sessions.{Cookie}
use simple_auth.Handler.Jwt.{Mint}
use simple_auth.Handler.Issue.{audit}
use simple_auth.Handler.Act.{
  Refusal, http_error, Answer, done, refused, Act, ◌>>=◌, ◌>>◌, reply, refuse_if, some_or, fetch,
  call, effect, rate_limit, look,
}
use simple_auth.Handler.Guards.{serve_app, grant_roles, refuse_redirect, refuse_inactive}
use simple_auth.Handler.Signin.{SignedIn, audit_login, token_pair}
use simple_auth.Handler.Hosted.{
  Hosted, landed, landing, to_login_error, or_login_error, unspecified, issue_cookie,
}

-- A ticket whose AP-REQ verifies: the client's principal and realm.
pub record Principal : Type 0 where
  pub cname : String
  pub realm : String

pub data Negotiation : Type 0 where
  no_token not_base64 ntlm : Negotiation
  ticket : (keytab_loads : Bool) → Option Principal → Negotiation

-- The text before the first '@'.
unfoldable pub before_at : String → String
before_at String.[] = ""
before_at (String.◌∷◌ c s) =
    let rest = before_at s in if eqb (code c) b'@' then "" else String.◌∷◌ c rest

abbrev pub short_name : String → String
short_name cname = if before_at cname == "" then cname else before_at cname

-- verifyAPReq after the library's verification: the principal is of the configured realm, if there is
-- one. It gives the short name and the full one.
unfoldable pub verified_principal :
    (String → String → Bool) → String → Option Principal → Option (String × String)
verified_principal equal_fold realm none = none
verified_principal equal_fold realm (some p) =
    if not (realm == "") && not (equal_fold p.realm realm)
    then none
    else some (short_name p.cname, p.cname)

pub data KerberosUser : Type 0 where
  known : (guid : String) (groups : List String) → KerberosUser
  account_off not_in_directory : KerberosUser

module _ ⦃bolt : Bbolt⦄ (env : Env) (cfg : Config) (now : Time) (fresh : String) where
  -- `else if h.directoryAccountDisabled(user)`
  abbrev pub recheck : User → Bool × HandlerState → KerberosUser × HandlerState
  recheck u (true, st) = (account_off, st)
  recheck u (false, st) = (known u.guid [], st)

  abbrev pub confirm_mapped : User → HandlerState → SearchAnswer → KerberosUser × HandlerState
  confirm_mapped u st (account r) = if r.disabled then (account_off, st) else (
    known u.guid r.groups,
    record_directory_check env now u.guid (sync_user_from_ldap u r st),
  )
  confirm_mapped u st no_account = recheck u (directory_account_disabled env cfg now u st)
  confirm_mapped u st unreachable = recheck u (directory_account_disabled env cfg now u st)

  -- The account's own name, else the ticket's.
  abbrev pub sam_or : LdapResult → String → String
  sam_or r username = if r.username == "" then username else r.username

  abbrev map_both : String → String → HandlerState → HandlerState
  map_both name guid st =
      exec (set_identity_mapping "local" name guid)
        (exec (set_identity_mapping "ldap" name guid) st)

  abbrev provision : String → LdapResult → HandlerState → KerberosUser × HandlerState
  provision username r st =
      let sam = sam_or r username in
      let guid = (with_defaults fresh now (jit_user r)).guid in
      let st1 = map_both sam guid (exec (create_user fresh now (jit_user r)) st) in
      let st2 = if username == sam then st1 else map_both username guid st1 in
      (known guid r.groups, record_directory_check env now guid st2)

  abbrev pub by_cname :
      String → LdapResult → HandlerState → Result String → KerberosUser × HandlerState
  by_cname username r st (ok guid) = (known guid r.groups, st)
  by_cname username r st (err e) = provision username r st

  abbrev pub by_sam :
      String → LdapResult → HandlerState → Result String → KerberosUser × HandlerState
  by_sam username r st (ok guid) = (
    known guid r.groups,
    if sam_or r username == username
        then st
        else exec (set_identity_mapping "ldap" username guid) st,
  )
  by_sam username r st (err e) = by_cname username r st (resolve_mapping "ldap" username st.store)

  abbrev pub unmapped : String → HandlerState → SearchAnswer → KerberosUser × HandlerState
  unmapped username st (account r) =
      if r.disabled
      then (account_off, st)
      else by_sam username r st (resolve_mapping "ldap" (sam_or r username) st.store)
  unmapped username st no_account = (not_in_directory, st)
  unmapped username st unreachable = (not_in_directory, st)

  -- The two rounds of the loop over the providers, then the search.
  abbrev pub by_local :
      LdapConfig → String → HandlerState → Option User → KerberosUser × HandlerState
  by_local c username st (some u) =
      confirm_mapped u st (env.ldap_search c "sAMAccountName" username)
  by_local c username st none = unmapped username st (env.ldap_search c "sAMAccountName" username)

  abbrev pub by_ldap :
      LdapConfig → String → HandlerState → Option User → KerberosUser × HandlerState
  by_ldap c username st (some u) = confirm_mapped u st (env.ldap_search c "sAMAccountName" username)
  by_ldap c username st none = by_local c username st (mapped_user "local" username st)

  abbrev pub with_directory :
      String → HandlerState → Option LdapConfig → KerberosUser × HandlerState
  with_directory username st none = (not_in_directory, st)
  with_directory username st (some c) = by_ldap c username st (mapped_user "ldap" username st)

  unfoldable pub resolve_kerberos_user : String → HandlerState → KerberosUser × HandlerState
  resolve_kerberos_user username st = with_directory username st (get_ldap_config_decrypted env st)
