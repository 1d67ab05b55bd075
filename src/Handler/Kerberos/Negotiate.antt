-- ===== src/Handler/Kerberos/Negotiate.antt =====
-- internal/handler/auth.go: handleNegotiate, the sign-in with a ticket that answers with tokens.
use simple_auth.Prelude.{String, true, false, Option, [], ◌∷◌, if◌then◌else◌, ◌==◌}
use simple_auth.Outcome.{Result, ok, err}
use simple_auth.Bolt.{Bbolt}
use simple_auth.Store.Users.{resolve_user, list_users}
use simple_auth.Store.Mappings.{resolve_mapping, set_identity_mapping}
use simple_auth.Handler.State.{Config, Env, exec}
use simple_auth.Handler.Request.{Request}
use simple_auth.Handler.Directory.{list_or_nil}
use simple_auth.Handler.Roles.{match_auto_provision_user}
use simple_auth.Handler.Jwt.{Mint}
use simple_auth.Handler.Issue.{audit}
use simple_auth.Handler.Act.{
  http_error, done, refused, Act, ◌>>=◌, ◌>>◌, reply, refuse_if, some_or, fetch, effect, rate_limit,
  refuse,
}
use simple_auth.Handler.Guards.{serve_app, grant_roles, refuse_inactive}
use simple_auth.Handler.Signin.{SignedIn, audit_login, token_pair}
use simple_auth.Handler.Kerberos.{
  Principal, Negotiation, no_token, not_base64, ntlm, ticket, verified_principal,
}
use simple_auth.Handler.Kerberos.Sso.{Kerberos}

module _ ⦃bolt : Bbolt⦄ (env : Env) (cfg : Config) (mint : Mint) (fresh : String)
    (kerberos : Kerberos) (req : Request) where
  abbrev not_provisioned : String → Act String
  not_provisioned cname st = (
    refused (http_error 401 "no user found for Kerberos principal"),
    audit mint "negotiate_failed" "" (("principal", cname) ∷ ("reason", "no matching user") ∷ [])
        st,
  )

  -- A principal without a mapping is matched with a user by display name or e-mail, and remembered.
  abbrev auto_provision : String → String → Act String
  auto_provision cname guid =
      if guid == ""
      then not_provisioned cname
      else (λ st. (done guid, exec (set_identity_mapping "kerberos" cname guid) st))

  abbrev by_name : String → String → Result String → Act String
  by_name cname username (ok guid) st = (done guid, st)
  by_name cname username (err e) st =
      auto_provision cname (match_auto_provision_user (list_or_nil (list_users st.store)) username)
        st

  abbrev by_principal : String → String → Result String → Act String
  by_principal cname username (ok guid) st = (done guid, st)
  by_principal cname username (err e) st =
      by_name cname username (resolve_mapping "kerberos" username st.store) st

  unfoldable pub negotiated_user : String × String → Act String
  negotiated_user names st =
      by_principal names.1 names.0 (resolve_mapping "kerberos" names.1 st.store) st

  abbrev pub header_ticket : Negotiation → Act (Option Principal)
  header_ticket no_token = refuse (http_error 401 "Kerberos authentication required")
  header_ticket not_base64 = refuse (http_error 400 "invalid Negotiate token encoding")
  header_ticket ntlm = refuse (http_error 401 "invalid SPNEGO token")
  header_ticket (ticket false principal) = refuse (http_error 500 "failed to load keytab")
  header_ticket (ticket true principal) = reply principal

  unfoldable pub handle_negotiate : Negotiation → Act SignedIn
  handle_negotiate negotiation = do
    rate_limit mint.now mint.ip (http_error 429 "too many requests")
    refuse_if (kerberos.keytab_path == "") (http_error 501 "Kerberos not configured")
    principal ← header_ticket negotiation
    names ←
        some_or (http_error 401 "Kerberos authentication failed")
          (verified_principal req.equal_fold kerberos.realm principal)
    guid ← negotiated_user names
    u ← fetch (http_error 401 "user not found") (resolve_user guid)
    refuse_inactive (http_error 403 "account disabled") env cfg mint.now u
    a ← serve_app (http_error 400 "unknown app") cfg (req.query "client_id")
    lists ← grant_roles (http_error 403 "access denied: not assigned to this app") cfg a u
    pair ← token_pair (http_error 500 "token generation failed") mint u lists [] a
    effect (audit_login mint u (("flow", "kerberos") ∷ ("principal", names.1) ∷ []))
    reply (record {
      access_token = pair.0;
      refresh_token = pair.1;
      force_password_change = u.force_password_change;
    })
