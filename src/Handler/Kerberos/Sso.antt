-- ===== src/Handler/Kerberos/Sso.antt =====
-- internal/handler/auth.go: handleSSOLogin, the sign-in with a ticket that redirects.
use Prim.Native.Char.{code}
use simple_auth.Prelude.{String, not, Option, List, [], ◌∷◌, if◌then◌else◌, ◌==◌, ◌^^◌, ◌+◌, ◌*◌}
use simple_auth.Bolt.{Bbolt}
use simple_auth.Store.Types.{User, App, OidcAuthCode}
use simple_auth.Store.Users.{resolve_user}
use simple_auth.Store.Tokens.{save_oidc_auth_code}
use simple_auth.Handler.State.{Config, Env, HandlerState}
use simple_auth.Handler.Request.{Request}
use simple_auth.Handler.Settings.{get_default_redirect_uri, second}
use simple_auth.Handler.Sessions.{Cookie}
use simple_auth.Handler.Jwt.{Mint}
use simple_auth.Handler.Act.{
  http_error, Answer, done, Act, ◌>>=◌, ◌>>◌, reply, refuse_if, some_or, fetch, call, effect,
  rate_limit, look,
}
use simple_auth.Handler.Guards.{serve_app, grant_roles, refuse_redirect}
use simple_auth.Handler.Signin.{audit_login, token_pair}
use simple_auth.Handler.Kerberos.{
  Negotiation, no_token, not_base64, ntlm, ticket, verified_principal, KerberosUser, known,
  account_off, not_in_directory, resolve_kerberos_user,
}
use simple_auth.Handler.Hosted.{
  Hosted, landed, landing, to_login_error, or_login_error, unspecified, issue_cookie,
}

-- The setup that getKeytabPath and getKRB5Realm find.
pub record Kerberos : Type 0 where
  pub keytab_path : String
  pub realm : String

pub data SsoAnswer : Type 0 where
  landed_at : Hosted → Cookie → SsoAnswer
  -- the redirect with an authorization code
  code_sent : (location : String) → Cookie → SsoAnswer
  -- 401 with the header WWW-Authenticate, and the URL that the page goes to
  challenge : (retry : String) → SsoAnswer

module _ ⦃bolt : Bbolt⦄ (env : Env) (cfg : Config) (mint : Mint) (fresh : String)
    (kerberos : Kerberos) (req : Request) where
  abbrev kerberos_or_error :
      String → KerberosUser × HandlerState → Answer (String × List String) × HandlerState
  kerberos_or_error uri (known guid groups, st) = (done (guid, groups), st)
  kerberos_or_error uri (account_off, st) = to_login_error cfg req uri "Account disabled" st
  kerberos_or_error uri (not_in_directory, st) =
      to_login_error cfg req uri "User not found in directory" st

  unfoldable pub sso_user : String → String → Act (String × List String)
  sso_user uri username st =
      kerberos_or_error uri (resolve_kerberos_user env cfg mint.now fresh username st)

  -- The header, up to the verified name.
  abbrev pub sso_name : String → Negotiation → Act (String × String)
  sso_name uri no_token = to_login_error cfg req uri "Kerberos not configured"
  sso_name uri not_base64 = to_login_error cfg req uri "Invalid Negotiate token"
  sso_name uri ntlm = to_login_error cfg req uri "NTLM is not supported, Kerberos required"
  sso_name uri (ticket keytab_loads principal) =
      if kerberos.keytab_path == ""
      then to_login_error cfg req uri "Kerberos not configured"
      else if not keytab_loads
      then to_login_error cfg req uri "Kerberos configuration error"
      else or_login_error cfg req uri "Kerberos authentication failed" (
          some_or (unspecified cfg req)
            (verified_principal req.equal_fold kerberos.realm principal))

  abbrev sso_code : User → App → String → String → OidcAuthCode
  sso_code u a uri code = record {
    code = code;
    user_guid = u.guid;
    app_id = a.app_id;
    redirect_uri = uri;
    scope = "";
    nonce = req.query "nonce";
    code_challenge = req.query "code_challenge";
    code_challenge_method = req.query "code_challenge_method";
    expires_at = mint.now + 600 * second;
    created_at = mint.now;
  }

  abbrev sso_location : String → String → String
  sso_location target code =
      target
      ^^ ((if req.has_query target then "&" else "?")
          ^^ ("code="
              ^^ (req.query_escape code
                  ^^ (if req.query "state" == ""
                      then ""
                      else "&state=" ^^ req.query_escape (req.query "state")))))

  -- oidc=1: an authorization code in place of the tokens.
  abbrev pub send_code : User → App → String → Option String → Cookie → Act SsoAnswer
  send_code u a uri random_code cookie = do
    code ← or_login_error cfg req uri "Internal error" (some_or (unspecified cfg req) random_code)
    or_login_error cfg req uri "Internal error"
        (call (unspecified cfg req) (save_oidc_auth_code (sso_code u a uri code)))
    target ← look λ st. if uri == "" then get_default_redirect_uri cfg st.runtime_settings else uri
    reply (code_sent (sso_location target code) cookie)

  -- A verified ticket: the user, the app's roles, the tokens, the session.
  unfoldable pub complete_sso :
      App
      → String
      → Option String
      → Option String
      → (String → String → String)
      → Negotiation
      → Act SsoAnswer
  complete_sso a uri session_id random_code fragment negotiation = do
    names ← sso_name uri negotiation
    owner ← sso_user uri names.0
    u ←
        or_login_error cfg req uri "User not found"
          (fetch (unspecified cfg req) (resolve_user owner.0))
    or_login_error cfg req uri "Account disabled" (refuse_if u.disabled (unspecified cfg req))
    lists ←
        or_login_error cfg req uri "Access denied: not assigned to this app"
          (grant_roles (unspecified cfg req) cfg a u)
    pair ←
        or_login_error cfg req uri "Token generation failed"
          (token_pair (unspecified cfg req) mint u lists owner.1 a)
    effect (audit_login mint u (("flow", "sso") ∷ ("method", "kerberos") ∷ []))
    cookie ← issue_cookie cfg req mint session_id u.guid
    if req.query "oidc" == "1"
        then send_code u a uri random_code cookie
        else reply
            (landed_at (landed (landing cfg req uri (fragment pair.0 pair.1)) pair.0 pair.1) cookie)

  -- The first visit is challenged; one that comes back without a ticket has failed.
  abbrev pub challenge_or_fail : String → Act SsoAnswer
  challenge_or_fail uri =
      if kerberos.keytab_path == ""
      then to_login_error cfg req uri "Kerberos not configured"
      else if req.query "sso_attempt" == "1"
      then to_login_error cfg req uri
          "SSO authentication failed — your browser did not provide Kerberos credentials"
      else reply (
          challenge (
            cfg.base_path
            ^^ ("/login/sso?sso_attempt=1"
                ^^ (if uri == "" then "" else "&redirect_uri=" ^^ req.query_escape uri))))

  abbrev pub answer_negotiation :
      App
      → String
      → Option String
      → Option String
      → (String → String → String)
      → Negotiation
      → Act SsoAnswer
  answer_negotiation a uri session_id random_code fragment no_token = challenge_or_fail uri
  answer_negotiation a uri session_id random_code fragment not_base64 =
      complete_sso a uri session_id random_code fragment not_base64
  answer_negotiation a uri session_id random_code fragment ntlm =
      complete_sso a uri session_id random_code fragment ntlm
  answer_negotiation a uri session_id random_code fragment (ticket keytab_loads principal) =
      complete_sso a uri session_id random_code fragment (ticket keytab_loads principal)

  unfoldable pub handle_sso_login :
      Option String → Option String → (String → String → String) → Negotiation → Act SsoAnswer
  handle_sso_login session_id random_code fragment negotiation =
      let uri = req.query "redirect_uri" in
      do
        rate_limit mint.now mint.ip (http_error 429 "too many requests")
        a ← serve_app (http_error 400 "unknown app") cfg (req.query "client_id")
        refuse_redirect (http_error 400 "redirect_uri not allowed") cfg a uri
        answer_negotiation a uri session_id random_code fragment negotiation
