-- ===== src/Oidc/Authorize.antt =====
-- internal/handler/oidc.go: the authorize endpoint. The cookie of a refusal is not kept.
pub mod Params
pub mod Delivery
use simple_auth.Prelude.{
  String, Bool, true, false, not, ◌&&◌, ◌||◌, Option, none, some, List, [], ◌∷◌, if◌then◌else◌,
  ◌==◌, ◌^^◌, without, ℕ, ◌*◌, ◌+◌, is_positive, ℤ, pos,
}
use simple_auth.Outcome.{Result, ok, err}
use simple_auth.Bolt.{Bbolt}
use simple_auth.Store.Types.{Time, User, App, OidcAuthCode, RuntimeSettings}
use simple_auth.Store.Users.{resolve_user}
use simple_auth.Store.Tokens.{save_oidc_auth_code}
use simple_auth.Handler.State.{Config, Env, HandlerState}
use simple_auth.Handler.Request.{Request, first_or_none}
use simple_auth.Handler.Settings.{get_default_redirect_uri, get_deployment_name, second}
use simple_auth.Handler.Roles.{AppLookup, found, not_served, resolve_app}
use simple_auth.Handler.Sessions.{Cookie, unchanged, issue_session_cookie, resolve_session_cookie}
use simple_auth.Handler.Jwt.{Mint}
use simple_auth.Handler.Issue.{audit}
use simple_auth.Handler.Act.{
  Refusal, http_error, sent_to, Act, ◌>>=◌, ◌>>◌, reply, refuse, refuse_if, look, call, fetch,
  effect, rate_limit, after, Answer, done,
}
use simple_auth.Handler.Guards.{serve_app, refuse_redirect, app_allows}
use simple_auth.Handler.Hosted.{validate_csrf}
use simple_auth.Handler.Signin.{log_in}
use simple_auth.Oidc.Authorize.Params.{
  AuthzRequest, parse_authz_request, values, set_value, retry_values,
}

-- What the login page shows.
pub record LoginPage : Type 0 where
  pub action : String
  pub authz : AuthzRequest
  pub app_name : String
  pub error_msg : String
  pub sso_link : String
  pub sso_enabled : Bool
  pub auto_sso : Bool
  pub sso_delay : ℤ
  pub csrf_token : String

pub data Authorized : Type 0 where
  redirected : (location : String) → Authorized
  shown : LoginPage → Authorized

abbrev bad_request : String → Refusal
bad_request text = http_error 400 text

abbrev code_lifetime : ℕ
code_lifetime = 600 * second

abbrev pub first_uri_or : String → AppLookup → String
first_uri_or default (not_served e) = default
first_uri_or default (found a) = elim a.redirect_uris [ [] ↦ default | u ∷ l ↦ u ]

-- Where a code goes: to the URI of the request, else to the app's first one, else to the default one.
abbrev pub target_of : String → String → AppLookup → String
target_of redirect_uri default l =
    if redirect_uri == "" then first_uri_or default l else redirect_uri

abbrev pub code_location : Request → String → String → String → String
code_location req target code state =
    target
    ^^ ((if req.has_query target then "&" else "?")
        ^^ ("code="
            ^^ (req.query_escape code
                ^^ (if state == "" then "" else "&state=" ^^ req.query_escape state))))

abbrev pub new_code : Mint → User → String → AuthzRequest → String → String → OidcAuthCode
new_code mint u app_id authz target code = record {
  code = code;
  user_guid = u.guid;
  app_id = app_id;
  redirect_uri = target;
  scope = authz.scope;
  nonce = authz.nonce;
  code_challenge = authz.code_challenge;
  code_challenge_method = authz.code_challenge_method;
  expires_at = mint.now + code_lifetime;
  created_at = mint.now;
}

-- The page of the login form and the target of its errors.
abbrev authorize_path : Config → String
authorize_path cfg =
    cfg.base_path ^^ ("/realms/" ^^ (cfg.jwt_issuer ^^ "/protocol/openid-connect/auth"))

unfoldable pub oidc_login_error_url : Config → Request → String → String
oidc_login_error_url cfg req msg =
    authorize_path cfg
    ^^ ("?" ^^ req.encode (retry_values msg (parse_authz_request req.form_value)))

abbrev pub login_error : Config → Request → String → Refusal
login_error cfg req msg = sent_to (oidc_login_error_url cfg req msg)

abbrev is_auto_sso : Option RuntimeSettings → Bool
is_auto_sso none = false
is_auto_sso (some rs) = rs.auto_sso

abbrev pub delay_of : Option RuntimeSettings → ℤ
delay_of none = pos 3
delay_of (some rs) = if is_positive rs.auto_sso_delay then rs.auto_sso_delay else pos 3

abbrev pub is_one : Option String → Bool
is_one none = false
is_one (some v) = v == "1"

-- The parameters of the link to /login/sso.
abbrev pub sso_values : AuthzRequest → App → List (String × String)
sso_values authz a =
    without "prompt" (set_value "client_id" a.app_id (set_value "oidc" "1" (values authz)))

abbrev name_or_default : String → String
name_or_default name = if name == "" then "your application" else name

module _ ⦃bolt : Bbolt⦄ (env : Env) (cfg : Config) (mint : Mint) (random_code : Option String)
    (req : Request) where
  abbrev pub code_or : Option String → Act String
  code_or none st = (Answer.refused (http_error 500 "internal error"), st)
  code_or (some code) st = (done code, st)

  -- The code is stored before the target is checked again.
  unfoldable pub issue_oidc_code_redirect : User → String → AuthzRequest → Act Authorized
  issue_oidc_code_redirect u app_id authz = do
    target ← look λ st.
        target_of authz.redirect_uri (get_default_redirect_uri cfg st.runtime_settings)
          (resolve_app cfg app_id st.store)
    code ← code_or random_code
    call (http_error 500 "internal error")
        (save_oidc_auth_code (new_code mint u app_id authz target code))
    allowed ← look λ st. app_allows cfg st.runtime_settings (resolve_app cfg app_id st.store) target
    refuse_if (not allowed) (bad_request "redirect_uri not allowed")
    reply (redirected (code_location req target code authz.state))

  abbrev page_of : String → String → AuthzRequest → App → Option RuntimeSettings → LoginPage
  page_of keytab_path csrf_token authz a rs =
      let sso_enabled = not (keytab_path == "") in
      let error_msg = req.query "error" in
      record {
        action = authorize_path cfg;
        authz = record authz { client_id = a.app_id };
        app_name = name_or_default (get_deployment_name cfg rs);
        error_msg = error_msg;
        sso_link =
            if sso_enabled
            then cfg.base_path ^^ ("/login/sso?" ^^ req.encode (sso_values authz a))
            else "";
        sso_enabled = sso_enabled;
        auto_sso =
            sso_enabled && (error_msg == "") && not (is_one req.sso_attempted) && is_auto_sso rs;
        sso_delay = delay_of rs;
        csrf_token = csrf_token;
      }

  abbrev pub show_page : String → String → AuthzRequest → App → Act (Authorized × Cookie)
  show_page keytab_path csrf_token authz a st =
      (done (shown (page_of keytab_path csrf_token authz a st.runtime_settings), unchanged), st)

  -- The user of a session who is there and enabled, if any.
  abbrev pub session_user : Result User → Option User
  session_user (err e) = none
  session_user (ok u) = if u.disabled then none else some u

  abbrev pub with_cookie : Cookie → Authorized → Authorized × Cookie
  with_cookie cookie answer = (answer, cookie)

  abbrev pub signed_in_or :
      String → String → AuthzRequest → App → Cookie → Option User → Act (Authorized × Cookie)
  signed_in_or keytab_path csrf_token authz a cookie none = do
    page ← show_page keytab_path csrf_token authz a
    reply (page.0, cookie)
  signed_in_or keytab_path csrf_token authz a cookie (some u) = do
    answer ← issue_oidc_code_redirect u a.app_id authz
    reply (answer, cookie)

  abbrev pub after_session :
      String
      → String
      → AuthzRequest
      → App
      → String × Cookie × HandlerState
      → Answer (Authorized × Cookie) × HandlerState
  after_session keytab_path csrf_token authz a (guid, cookie, st) =
      signed_in_or keytab_path csrf_token authz a cookie
        (if guid == "" then none else session_user (resolve_user guid st.store)) st

  -- A live SSO session skips the form, unless an error is shown or a fresh login is asked for.
  abbrev pub try_session : String → String → AuthzRequest → App → Act (Authorized × Cookie)
  try_session keytab_path csrf_token authz a st =
      after_session keytab_path csrf_token authz a
        (resolve_session_cookie env cfg mint.now (first_or_none req.session_cookies) st)

  unfoldable pub show_oidc_login_page : String → String → Act (Authorized × Cookie)
  show_oidc_login_page keytab_path csrf_token =
      let authz = parse_authz_request req.form_value in
      do
        a ← serve_app (bad_request "unknown client") cfg authz.client_id
        refuse_redirect (bad_request "redirect_uri not allowed") cfg a authz.redirect_uri
        if (req.query "error" == "") && not (authz.prompt == "login")
            then try_session keytab_path csrf_token authz a
            else show_page keytab_path csrf_token authz a

  abbrev issue_cookie : Option String → String → Act Cookie
  issue_cookie session_id guid st =
      let (cookie, last) =
        issue_session_cookie cfg session_id mint.now guid req.user_agent mint.ip st in
      (done cookie, last)

  -- The form: the credentials, then a session, then a code.
  unfoldable pub submit_oidc_login : String → Option String → Act (Authorized × Cookie)
  submit_oidc_login fresh session_id =
      let authz = parse_authz_request req.form_value in
      let username = req.form_value "username" in
      let password = req.form_value "password" in
      do
        refuse_if (not req.form_parses) (bad_request "invalid form data")
        refuse_if (not (validate_csrf req)) (http_error 403 "invalid CSRF token")
        refuse_if (username == "" || password == "")
            (login_error cfg req "Username and password are required")
        a ← serve_app (bad_request "unknown client") cfg authz.client_id
        refuse_redirect (bad_request "redirect_uri not allowed") cfg a authz.redirect_uri
        refuse_if (not (authz.code_challenge == "") && not (authz.code_challenge_method == "S256"))
            (bad_request "unsupported code_challenge_method (only S256 is supported)")
        rate_limit mint.now mint.ip (login_error cfg req "Too many login attempts")
        login ←
            log_in (login_error cfg req "Invalid credentials") env cfg mint fresh username password
              (("flow", "oidc") ∷ []) a
        u ← fetch (login_error cfg req "User not found") (resolve_user login.0)
        refuse_if u.disabled (login_error cfg req "Account disabled")
        cookie ← issue_cookie session_id u.guid
        effect (audit mint "oidc_authorize" u.guid (("flow", "authorization_code") ∷ []))
        answer ← issue_oidc_code_redirect u a.app_id authz
        reply (answer, cookie)

  unfoldable pub handle_oidc_authorize :
      (keytab_path csrf_token fresh : String) → Option String → Act (Authorized × Cookie)
  handle_oidc_authorize keytab_path csrf_token fresh session_id =
      if req.method == "GET"
      then show_oidc_login_page keytab_path csrf_token
      else submit_oidc_login fresh session_id
