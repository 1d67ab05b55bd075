-- ===== src/Handler/Hosted.antt =====
-- internal/handler/hosted_login.go: the hosted login form, the logout and the target of its errors. The
-- cookie of a refusal is not kept.
pub mod Targets
use simple_auth.Prelude.{
  String, Bool, true, false, not, ◌&&◌, ◌||◌, Option, none, some, List, [], ◌∷◌, if◌then◌else◌,
  ◌==◌, ◌^^◌,
}
use simple_auth.Outcome.{Result, ok, err}
use simple_auth.Bolt.{Bbolt}
use simple_auth.Store.Types.{Time, User, App, RuntimeSettings}
use simple_auth.Store.Users.{resolve_user}
use simple_auth.Handler.State.{Config, Env, HandlerState}
use simple_auth.Handler.Request.{Request, first_or_none}
use simple_auth.Handler.Roles.{AppLookup, found, not_served, resolve_app}
use simple_auth.Handler.Sessions.{
  Cookie, unchanged, issue_session_cookie, resolve_session_cookie, delete_current_session,
}
use simple_auth.Handler.Jwt.{Mint}
use simple_auth.Handler.Act.{
  Refusal, http_error, sent_to, Answer, done, refused, Act, ◌>>=◌, ◌>>◌, reply, refuse_if, fetch,
  effect, rate_limit, after, look,
}
use simple_auth.Handler.Guards.{serve_app, grant_roles, refuse_redirect, app_allows}
use simple_auth.Handler.Signin.{log_in, token_pair, audit_login}

abbrev csrf_matches : Option String → String → Bool
csrf_matches none field = false
csrf_matches (some cookie) field = cookie == field

unfoldable pub validate_csrf : Request → Bool
validate_csrf req = csrf_matches req.csrf_cookie (req.form_value "_csrf")

abbrev pub with_client : Request → String → String
with_client req client_id =
    if client_id == "" then "" else "&client_id=" ^^ req.query_escape client_id

-- SimpleAuth's own login page, with the error; manual=1 keeps it from signing in at once.
abbrev pub own_login_page : Config → Request → String → String
own_login_page cfg req msg =
    cfg.base_path
    ^^ ("/login?error="
        ^^ (req.query_escape msg ^^ ("&manual=1" ^^ with_client req (req.form_value "client_id"))))

abbrev pub app_error_page : Request → String → String → String
app_error_page req uri msg =
    uri ^^ ((if req.has_query uri then "&" else "?") ^^ ("error=" ^^ req.query_escape msg))

-- The tokens in a fragment, at the app's URI or at the account page.
abbrev pub landing : Config → Request → String → String → String
landing cfg req uri fragment =
    if uri == "" then cfg.base_path ^^ ("/account#" ^^ fragment) else uri ^^ ("#" ^^ fragment)

-- Where a hosted login ends: at a URL with a fragment of the two tokens, or on the form.
pub data Hosted : Type 0 where
  landed : (location access refresh : String) → Hosted
  form : (client_id redirect_uri error : String) (sso_link : String) (auto_sso : Bool) → Hosted

module _ ⦃bolt : Bbolt⦄ (cfg : Config) (req : Request) where
  -- redirectToLoginError: back to the app only where the URI is allowed for it.
  unfoldable pub login_error_location : String → String → HandlerState → String
  login_error_location uri msg st =
      if not (uri == "")
        && app_allows cfg st.runtime_settings
            (resolve_app cfg (req.form_value "client_id") st.store) uri
      then app_error_page req uri msg
      else own_login_page cfg req msg

  unfoldable pub to_login_error : {A : Type 0} → String → String → Act A
  to_login_error uri msg st = (refused (sent_to (login_error_location uri msg st)), st)

  -- A step whose refusal, whatever it is, sends the browser to the error page.
  abbrev pub sent_on :
      {A : Type 0} → String → String → Answer A × HandlerState → Answer A × HandlerState
  sent_on uri msg (done a, st) = (done a, st)
  sent_on uri msg (refused r, st) = to_login_error uri msg st

  unfoldable pub or_login_error : {A : Type 0} → String → String → Act A → Act A
  or_login_error uri msg step st = sent_on uri msg (step st)

  abbrev pub unspecified : Refusal
  unspecified = http_error 0 ""

  -- Tokens for the app, or the error page.
  unfoldable pub hosted_tokens :
      Mint
      → User
      → App
      → List String
      → String
      → List (String × String)
      → (String → String → String)
      → Act Hosted
  hosted_tokens mint u a groups uri extra fragment = do
    lists ←
        or_login_error uri "Access denied: not assigned to this app"
          (grant_roles unspecified cfg a u)
    pair ←
        or_login_error uri "Token generation failed" (token_pair unspecified mint u lists groups a)
    effect (audit_login mint u extra)
    reply (landed (landing cfg req uri (fragment pair.0 pair.1)) pair.0 pair.1)

  abbrev pub issue_cookie : Mint → Option String → String → Act Cookie
  issue_cookie mint session_id guid st =
      let (cookie, last) =
        issue_session_cookie cfg session_id mint.now guid req.user_agent mint.ip st in
      (done cookie, last)

  -- `fragment access refresh` is the text "access_token=…&refresh_token=…&expires_in=…".
  unfoldable pub handle_hosted_login_submit :
      Env → Mint → String → Option String → (String → String → String) → Act (Hosted × Cookie)
  handle_hosted_login_submit env mint fresh session_id fragment =
      let uri = req.form_value "redirect_uri" in
      let username = req.form_value "username" in
      let password = req.form_value "password" in
      do
        refuse_if (not req.form_parses) (http_error 400 "invalid form data")
        refuse_if (not (validate_csrf req)) (http_error 403 "invalid CSRF token")
        or_login_error uri "Username and password are required"
            (refuse_if (username == "" || password == "") unspecified)
        a ← serve_app (http_error 400 "unknown app") cfg (req.form_value "client_id")
        refuse_redirect (http_error 400 "redirect_uri not allowed") cfg a uri
        or_login_error uri "Too many login attempts. Please try again later."
            (rate_limit mint.now mint.ip unspecified)
        login ←
            or_login_error uri "Invalid credentials"
              (log_in unspecified env cfg mint fresh username password (("flow", "hosted") ∷ []) a)
        u ← or_login_error uri "User not found" (fetch unspecified (resolve_user login.0))
        or_login_error uri "Account disabled" (refuse_if u.disabled unspecified)
        answer ← hosted_tokens mint u a login.1 uri (("flow", "hosted") ∷ []) fragment
        cookie ← issue_cookie mint session_id u.guid
        reply (answer, cookie)

  -- A live session in place of the password.
  unfoldable pub complete_hosted_login_with_session :
      Mint → User → String → (String → String → String) → Act Hosted
  complete_hosted_login_with_session mint u uri fragment = do
    a ← or_login_error uri "Unknown app" (serve_app unspecified cfg (req.query "client_id"))
    refuse_redirect (http_error 400 "redirect_uri not allowed") cfg a uri
    hosted_tokens mint u a [] uri (("flow", "hosted") ∷ ("method", "session_sso") ∷ []) fragment

  abbrev pub set_if : String → String → List (String × String) → List (String × String)
  set_if key value l = if value == "" then l else (key, value) ∷ l

  abbrev sso_link : String → String → List (String × String) → String
  sso_link keytab_path base [] = if keytab_path == "" then "" else base
  sso_link keytab_path base (p ∷ l) =
      if keytab_path == "" then "" else base ^^ ("?" ^^ req.encode (p ∷ l))

  abbrev has_auto_sso : Option RuntimeSettings → Bool
  has_auto_sso none = false
  has_auto_sso (some rs) = rs.auto_sso

  abbrev is_one : Option String → Bool
  is_one none = false
  is_one (some v) = v == "1"

  abbrev pub show_form : String → String → Cookie → Act (Hosted × Cookie)
  show_form keytab_path uri cookie st = (
    done (
      form (req.query "client_id") uri (req.query "error")
          (sso_link keytab_path (cfg.base_path ^^ "/login/sso")
            (set_if "redirect_uri" uri (set_if "client_id" (req.query "client_id") [])))
          (not (keytab_path == "")
            && (req.query "error" == "")
            && not (req.query "manual" == "1")
            && not (is_one req.sso_attempted)
            && has_auto_sso st.runtime_settings),
      cookie,
    ),
    st,
  )

  -- The user of a session who is there and enabled, if any.
  abbrev session_user : Result User → Option User
  session_user (err e) = none
  session_user (ok u) = if u.disabled then none else some u

  abbrev pub signed_in_or :
      Mint
      → String
      → String
      → (String → String → String)
      → Cookie
      → Option User
      → Act (Hosted × Cookie)
  signed_in_or mint keytab_path uri fragment cookie none = show_form keytab_path uri cookie
  signed_in_or mint keytab_path uri fragment cookie (some u) = do
    answer ← complete_hosted_login_with_session mint u uri fragment
    reply (answer, cookie)

  abbrev after_session :
      Mint
      → String
      → String
      → (String → String → String)
      → String × Cookie × HandlerState
      → Answer (Hosted × Cookie) × HandlerState
  after_session mint keytab_path uri fragment (guid, cookie, st) =
      signed_in_or mint keytab_path uri fragment cookie
        (if guid == "" then none else session_user (resolve_user guid st.store)) st

  abbrev pub try_session :
      Env → Mint → String → String → (String → String → String) → Act (Hosted × Cookie)
  try_session env mint keytab_path uri fragment st =
      after_session mint keytab_path uri fragment
        (resolve_session_cookie env cfg mint.now (first_or_none req.session_cookies) st)

  unfoldable pub handle_hosted_login_page :
      Env → Mint → String → (String → String → String) → Act (Hosted × Cookie)
  handle_hosted_login_page env mint keytab_path fragment =
      let uri = req.query "redirect_uri" in
      do
        a ← serve_app (http_error 400 "unknown client") cfg (req.query "client_id")
        refuse_redirect (http_error 400 "redirect_uri not allowed") cfg a uri
        if not (req.query "manual" == "1") && (req.query "error" == "")
            then try_session env mint keytab_path uri fragment
            else show_form keytab_path uri unchanged

  -- The URL of the login page that follows a logout, and the cookie.
  unfoldable pub handle_logout : HandlerState → String × Cookie × HandlerState
  handle_logout st =
      let (cookie, last) = delete_current_session req.session_cookies st in
      let uri = req.query "redirect_uri" in
      (
        cfg.base_path
            ^^ ("/login?manual=1"
                ^^ (with_client req (req.query "client_id")
                    ^^ (if uri == "" then "" else "&redirect_uri=" ^^ req.query_escape uri))),
        cookie,
        last,
      )
