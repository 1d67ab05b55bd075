-- ===== src/Handler/Request.antt =====
-- What the handlers of internal/handler read of an HTTP request.
--
-- Absent parameters and headers are blank. The functions of the packages `net`, `net/url` and
-- `strings` that the handlers call are fields.
use simple_auth.Prelude.{String, Bool, Option, none, some, List, [], ◌∷◌}

pub record Request : Type 0 where
  pub method : String
  -- ParseForm gives no error
  pub form_parses : Bool
  pub form_value : String → String
  -- r.URL.Query().Get
  pub query : String → String
  -- the password of BasicAuth
  pub basic_password : Option String
  pub csrf_cookie : Option String
  -- the values of the cookies of that name, in order
  pub session_cookies : List String
  pub sso_attempted : Option String
  pub user_agent : String
  pub host : String
  pub forwarded_proto : String
  -- isTrustedProxy of the address of the peer
  pub from_trusted_proxy : Bool
  -- the host of a SplitHostPort that succeeds
  pub split_host : String → Option String
  pub equal_fold : String → String → Bool
  -- strings.Contains of a URL and "?"
  pub has_query : String → Bool
  pub query_escape : String → String
  -- Values.Encode
  pub encode : List (String × String) → String

-- r.Cookie gives the first one.
abbrev pub first_or_none : List String → Option String
first_or_none [] = none
first_or_none (x ∷ l) = some x
