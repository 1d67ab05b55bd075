-- ===== src/Oidc/Resource.antt =====
-- internal/handler/oidc.go: the endpoints that read a token, userinfo and introspection, and the
-- discovery document. A blank or nil member that the response leaves out is `none` or [].
pub mod Sound
use simple_auth.Prelude.{
  String, Bool, true, false, not, Option, none, some, List, [], ◌∷◌, ◌++◌, if◌then◌else◌, ◌==◌,
  ◌^^◌,
}
use simple_auth.Bolt.{Bbolt}
use simple_auth.Store.Types.{Time, User, NamesByKey}
use simple_auth.Store.Users.{resolve_user}
use simple_auth.Handler.State.{Config, HandlerState}
use simple_auth.Handler.Request.{Request}
use simple_auth.Handler.Jwt.{Claims}
use simple_auth.Handler.Access.{Validated, good, bad, validate_access_token}
use simple_auth.Handler.Signin.{access_claims}
use simple_auth.Handler.Act.{
  Refusal, http_error, Act, ◌>>=◌, ◌>>◌, reply, refuse_if, look, fetch, Answer, done, refused,
}
use simple_auth.Oidc.{oidc_base_url, oidc_issuer}
use simple_auth.Oidc.Clients.{oidc_confidential_enabled, require_confidential_client}
use simple_auth.Oidc.Tokens.{email_or_name}

-- The member `aud`: left out, a text, or an array.
pub data Audience : Type 0 where
  no_audience : Audience
  single : String → Audience
  several : List String → Audience

abbrev pub audience_member : List String → Audience
audience_member [] = no_audience
audience_member (a ∷ []) = single a
audience_member (a ∷ b ∷ l) = several (a ∷ b ∷ l)

pub record Active : Type 0 where
  pub sub : String
  pub iss : String
  pub exp : Time
  pub iat : Time
  pub scope : String
  pub client_id : Option String
  pub aud : Audience
  pub preferred_username : Option String
  pub name : Option String
  pub email : Option String

pub data Introspection : Type 0 where
  inactive : Introspection
  active : Active → Introspection

abbrev pub unless_blank : String → Option String
unless_blank s = if s == "" then none else some s

abbrev pub introspected : Validated → Introspection
introspected (bad e) = inactive
introspected (good c) = active (record {
  sub = c.subject;
  iss = c.issuer;
  exp = c.expires_at;
  iat = c.issued_at;
  scope = c.scope;
  client_id = unless_blank c.azp;
  aud = audience_member c.audience;
  preferred_username = unless_blank c.preferred_username;
  name = unless_blank c.name;
  email = unless_blank c.email;
})

pub record UserInfo : Type 0 where
  pub sub : String
  pub name : String
  pub preferred_username : String
  pub email : String
  pub department : Option String
  pub company : Option String
  pub job_title : Option String
  pub sam_account_name : Option String
  pub roles : List String
  pub groups : List String
  pub realm_access : Option (List String)
  pub resource_access : NamesByKey

abbrev pub user_info : User → Claims → UserInfo
user_info u c = record {
  sub = u.guid;
  name = u.display_name;
  preferred_username = email_or_name u;
  email = u.email;
  department = unless_blank u.department;
  company = unless_blank u.company;
  job_title = unless_blank u.job_title;
  sam_account_name = unless_blank u.sam_account_name;
  roles = c.roles;
  groups = c.groups;
  realm_access = c.realm_access;
  resource_access = c.resource_access;
}

abbrev invalid_token : Refusal
invalid_token = http_error 401 "invalid_token"

module _ ⦃bolt : Bbolt⦄ where
  unfoldable pub handle_oidc_user_info : (String → Option Claims) → Time → String → Act UserInfo
  handle_oidc_user_info parse now token = do
    refuse_if (token == "") invalid_token
    c ← access_claims invalid_token parse now token
    u ← fetch invalid_token (resolve_user c.subject)
    reply (user_info u c)

  -- Every token that is not valid is inactive, whatever the reason.
  unfoldable pub handle_oidc_introspect :
      Config → (String → Option Claims) → Time → Request → Act Introspection
  handle_oidc_introspect cfg parse now req =
      let token = req.form_value "token" in
      do
        refuse_if (not req.form_parses) (http_error 400 "invalid_request")
        require_confidential_client cfg req
        look λ st.
            if token == ""
            then inactive
            else introspected (validate_access_token parse now token st.store)

-- The members of the document that depend on the configuration.
pub record Discovery : Type 0 where
  pub issuer : String
  pub authorization_endpoint : String
  pub token_endpoint : String
  pub userinfo_endpoint : String
  pub jwks_uri : String
  pub introspection_endpoint : String
  pub end_session_endpoint : String
  pub grant_types_supported : List String
  pub token_endpoint_auth_methods_supported : List String
  pub code_challenge_methods_supported : List String

unfoldable pub handle_oidc_discovery : Config → Request → Discovery
unfolding oidc_confidential_enabled
handle_oidc_discovery cfg req =
    let prefix =
      oidc_base_url cfg req ^^ ("/realms/" ^^ (cfg.jwt_issuer ^^ "/protocol/openid-connect")) in
    let public_grants = "authorization_code" ∷ "refresh_token" ∷ [] in
    record {
      issuer = oidc_issuer cfg req;
      authorization_endpoint = prefix ^^ "/auth";
      token_endpoint = prefix ^^ "/token";
      userinfo_endpoint = prefix ^^ "/userinfo";
      jwks_uri = prefix ^^ "/certs";
      introspection_endpoint = prefix ^^ "/token/introspect";
      end_session_endpoint = prefix ^^ "/logout";
      grant_types_supported =
          if oidc_confidential_enabled cfg
          then public_grants ++ "client_credentials" ∷ "password" ∷ []
          else public_grants;
      token_endpoint_auth_methods_supported =
          if oidc_confidential_enabled cfg
          then "client_secret_basic" ∷ "client_secret_post" ∷ []
          else "none" ∷ [];
      code_challenge_methods_supported = "S256" ∷ [];
    }
