-- ===== src/Oidc.antt =====
-- internal/handler/oidc.go: the OpenID Connect endpoints.
--
-- This file: the URLs of the issuer.
pub mod Clients
pub mod Tokens
pub mod Grants
pub mod Authorize
pub mod Resource
pub mod Logout
use simple_auth.Prelude.{
  String, Bool, true, false, not, ◌&&◌, ◌||◌, Option, none, some, List, if◌then◌else◌, ◌==◌, ◌^^◌,
}
use simple_auth.Handler.State.{Config}
use simple_auth.Handler.Request.{Request}

abbrev host_only : String → Option String → String
host_only host none = host
host_only host (some h) = h

unfoldable pub host_matches : Request → String → Bool
host_matches req configured =
    if req.host == ""
    then false
    else req.equal_fold (host_only req.host (req.split_host req.host)) configured

abbrev scheme_of : Config → Request → String
scheme_of cfg req =
    if not (req.forwarded_proto == "") && req.from_trusted_proxy
    then req.forwarded_proto
    else if cfg.tls_disabled
    then "http"
    else "https"

abbrev with_port : Config → String → String
with_port cfg scheme =
    if scheme == "https" && not (cfg.port == "443") || scheme == "http" && not (cfg.port == "80")
    then cfg.hostname ^^ (":" ^^ cfg.port)
    else cfg.hostname

abbrev pinned_host : Config → Request → String → String
pinned_host cfg req scheme =
    if not (cfg.hostname == "") && not (host_matches req cfg.hostname)
    then with_port cfg scheme
    else req.host

abbrev or_hostname : Config → String → String
or_hostname cfg host = if host == "" then cfg.hostname else host

unfoldable pub oidc_base_url : Config → Request → String
oidc_base_url cfg req =
    let scheme = scheme_of cfg req in
    scheme ^^ ("://" ^^ (or_hostname cfg (pinned_host cfg req scheme) ^^ cfg.base_path))

unfoldable pub oidc_issuer : Config → Request → String
oidc_issuer cfg req = oidc_base_url cfg req ^^ ("/realms/" ^^ cfg.jwt_issuer)
