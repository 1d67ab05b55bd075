-- ===== src/Oidc/Authorize/Delivery.antt =====
-- internal/handler/oidc.go: where an authorization code goes, and what it is bound to.
use simple_auth.Handler.Request.{Request}
use simple_auth.Handler.Act.{Act}
