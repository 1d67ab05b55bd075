-- ===== src/Handler/Kerberos/Entry.antt =====
-- internal/handler/auth.go: whom handleNegotiate lets in.
use simple_auth.Handler.Request.{Request}
use simple_auth.Handler.Act.{Act}
use simple_auth.Handler.Kerberos.Sso.{Kerberos}
