-- ===== src/Oidc/Grants/Served.antt =====
-- internal/handler/oidc.go: the exchange of a code that nothing speaks against gives tokens.
use simple_auth.Prelude.{Bool, true, false}
use simple_auth.Handler.Request.{Request}
use simple_auth.Handler.Act.{Answer, done, refused}

abbrev pub is_done : {A : Type 0} → Answer A → Bool
is_done (done a) = true
is_done (refused r) = false
