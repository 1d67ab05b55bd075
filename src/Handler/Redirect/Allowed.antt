-- ===== src/Handler/Redirect/Allowed.antt =====
-- internal/handler/hosted_login.go: what isAllowedRedirect lets through.
use simple_auth.Prelude.{String, ◌^^◌, ◌≡◌, ◌⊎◌, true, ◌||◌, starts_with}
use simple_auth.Handler.Redirect.{ends_with}

-- The pattern is the URI itself, or a prefix and a '*', where the URI is the prefix, or continues it
-- after a '/', or continues it where it ends with '/' or with '.'.
abbrev pub Permits : String → String → Type 0
Permits allowed uri =
    (allowed ≡ uri)
    ⊎ ((prefix : String) × (allowed ≡ prefix ^^ "*")
        × ((uri ≡ prefix)
            ⊎ (starts_with uri (prefix ^^ "/") ≡ true)
            ⊎ ((starts_with uri prefix ≡ true)
                × ((ends_with b'/' prefix || ends_with b'.' prefix) ≡ true))))
