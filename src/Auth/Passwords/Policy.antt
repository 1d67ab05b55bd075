-- ===== src/Auth/Passwords/Policy.antt =====
-- internal/auth/local.go: what ValidatePassword accepts.
use Prim.Native.Char.{Char}
use simple_auth.Prelude.{String, ◌≡◌, Bool, true}
use simple_auth.Auth.Passwords.{any_char}

-- A character that passes `p` is there, where one is required.
abbrev pub Meets : Bool → (Char → Bool) → String → Type 0
Meets required p password = required ≡ true → any_char p password ≡ true
