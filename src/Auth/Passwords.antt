-- ===== src/Auth/Passwords.antt =====
-- internal/auth/local.go: the password policy and the password history.
--
-- The classes of characters of the package `unicode` and bcrypt are arguments: `CharClass`, and
-- `check hash password` for CompareHashAndPassword.
pub mod History
pub mod Policy
use Prim.Native.Char.{Char}
use Prim.Native.String.{len}
use simple_auth.Prelude.{
  ℕ, zero, suc, ◌-◌, String, ℤ, to_nat, is_positive, Bool, true, false, not, ◌&&◌, ◌||◌, List, [],
  ◌∷◌, ◌++◌, length, ltb, if◌then◌else◌,
}

pub record CharClass : Type 0 where
  pub is_upper : Char → Bool
  pub is_lower : Char → Bool
  pub is_digit : Char → Bool
  pub is_letter : Char → Bool

pub record PasswordPolicy : Type 0 where
  pub min_length : ℤ
  pub require_uppercase : Bool
  pub require_lowercase : Bool
  pub require_digit : Bool
  pub require_special : Bool

-- The parts of the message "password must contain: …".
pub data Missing : Type 0 where
  uppercase_letter lowercase_letter digit special_character : Missing

pub data Verdict : Type 0 where
  valid : Verdict
  too_short : Verdict
  must_contain : List Missing → Verdict

-- `for _, r := range password { if p(r) { found = true; break } }`
unfoldable pub any_char : (Char → Bool) → String → Bool
any_char p String.[] = false
any_char p (String.◌∷◌ c s) = p c || any_char p s

abbrev pub is_special : CharClass → Char → Bool
is_special k c = not (k.is_letter c) && not (k.is_digit c)

-- A requirement that is not met is appended to the list.
abbrev pub require : Bool → Bool → Missing → List Missing → List Missing
require required found m missing =
    if required then (if found then missing else missing ++ m ∷ []) else missing

unfoldable pub missing_parts : CharClass → String → PasswordPolicy → List Missing
unfolding any_char
missing_parts k password p =
    let m1 = require p.require_uppercase (any_char k.is_upper password) uppercase_letter [] in
    let m2 = require p.require_lowercase (any_char k.is_lower password) lowercase_letter m1 in
    let m3 = require p.require_digit (any_char k.is_digit password) digit m2 in
    require p.require_special (any_char (is_special k) password) special_character m3

abbrev pub verdict_of : List Missing → Verdict
verdict_of [] = valid
verdict_of (m ∷ l) = must_contain (m ∷ l)

unfoldable pub validate_password : CharClass → String → PasswordPolicy → Verdict
unfolding missing_parts
validate_password k password p =
    if ltb (len password) (to_nat p.min_length)
    then too_short
    else verdict_of (missing_parts k password p)

unfoldable pub check_password_history : (String → String → Bool) → String → List String → Bool
check_password_history check password [] = false
check_password_history check password (h ∷ l) =
    check h password || check_password_history check password l

-- `l[n:]`
unfoldable pub drop : {A : Type 0} → ℕ → List A → List A
drop zero l = l
drop (suc n) [] = []
drop (suc n) (x ∷ l) = drop n l

unfoldable pub add_to_password_history : List String → String → ℤ → List String
unfolding drop
add_to_password_history history hash max_count =
    let extended = history ++ hash ∷ [] in
    if is_positive max_count
    then (if ltb (to_nat max_count) (length extended)
        then drop (length extended - to_nat max_count) extended
        else extended)
    else []
