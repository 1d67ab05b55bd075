-- ===== src/Outcome.antt =====
-- The results of Go functions that return `(value, error)`.
use simple_auth.Prelude.{String, ◌≡◌, refl, ◌⊎◌, inl, inr}

-- One constructor for each error value that the modelled code builds. The texts of the messages are
-- kept where they name a key.
pub data Error : Type 0 where
  app_exists app_not_found app_missing : Error
  user_not_found merge_cycle not_merged source_not_found : String → Error
  mapping_not_found : String → String → Error
  ldap_not_configured : Error
  refresh_token_not_found refresh_token_reused : Error
  code_not_found code_expired : Error
  session_not_found : Error
  bad_json key_refused : Error
  -- a loop of the model that is cut short: no run reaches it
  out_of_fuel : Error

pub data Result {ℓ} (A : Type ℓ) : Type ℓ where
  ok : A → Result A
  err : Error → Result A

module _ {ℓ} {A : Type ℓ} where
  pub Result-cases : (r : Result A) → ((a : A) × (r ≡ ok a)) ⊎ ((e : Error) × (r ≡ err e))
  Result-cases (err e) = inr (e, refl)
  Result-cases (ok a) = inl (a, refl)

  pub ok-injective : {a b : A} → ok a ≡ ok b → a ≡ b
  ok-injective h = cc

  -- `if err != nil { return err }`, then the rest of the function on the value.
  infixl 5 ◌>>=◌ ◌>>◌
  abbrev pub ◌>>=◌ {κ} : {B : Type κ} → Result A → (A → Result B) → Result B
  err failure >>= rest = err failure
  ok value >>= rest = rest value

  abbrev pub ◌>>◌ {κ} : {B : Type κ} → Result A → Result B → Result B
  first >> second = first >>= λ value. second

  pub >>=-eq-ok {κ} :
      {B : Type κ} (first : Result A) (rest : A → Result B) {b : B}
      → (first >>= rest) ≡ ok b
      → (value : A) × (first ≡ ok value) × (rest value ≡ ok b)
  >>=-eq-ok (err failure) rest done = cc
  >>=-eq-ok (ok value) rest done = (value, refl, done)
