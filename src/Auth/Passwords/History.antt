-- ===== src/Auth/Passwords/History.antt =====
-- internal/auth/local.go: what AddToPasswordHistory keeps, as CheckPasswordHistory sees it.
use simple_auth.Prelude.{
  ℕ, zero, suc, ◌+◌, ◌-◌, ◌≤◌, ◌<◌, min, String, ◌≡◌, refl, Bool, true, List, [], ◌∷◌, ◌++◌, arith,
  length, length-append, ltb, inl, inr, Bool-cases, ℤ, pos, negsuc, is_positive, to_nat,
}
use simple_auth.Auth.Passwords.{check_password_history, drop, add_to_password_history}

length-drop : {A : Type 0} (n : ℕ) (l : List A) → length (drop n l) ≡ length l - n
unfolding drop
length-drop zero l = omega arith
length-drop (suc n) [] = omega arith
length-drop (suc n) (x ∷ l) = omega (arith, length-drop n l)

drop-append_one :
    {A : Type 0} (n : ℕ) (l : List A) (h : A)
    → n ≤ length l
    → drop n (l ++ h ∷ []) ≡ drop n l ++ h ∷ []
unfolding drop
drop-append_one zero l h b = refl
drop-append_one (suc n) [] h b = ground arith
drop-append_one (suc n) (x ∷ l) h b = drop-append_one n l h (omega arith)

module _ (check : String → String → Bool) (password : String) where
  check-append_one :
      (l : List String) (hash : String)
      → check hash password ≡ true
      → check_password_history check password (l ++ hash ∷ []) ≡ true
  unfolding check_password_history
  check-append_one [] hash h = ground arith
  check-append_one (x ∷ l) hash h = ground (arith, check-append_one l hash)

  check-drop_append :
      (n : ℕ) (l : List String) (hash : String)
      → n ≤ length l
      → check hash password ≡ true
      → check_password_history check password (drop n (l ++ hash ∷ [])) ≡ true
  check-drop_append n l hash b h =
      rw (drop-append_one n l hash b) (check-append_one (drop n l) hash h)

  -- When a password's own hash is added, the history holds the configured number of hashes or
  -- one more than before, whichever is less, and the password then counts as used unless the
  -- number is not positive, when the history is empty.
  pub add_to_password_history_lem :
      (history : List String) (hash : String) (max_count : ℤ)
      → check hash password ≡ true
      → (length (add_to_password_history history hash max_count)
          ≡ min (to_nat max_count) (length history + 1))
        × (check_password_history check password (add_to_password_history history hash max_count)
            ≡ is_positive max_count)
  unfolding add_to_password_history check_password_history
  add_to_password_history_lem history hash (negsuc n) h = (omega arith, refl)
  add_to_password_history_lem history hash (pos zero) h = (omega arith, refl)
  add_to_password_history_lem history hash (pos (suc n)) h =
      let extended = history ++ hash ∷ [] in
      let extra = length extended - suc n in
      let sum = length-append history (hash ∷ []) in
      let positive : ltb 0 (suc n) ≡ true = ground arith in
      elim (Bool-cases (ltb (suc n) (length extended))) [
        | inl long ↦
            let bound : suc n < length extended = ground arith in
            rw (positive, long)
              (
                omega (arith, sum, bound, length-drop extra extended),
                check-drop_append extra history hash (omega (arith, sum)) h,
              )
        | inr short ↦
            let bound : length extended ≤ suc n = ground arith in
            rw (positive, short) (omega (arith, sum, bound), check-append_one history hash h)
      ]
