-- ===== src/Handler/AdminSettings/Bounds.antt =====
-- internal/handler/admin_settings.go: the bounds of a settings document that was checked.
use simple_auth.Prelude.{
  ℕ, ◌≤◌, String, ◌≡◌, refl, ◌⊎◌, inl, inr, true, Option, none, some, arith, suc, ℤ, pos, negsuc,
  is_positive, ltb, Bool-cases,
}
use simple_auth.Store.Types.{RuntimeSettings}
use simple_auth.Handler.State.{Config, Env}
use simple_auth.Handler.Settings.{OutagePolicy, grace, block, allow, grace_hours_of}
use simple_auth.Handler.AdminSettings.{
  policy_text, or_else, capped, at_least, normalize_rate_limit, normalized_with,
  normalize_directory_outage, guarded,
}

abbrev pub Between : ℕ → ℕ → ℤ → Type 0
Between low high i = (n : ℕ) × (i ≡ pos n) × (low ≤ n) × (n ≤ high)

or_else-positive : (i : ℤ) (n : ℕ) → is_positive (or_else i (pos (suc n))) ≡ true
or_else-positive (pos i) n = ground arith
or_else-positive (negsuc i) n = ground arith

capped-Between : (top : ℕ) (i : ℤ) → 1 ≤ top → is_positive i ≡ true → Between 1 top (capped top i)
capped-Between top (pos n) h positive = elim (Bool-cases (ltb top n)) [
  | inl above ↦ rw above (top, refl, h, omega arith)
  | inr below ↦ rw below (n, refl, ground arith, ground arith)
]
capped-Between top (negsuc n) h positive = cc

grace_hours_of-bounds : (i : ℤ) → (1 ≤ grace_hours_of i) × (grace_hours_of i ≤ 168)
grace_hours_of-bounds (pos n) = (ground arith, ground arith)
grace_hours_of-bounds (negsuc n) = (ground arith, ground arith)

at_least-bound : (floor : ℕ) (i : ℤ) → (n : ℕ) × (at_least floor i ≡ pos n) × (floor ≤ n)
at_least-bound floor (pos n) = elim (Bool-cases (ltb n floor)) [
  | inl below ↦ rw below (floor, refl, omega arith)
  | inr enough ↦ rw enough (n, refl, ground arith)
]
at_least-bound floor (negsuc n) = (floor, refl, omega arith)

-- Settings that may be in force: no limit is off by a number that is missing or absurd.
pub record IsSound (rs : RuntimeSettings) : Type 0 where
  pub long_passwords : (n : ℕ) × (rs.password_min_length ≡ pos n) × (8 ≤ n)
  pub some_requests : Between 1 1000000000 rs.rate_limit_max
  pub some_window : Between 1 86400 rs.rate_limit_window_s
  pub some_hours : Between 1 168 rs.directory_outage_grace_hours
  pub known_policy :
      (rs.directory_outage_policy ≡ "grace")
      ⊎ ((rs.directory_outage_policy ≡ "block") ⊎ (rs.directory_outage_policy ≡ "allow"))

policy_text-known :
    (p : OutagePolicy)
    → (policy_text p ≡ "grace") ⊎ ((policy_text p ≡ "block") ⊎ (policy_text p ≡ "allow"))
policy_text-known grace = inl refl
policy_text-known block = inr (inl refl)
policy_text-known allow = inr (inr refl)

normalized_with-known :
    (policy : String) (o : Option OutagePolicy) (rs : RuntimeSettings)
    → (normalized_with policy o rs).0 ≡ true
    → (p : OutagePolicy) × ((normalized_with policy o rs).1 ≡ record rs {
      directory_outage_policy = policy_text p;
      directory_outage_grace_hours = pos (grace_hours_of rs.directory_outage_grace_hours);
    })
normalized_with-known policy none rs h = cc
normalized_with-known policy (some p) rs h = (p, refl)

-- A document that passes the checks is sound, whatever was sent.
pub guarded-IsSound :
    (env : Env) (cfg : Config) (window : ℤ) (rs : RuntimeSettings)
    → (guarded env cfg window rs).0 ≡ true
    → IsSound (guarded env cfg window rs).1
unfolding normalize_directory_outage normalize_rate_limit
guarded-IsSound env cfg window rs h =
    let (p, e) = normalized_with-known _ _ _ h in
    rw e (record {
      long_passwords = at_least-bound 8 rs.password_min_length;
      some_requests =
          capped-Between 1000000000
            (or_else (or_else rs.rate_limit_max cfg.rate_limit_max) (pos 10)) (omega arith)
            (or_else-positive (or_else rs.rate_limit_max cfg.rate_limit_max) 9);
      some_window =
          capped-Between 86400 (or_else (or_else rs.rate_limit_window_s window) (pos 60))
            (omega arith) (or_else-positive (or_else rs.rate_limit_window_s window) 59);
      some_hours =
          let (low, high) = grace_hours_of-bounds rs.directory_outage_grace_hours in
          (grace_hours_of rs.directory_outage_grace_hours, refl, low, high);
      known_policy = policy_text-known p;
    })

pub IsSound-version :
    {rs : RuntimeSettings} (v : ℤ) → IsSound rs → IsSound (record rs { version = v })
IsSound-version v sound = record {
  long_passwords = sound.long_passwords;
  some_requests = sound.some_requests;
  some_window = sound.some_window;
  some_hours = sound.some_hours;
  known_policy = sound.known_policy;
}

version-normalized_with :
    (policy : String) (o : Option OutagePolicy) (rs : RuntimeSettings)
    → (normalized_with policy o rs).1.version ≡ rs.version
version-normalized_with policy none rs = refl
version-normalized_with policy (some p) rs = refl

pub version-guarded :
    (env : Env) (cfg : Config) (window : ℤ) (rs : RuntimeSettings)
    → (guarded env cfg window rs).1.version ≡ rs.version
unfolding normalize_directory_outage normalize_rate_limit
version-guarded env cfg window rs = version-normalized_with _ _ _
