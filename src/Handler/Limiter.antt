-- ===== src/Handler/Limiter.antt =====
-- internal/handler/middleware.go: the rate limiter of the login endpoints.
--
-- The mutex makes each method one step. The map of counters is an association list, and the clock is
-- an argument in nanoseconds. `count` stands for a Go int that no run brings to its bound.
pub mod Window
pub mod Cleanup
use simple_auth.Prelude.{
  ℕ, suc, ◌+◌, ◌-◌, String, Bool, true, false, not, ◌&&◌, ◌||◌, Option, none, some, List, [], ◌∷◌,
  lookup, without, ltb, leb, eqb, if◌then◌else◌, ℤ, pos, negsuc, is_positive, to_nat,
}
use simple_auth.Store.Types.{Time}

pub record IpCounter : Type 0 where
  pub count : ℕ
  pub reset_at : Time

pub record RateLimiter : Type 0 where
  pub counters : List (String × IpCounter)
  pub limit : ℤ
  pub window : ℤ
  pub disabled : Bool

-- `t.Add(d)`
abbrev pub add_duration : Time → ℤ → Time
add_duration t (pos d) = t + d
add_duration t (negsuc d) = t - suc d

-- `count <= limit`
abbrev pub within : ℕ → ℤ → Bool
within n (pos l) = leb n l
within n (negsuc l) = false

abbrev pub same_int : ℤ → ℤ → Bool
same_int (pos a) (pos b) = eqb a b
same_int (negsuc a) (negsuc b) = eqb a b
same_int _ _ = false

abbrev pub new_rate_limiter : ℤ → ℤ → RateLimiter
new_rate_limiter limit window = record {
  counters = [];
  limit = limit;
  window = window;
  disabled = false;
}

abbrev pub same_bool : Bool → Bool → Bool
same_bool true b = b
same_bool false b = not b

unfoldable pub set_config : ℤ → ℤ → Bool → RateLimiter → RateLimiter
set_config limit window disabled rl = record {
  counters =
      if (is_positive window && not (same_int window rl.window))
        || not (same_bool disabled rl.disabled)
      then []
      else rl.counters;
  limit = if is_positive limit then limit else rl.limit;
  window = if is_positive window then window else rl.window;
  disabled = disabled;
}

abbrev pub put_counter : String → IpCounter → RateLimiter → RateLimiter
put_counter ip c rl = record rl { counters = (ip, c) ∷ without ip rl.counters }

abbrev pub allow_with : Time → String → Option IpCounter → RateLimiter → Bool × RateLimiter
allow_with now ip none rl =
    (true, put_counter ip (record { count = 1; reset_at = add_duration now rl.window }) rl)
allow_with now ip (some c) rl =
    if ltb c.reset_at now
    then (true, put_counter ip (record { count = 1; reset_at = add_duration now rl.window }) rl)
    else (within (suc c.count) rl.limit, put_counter ip (record c { count = suc c.count }) rl)

unfoldable pub allow : Time → String → RateLimiter → Bool × RateLimiter
allow now ip rl = if rl.disabled then (true, rl) else allow_with now ip (lookup ip rl.counters) rl

unfoldable pub drop_expired : Time → List (String × IpCounter) → List (String × IpCounter)
drop_expired now [] = []
drop_expired now ((ip, c) ∷ l) =
    let rest = drop_expired now l in if ltb c.reset_at now then rest else (ip, c) ∷ rest

-- One tick of the loop of `cleanup`.
unfoldable pub cleanup : Time → RateLimiter → RateLimiter
unfolding drop_expired
cleanup now rl = record rl { counters = drop_expired now rl.counters }
