-- ===== src/Handler/Limiter/Window.antt =====
-- internal/handler/middleware.go: how many requests `allow` lets through.
use simple_auth.Prelude.{
  ℕ, suc, ◌+◌, ◌-◌, ◌≤◌, min, String, ◌≡◌, ◌∙◌, inl, inr, Bool, true, false, Option, none, some,
  List, [], ◌∷◌, arith, lookup, lookup-without, ltb, leb, if◌then◌else◌, Bool-cases, Option-cases,
  ◌==◌, eq_iff, eq_refl, pos,
}
use simple_auth.Store.Types.{Time}
use simple_auth.Handler.Limiter.{IpCounter, RateLimiter, allow, add_duration}

-- A run of `allow` on a list of requests: the number that it lets through, by address.
abbrev as_nat : Bool → ℕ
as_nat true = 1
as_nat false = 0

-- How many of the requests of one address are let through, when requests of all addresses come in
-- the listed order.
unfoldable pub let_through : String → List (Time × String) → RateLimiter → ℕ
unfolding allow
let_through ip [] rl = 0
let_through ip ((now, other) ∷ l) rl =
    let (allowed, rl') = allow now other rl in
    let rest = let_through ip l rl' in if other == ip then as_nat allowed + rest else rest

-- How many requests the address makes.
abbrev pub requests_of : String → List (Time × String) → ℕ
requests_of ip [] = 0
requests_of ip ((now, other) ∷ l) =
    let rest = requests_of ip l in if other == ip then suc rest else rest

-- Every request comes before the instant or at it.
abbrev pub AllBefore : Time → List (Time × String) → Type 0
AllBefore end [] = Unit
AllBefore end ((now, other) ∷ l) = (now ≤ end) × AllBefore end l

-- What `allow` does to the counter of an address, and that it leaves the settings.
allow-other :
    (now : Time) (ip other : String) (rl : RateLimiter)
    → other == ip ≡ false
    → lookup ip (allow now other rl).1.counters ≡ lookup ip rl.counters
unfolding allow
allow-other now ip other rl h = elim (Option-cases (lookup other rl.counters)) [
  | inl absent ↦ rw absent (ground (arith, lookup-without other ip rl.counters))
  | inr (c, there) ↦ rw there (ground (arith, lookup-without other ip rl.counters))
]

allow-keeps :
    (now : Time) (ip : String) (rl : RateLimiter)
    → ((allow now ip rl).1.disabled ≡ rl.disabled) × ((allow now ip rl).1.limit ≡ rl.limit)
unfolding allow
allow-keeps now ip rl = elim (Option-cases (lookup ip rl.counters)) [
  | inl absent ↦ rw absent (ground arith)
  | inr (c, there) ↦ rw there (ground arith)
]

allow-counted :
    (now : Time) (ip : String) (rl : RateLimiter) (c : IpCounter) (n : ℕ)
    → rl.disabled ≡ false
    → rl.limit ≡ pos n
    → lookup ip rl.counters ≡ some c
    → now ≤ c.reset_at
    → ((allow now ip rl).0 ≡ leb (suc c.count) n)
      × (lookup ip (allow now ip rl).1.counters ≡ some (record c { count = suc c.count }))
unfolding allow
allow-counted now ip rl c n off lim there b = rw (off, lim, there) (ground (arith, eq_refl ip))

-- The address has no counter, or one whose window has ended.
abbrev pub is_fresh : Time → Option IpCounter → Bool
is_fresh now none = true
is_fresh now (some c) = ltb c.reset_at now

allow-fresh :
    (now : Time) (ip : String) (rl : RateLimiter)
    → rl.disabled ≡ false
    → is_fresh now (lookup ip rl.counters) ≡ true
    → ((allow now ip rl).0 ≡ true)
      × (lookup ip (allow now ip rl).1.counters
          ≡ some (record { count = 1; reset_at = add_duration now rl.window }))
unfolding allow
allow-fresh now ip rl off fresh = elim (Option-cases (lookup ip rl.counters)) [
  | inl absent ↦ rw (off, absent) (ground (arith, eq_refl ip))
  | inr (c, there) ↦
      let ended : ltb c.reset_at now ≡ true = rw there at fresh in
      rw (off, there, ended) (ground (arith, eq_refl ip))
]

let_through-counted :
    (ip : String) (l : List (Time × String)) (rl : RateLimiter) (c : IpCounter) (n : ℕ)
    → rl.disabled ≡ false
    → rl.limit ≡ pos n
    → lookup ip rl.counters ≡ some c
    → AllBefore c.reset_at l
    → let_through ip l rl ≡ min (n - c.count) (requests_of ip l)
unfolding let_through
let_through-counted ip [] rl c n off lim there b = omega arith
let_through-counted ip ((now, other) ∷ l) rl c n off lim there b =
    let kept = allow-keeps now other rl in
    elim (Bool-cases (other == ip)) [
      | inl same ↦
          let counted = allow-counted now ip rl c n off lim there b.0 in
          let after = allow-keeps now ip rl in
          let rest =
            let_through-counted ip l (allow now ip rl).1 (record c { count = suc c.count }) n
              (after.0 ∙ off) (after.1 ∙ lim) counted.1 b.1 in
          rw ((eq_iff other ip).0 same, eq_refl ip, counted.0, rest) (ground arith)
      | inr apart ↦ rw apart (
          let_through-counted ip l (allow now other rl).1 c n (kept.0 ∙ off) (kept.1 ∙ lim)
            (allow-other now ip other rl apart ∙ there) b.1)
    ]

-- With the limiter on and a positive limit, from the first request of an address in a fresh window
-- to the end of that window, exactly as many of its requests are let through as it makes, or the
-- limit if that is less, whatever requests of other addresses come between.
pub let_through_lem :
    (ip : String) (start : Time) (l : List (Time × String)) (rl : RateLimiter) (n : ℕ)
    → rl.disabled ≡ false
    → rl.limit ≡ pos (suc n)
    → is_fresh start (lookup ip rl.counters) ≡ true
    → AllBefore (add_duration start rl.window) l
    → let_through ip ((start, ip) ∷ l) rl ≡ min (suc n) (requests_of ip ((start, ip) ∷ l))
unfolding let_through
let_through_lem ip start l rl n off lim fresh b =
    let first = allow-fresh start ip rl off fresh in
    let after = allow-keeps start ip rl in
    let rest =
      let_through-counted ip l (allow start ip rl).1
        (record { count = 1; reset_at = add_duration start rl.window }) (suc n) (after.0 ∙ off)
        (after.1 ∙ lim) first.1 b in
    rw (eq_refl ip, first.0, rest) (omega arith)
