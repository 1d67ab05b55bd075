-- ===== src/Store/Users/Resolve.antt =====
-- ResolveUser: its loop ends, and it finds exactly the end of the chain of merges.
use mathlib.Core.List.{List, [], ◌∷◌}
use simple_auth.Prelude.{
  ℕ, zero, suc, ◌+◌, ◌≤◌, ◌<◌, String, ◌≡◌, ◌≢◌, ◌↔◌, refl, sym, ap, subst, true, false, length,
  elem, keys, elem-keys_of_lookup, length-keys, IsDistinct, arith, if◌then◌else◌, ◌==◌, eq_iff,
  Bool-cases, Option-cases, inl, inr, ◌∙◌,
}
use simple_auth.Outcome.{Result-cases, >>=-eq-ok, ok-injective, ok, err, out_of_fuel}
use simple_auth.Bolt.{Bbolt}
use simple_auth.Store.Types.{User}
use simple_auth.Store.State.{BoltStore}
use simple_auth.Store.Users.{get_user, resolve_loop, resolve_user}

-- One text fewer.
erase : String → List String → List String
erase k [] = []
erase k (x ∷ xs) = if x == k then xs else x ∷ erase k xs

length-erase :
    (k : String) (ys : List String) → elem k ys ≡ true → length ys ≡ suc (length (erase k ys))
unfolding erase
length-erase k [] h = cc
length-erase k (y ∷ ys) h = ground (arith, length-erase k ys)

elem-erase :
    (k j : String) (ys : List String)
    → (j == k) ≡ false
    → elem j ys ≡ true
    → elem j (erase k ys) ≡ true
unfolding erase
elem-erase k j [] n h = h
elem-erase k j (y ∷ ys) n h =
    ground (arith, elem-erase k j ys n, eq_iff y k, eq_iff y j, eq_iff j k)

abbrev AllIn : List String → List String → Type 0
AllIn [] ys = Unit
AllIn (x ∷ xs) ys = (elem x ys ≡ true) × AllIn xs ys

AllIn-erase :
    (k : String) (xs ys : List String) → elem k xs ≡ false → AllIn xs ys → AllIn xs (erase k ys)
AllIn-erase k [] ys n h = tt
AllIn-erase k (x ∷ xs) ys n h =
    (elem-erase k x ys (ground arith) h.0, AllIn-erase k xs ys (ground arith) h.1)

-- Distinct texts of a list are no more than its length.
pigeonhole : (xs ys : List String) → IsDistinct xs → AllIn xs ys → length xs ≤ length ys
pigeonhole [] ys d h = omega arith
pigeonhole (x ∷ xs) ys d h =
    omega
      (arith, pigeonhole xs (erase x ys) d.1 (AllIn-erase x xs ys d.0 h.1), length-erase x ys h.0)

module _ ⦃bolt : Bbolt⦄ (s : BoltStore) where
  abbrev guids : List String
  guids = keys (bolt.entries s.users)

  known_of_get_user : (guid : String) (u : User) → get_user guid s ≡ ok u → elem guid guids ≡ true
  unfolding get_user
  known_of_get_user guid u h = elim (Option-cases (bolt.get s.users guid)) [
    | inl missing ↦ absurd (ground arith)
    | inr (d, found) ↦
        elem-keys_of_lookup guid (bolt.entries s.users) d (bolt.lookup-entries s.users guid ∙ found)
  ]

  get_user-ne-out_of_fuel : (guid : String) → get_user guid s ≢ err out_of_fuel
  unfolding get_user
  get_user-ne-out_of_fuel guid h = ground arith

  resolve_loop-ends :
      (fuel : ℕ) (guid : String) (seen : List String) (u : User)
      → IsDistinct seen
      → AllIn seen guids
      → length guids < fuel + length seen
      → resolve_loop fuel guid seen s u ≢ err out_of_fuel
  unfolding resolve_loop
  resolve_loop-ends zero guid seen u d known enough h =
      absurd (omega (arith, pigeonhole seen guids d known))
  resolve_loop-ends (suc fuel) guid seen u d known enough h =
      elim (Result-cases (get_user u.merged_into s)) [
        | inl (v, found) ↦ ground (
          arith,
          known_of_get_user u.merged_into v found,
          resolve_loop-ends fuel guid (u.merged_into ∷ seen) v,
        )
        | inr (e, failed) ↦ ground (arith, get_user-ne-out_of_fuel u.merged_into)
      ]

  -- Whatever the merges, cycles included, ResolveUser returns a user or one of its own errors.
  pub resolve_user-ends : (guid : String) → resolve_user guid s ≢ err out_of_fuel
  unfolding resolve_user
  resolve_user-ends guid h = elim (Result-cases (get_user guid s)) [
    | inl (u, found) ↦
        let known : elem guid guids ≡ true = known_of_get_user guid u found in
        let count : length guids ≡ length (bolt.entries s.users) =
          length-keys (bolt.entries s.users) in
        resolve_loop-ends (length (bolt.entries s.users)) guid (guid ∷ []) u (refl, tt) (known, tt)
          (omega arith) (rw found at h)
    | inr (e, failed) ↦ ground (arith, get_user-ne-out_of_fuel guid)
  ]

-- `Chain s n u w`: following `merged_into` from the record `u` for `n` steps ends at `w`.
pub data Chain ⦃bolt : Bbolt⦄ (s : BoltStore) : ℕ → User → User → Type 0 where
  last : {u : User} → u.merged_into ≡ "" → Chain s 0 u u
  step :
      {n : ℕ} {u v w : User}
      → u.merged_into ≢ ""
      → get_user u.merged_into s ≡ ok v
      → Chain s n v w
      → Chain s (suc n) u w

module _ ⦃bolt : Bbolt⦄ (s : BoltStore) where
  Chain-length : {n m : ℕ} {u w w' : User} → Chain s n u w → Chain s m u w' → n ≡ m
  Chain-length (last a) (last b) = refl
  Chain-length (last a) (step h g c) = absurd (h a)
  Chain-length (step h g c) (last b) = absurd (h b)
  Chain-length (step h g c) (step {n = m} {v = v} {w = w} h' g' c') =
      ap suc (Chain-length c (subst (λ x. Chain s m x w) (ok-injective (sym g' ∙ g)) c'))

  -- Each listed GUID is at least `n` steps before the end `w`.
  abbrev Before : ℕ → User → List String → Type 0
  Before n w [] = Unit
  Before n w (x ∷ xs) =
      ((v : User) × (k : ℕ) × (get_user x s ≡ ok v) × Chain s k v w × (n ≤ k)) × Before n w xs

  Before-weaken : (n : ℕ) (w : User) (xs : List String) → Before (suc n) w xs → Before n w xs
  Before-weaken n w [] b = tt
  Before-weaken n w (x ∷ xs) ((v, k, g, c, le), b) =
      ((v, k, g, c, omega arith), Before-weaken n w xs b)

  not-seen :
      (n : ℕ) (w v : User) (guid : String) (xs : List String)
      → Before (suc n) w xs
      → get_user guid s ≡ ok v
      → Chain s n v w
      → elem guid xs ≡ false
  not-seen n w v guid [] b g c = refl
  not-seen n w v guid (x ∷ xs) ((v', k, g', c', le), b) g c = elim (Bool-cases (x == guid)) [
    | inl same ↦
        let e : x ≡ guid = (eq_iff x guid).0 same in
        let e' : v' ≡ v = ok-injective (sym g' ∙ ap (λ y. get_user y s) e ∙ g) in
        absurd (omega (arith, Chain-length c (subst (λ y. Chain s k y w) e' c')))
    | inr other ↦ rw other (not-seen n w v guid xs b g c)
  ]

  -- One round of the loop, where it goes on.
  resolve_loop-next :
      (fuel : ℕ) (guid : String) (seen : List String) (u v : User)
      → u.merged_into ≢ ""
      → elem u.merged_into seen ≡ false
      → get_user u.merged_into s ≡ ok v
      → resolve_loop (suc fuel) guid seen s u ≡ resolve_loop fuel guid (u.merged_into ∷ seen) s v
  unfolding resolve_loop
  resolve_loop-next fuel guid seen u v ne fresh g = ground (arith, eq_iff u.merged_into "")

  resolve_loop_complete :
      (fuel : ℕ) (guid : String) (seen : List String) (n : ℕ) (u w : User)
      → Chain s n u w
      → Before n w seen
      → resolve_loop fuel guid seen s u ≢ err out_of_fuel
      → resolve_loop fuel guid seen s u ≡ ok w
  unfolding resolve_loop
  resolve_loop_complete zero guid seen n u w c b h = absurd (h refl)
  resolve_loop_complete (suc fuel) guid seen zero u w (last e) b h =
      ground (arith, eq_iff u.merged_into "")
  resolve_loop_complete (suc fuel) guid seen (suc n) u w (step {v = v} ne g c) b h =
      let next =
        resolve_loop-next fuel guid seen u v ne (not-seen n w v u.merged_into seen b g c) g in
      next
      ∙ resolve_loop_complete fuel guid (u.merged_into ∷ seen) n v w c
          ((v, n, g, c, omega arith), Before-weaken n w seen b) (λ e. h (next ∙ e))

  resolve_loop_sound :
      (fuel : ℕ) (guid : String) (seen : List String) (u w : User)
      → resolve_loop fuel guid seen s u ≡ ok w
      → (n : ℕ) × Chain s n u w
  unfolding resolve_loop
  resolve_loop_sound zero guid seen u w h = cc
  resolve_loop_sound (suc fuel) guid seen u w h = elim (Bool-cases (u.merged_into == "")) [
    | inl done ↦
        let e : u ≡ w = ok-injective (rw done at h) in
        (0, subst (λ x. Chain s 0 u x) e (last ((eq_iff u.merged_into "").0 done)))
    | inr more ↦ elim (Result-cases (get_user u.merged_into s)) [
      | inl (v, g) ↦
          let h' : resolve_loop fuel guid (u.merged_into ∷ seen) s v ≡ ok w = ground arith in
          let (n, c) = resolve_loop_sound fuel guid (u.merged_into ∷ seen) v w h' in
          (suc n, step (λ e. ground (arith, eq_iff u.merged_into "")) g c)
      | inr (e, failed) ↦ absurd (ground arith)
    ]
  ]

  -- ResolveUser returns exactly the user at the end of the chain of merges that starts at the GUID.
  pub resolve_user_iff :
      (guid : String) (w : User)
      → (resolve_user guid s ≡ ok w)
        ↔ ((u : User) × (n : ℕ) × (get_user guid s ≡ ok u) × Chain s n u w)
  unfolding resolve_user
  resolve_user_iff guid w = (
    λ h.
        let (u, g, rest) = >>=-eq-ok (get_user guid s) _ h in
        let (n, c) = resolve_loop_sound (length (bolt.entries s.users)) guid (guid ∷ []) u w rest in
        (u, n, g, c),
    λ (u, n, g, c).
        let start : resolve_user guid s
            ≡ resolve_loop (length (bolt.entries s.users)) guid (guid ∷ []) s u =
          rw g in
        start
        ∙ resolve_loop_complete (length (bolt.entries s.users)) guid (guid ∷ []) n u w c
            ((u, n, g, c, omega arith), tt) (λ e. resolve_user-ends s guid (start ∙ e)),
  )
