-- ===== src/Store/Users.antt =====
-- internal/store/bolt.go, "Users": the user records, and the chains of merged users.
pub mod Resolve
use simple_auth.Prelude.{
  ℕ, zero, suc, String, Bool, Option, none, some, List, [], ◌∷◌, length, elem, eqb, if◌then◌else◌,
  ◌==◌,
}
use simple_auth.Outcome.{
  Error, Result, ok, err, user_not_found, merge_cycle, not_merged, out_of_fuel, ◌>>=◌,
}
use simple_auth.Bolt.{Bbolt, Bytes, decode, read, put_raw, put, is_some}
use simple_auth.Store.Types.{Time, User}
use simple_auth.Store.State.{BoltStore, Method, update}

-- A ForEach that decodes every value and stops at the first that does not decode.
unfoldable pub decode_all : {V : Type 0} → List (String × Bytes V) → Result (List V)
decode_all [] = ok []
decode_all ((k, d) ∷ l) = do v ← decode d; vs ← decode_all l; ok (v ∷ vs)

-- The defaults that CreateUser fills in: a new GUID and the current time.
abbrev pub with_defaults : String → Time → User → User
with_defaults fresh now u = record u {
  guid = if u.guid == "" then fresh else u.guid;
  created_at = if eqb u.created_at 0 then now else u.created_at;
}

module _ ⦃bolt : Bbolt⦄ where
  -- `fresh` is `uuid.New()`. The record that the caller's pointer then holds is the result.
  unfoldable pub create_user : String → Time → User → Method User
  unfolding put_raw
  create_user fresh now u = update λ s. do
    users ← put s.users (with_defaults fresh now u).guid (with_defaults fresh now u)
    ok (with_defaults fresh now u, record s { users = users })

  unfoldable pub get_user : String → BoltStore → Result User
  unfolding read
  get_user guid s = read (user_not_found guid) s.users guid

  -- The loop of ResolveUser: `u` is the current user, `seen` the GUIDs met.
  unfoldable pub resolve_loop : ℕ → String → List String → BoltStore → User → Result User
  unfolding get_user
  resolve_loop zero guid seen s u = err out_of_fuel
  resolve_loop (suc fuel) guid seen s u =
      let rest = get_user u.merged_into s >>= resolve_loop fuel guid (u.merged_into ∷ seen) s in
      if u.merged_into == ""
      then ok u
      else if elem u.merged_into seen
      then err (merge_cycle guid)
      else rest

  -- One round for each user is enough (`resolve_user-ends`).
  unfoldable pub resolve_user : String → BoltStore → Result User
  unfolding resolve_loop
  resolve_user guid s =
      get_user guid s >>= resolve_loop (length (bolt.entries s.users)) guid (guid ∷ []) s

  unfoldable pub update_user : User → Method (Unit {0})
  unfolding put_raw
  update_user u = update λ s.
      if is_some (bolt.get s.users u.guid)
      then (do users ← put s.users u.guid u; ok (tt, record s { users = users }))
      else err (user_not_found u.guid)

  unfoldable pub delete_user : String → Method (Unit {0})
  delete_user guid = update λ s. ok (tt, record s { users = bolt.delete s.users guid })

  unfoldable pub list_users : BoltStore → Result (List User)
  unfolding decode_all
  list_users s = decode_all (bolt.entries s.users)

  unfoldable pub unmerge_user : String → Method (Unit {0})
  unfolding read put_raw
  unmerge_user guid = update λ s. do
    u ← read (user_not_found guid) s.users guid
    if u.merged_into == "" then err (not_merged guid) else do
      users ← put s.users guid (record u { merged_into = "" })
      ok (tt, record s { users = users })
