-- ===== src/Store/Mappings/Alias.antt =====
-- SetIdentityMapping as ResolveMapping sees it, and what it does where two mappings share a composite
-- key: "a:b" + ":" + "c" and "a" + ":" + "b:c".
use simple_auth.Prelude.{
  String, ◌≡◌, ◌≢◌, sym, ◌∙◌, true, if◌then◌else◌, ◌==◌, arith, eq_iff, inl, inr,
}
use simple_auth.Outcome.{ok}
use simple_auth.Bolt.{Bbolt}
use simple_auth.Store.Types.{IdentityMapping}
use simple_auth.Store.State.{BoltStore}
use simple_auth.Store.Mappings.{mapping_key, set_identity_mapping, resolve_mapping}
use simple_auth.Store.Mappings.Index.{holds, same_iff}
use simple_auth.Store.Mappings.Backed.{mapping, set_outcome}

module _ ⦃bolt : Bbolt⦄ (s : BoltStore) where
  -- ResolveMapping after a SetIdentityMapping that succeeded: the new owner at every pair with the same
  -- composite key, and the old answer everywhere else.
  pub resolve_mapping-set :
      (p x guid q y : String)
      → (set_identity_mapping p x guid s).0 ≡ ok tt
      → resolve_mapping q y (set_identity_mapping p x guid s).1 ≡ (
          if mapping_key (mapping p x) == mapping_key (mapping q y)
          then ok guid
          else resolve_mapping q y s)
  unfolding resolve_mapping
  resolve_mapping-set p x guid q y done = elim (set_outcome p x guid s) [
    | inr (unchanged, failed) ↦ absurd (failed done)
    | inl r ↦ rw (r.forward (mapping_key (mapping q y)), resolve_mapping) (ground arith)
  ]

  -- Where the index lists another mapping under the same composite key, a SetIdentityMapping that
  -- succeeds hands the key to the new owner, and the loser keeps the mapping in the index.
  pub set_identity_mapping-strands :
      (p x guid loser : String) (n : IdentityMapping)
      → (set_identity_mapping p x guid s).0 ≡ ok tt
      → holds s.idx_mappings_by_guid loser n ≡ true
      → mapping_key n ≡ mapping_key (mapping p x)
      → n ≢ mapping p x
      → (holds (set_identity_mapping p x guid s).1.idx_mappings_by_guid loser n ≡ true)
        × (resolve_mapping n.provider n.external_id (set_identity_mapping p x guid s).1 ≡ ok guid)
  set_identity_mapping-strands p x guid loser n done held shared differ =
      elim (set_outcome p x guid s) [
        | inr (unchanged, failed) ↦ absurd (failed done)
        | inl r ↦ (
          ground (
            arith,
            r.index loser n,
            same_iff (mapping p x) n,
            λ (e : mapping p x ≡ n). differ (sym e),
          ),
          resolve_mapping-set p x guid n.provider n.external_id done
              ∙ ground (arith, (eq_iff (mapping_key (mapping p x)) (mapping_key n)).1 (sym shared)),
        )
      ]
