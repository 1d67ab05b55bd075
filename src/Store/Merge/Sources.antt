-- ===== src/Store/Merge/Sources.antt =====
-- MergeUsers succeeds when its sources exist, and then every source resolves to the new user.
use simple_auth.Prelude.{
  String, ◌≡◌, ◌≢◌, refl, sym, ◌∙◌, ap, true, false, some, List, [], ◌∷◌, elem, if◌then◌else◌, ◌==◌,
  arith, eq_refl, Bool-cases, Option-cases, inl, inr,
}
use simple_auth.Outcome.{ok}
use simple_auth.Bolt.{Bbolt, Bytes, json, is_some}
use simple_auth.Bolt.Laws.{put_raw-accepted, accepted_of_stored}
use simple_auth.Store.Types.{Time, User}
use simple_auth.Store.State.{BoltStore}
use simple_auth.Store.Users.{get_user, resolve_user}
use simple_auth.Store.Users.Resolve.{last, step, resolve_user_iff}
use simple_auth.Store.Merge.{
  merged_user, user_of, Gathered, move_source, move_sources, merge_users, write_names,
}

module _ ⦃bolt : Bbolt⦄ (fresh : String) where
  -- Every listed user has a record.
  abbrev pub AllStored : List String → bolt.Bucket (Bytes User) → Type 0
  AllStored [] b = Unit
  AllStored (k ∷ l) b = (is_some (bolt.get b k) ≡ true) × AllStored l b

  users-move_source :
      (src k : String) (doc : Bytes User) (g : Gathered)
      → bolt.get g.store.users src ≡ some doc
      → bolt.get (move_source fresh src doc g).store.users k ≡ (
          if src == k
          then some (json (record (user_of doc) { merged_into = fresh }))
          else bolt.get g.store.users k)
  unfolding move_source
  users-move_source src k doc g found =
      let u : User = record (user_of doc) { merged_into = fresh } in
      let fits = accepted_of_stored g.store.users src found in
      rw (put_raw-accepted g.store.users src (json u) fits)
        (bolt.get-write g.store.users src k (json u) fits)

  AllStored-move_source :
      (src : String) (doc : Bytes User) (g : Gathered) (l : List String)
      → bolt.get g.store.users src ≡ some doc
      → AllStored l g.store.users
      → AllStored l (move_source fresh src doc g).store.users
  AllStored-move_source src doc g [] found h = tt
  AllStored-move_source src doc g (k ∷ l) found h =
      ground
        (arith, users-move_source src k doc g found, AllStored-move_source src doc g l found h.1)

  -- What the loop over the sources leaves in the bucket of users.
  record Moved (l : List String) (g g' : Gathered) : Type 0 where
    others : (k : String) → elem k l ≡ false → bolt.get g'.store.users k ≡ bolt.get g.store.users k
    sources :
        (k : String)
        → elem k l ≡ true
        → (u : User) × (bolt.get g'.store.users k ≡ some (json u)) × (u.merged_into ≡ fresh)

  move_sources-cons :
      (src : String) (l : List String) (g : Gathered) (doc : Bytes User)
      → bolt.get g.store.users src ≡ some doc
      → move_sources fresh (src ∷ l) g ≡ move_sources fresh l (move_source fresh src doc g)
  unfolding move_sources
  move_sources-cons src l g doc found = rw (found, move_sources)

  Moved-cons :
      (src : String) (l : List String) (g g' : Gathered) (doc : Bytes User)
      → bolt.get g.store.users src ≡ some doc
      → Moved l (move_source fresh src doc g) g'
      → Moved (src ∷ l) g g'
  Moved-cons src l g g' doc found m = record {
    others = λ k e. ground (arith, m.others k, users-move_source src k doc g found);
    sources = λ k e. elim (Bool-cases (elem k l)) [
      | inl later ↦ m.sources k later
      | inr now ↦ (
        record (user_of doc) { merged_into = fresh },
        ground (arith, m.others k now, users-move_source src k doc g found),
        refl,
      )
    ];
  }

  move_sources_lem :
      (l : List String) (g : Gathered)
      → AllStored l g.store.users
      → (g' : Gathered) × (move_sources fresh l g ≡ ok g') × Moved l g g'
  unfolding move_sources
  move_sources_lem [] g h =
      (g, refl, record { others = λ k _. refl; sources = λ k e. absurd (ground arith) })
  move_sources_lem (src ∷ l) g h = elim (Option-cases (bolt.get g.store.users src)) [
    | inl missing ↦ absurd (ground arith)
    | inr (doc, found) ↦
        let (g', done, m) =
          move_sources_lem l (move_source fresh src doc g)
            (AllStored-move_source src doc g l found h.1) in
        (g', move_sources-cons src l g doc found ∙ done, Moved-cons src l g g' doc found m)
  ]

  AllStored-write :
      (l : List String) (b : bolt.Bucket (Bytes User)) (u : User)
      → bolt.refuses fresh ≡ false
      → AllStored l b
      → AllStored l (bolt.write b fresh (json u))
  AllStored-write [] b u fits h = tt
  AllStored-write (k ∷ l) b u fits h =
      ground (arith, bolt.get-write b fresh k (json u) fits, AllStored-write l b u fits h.1)

module _ ⦃bolt : Bbolt⦄ where
  not_blank : (k : String) → bolt.refuses k ≡ false → k ≢ ""
  not_blank k fits e = ground (arith, sym (ap bolt.refuses e) ∙ fits, bolt.refuses_blank)

  resolve_user-one_step :
      (t : BoltStore) (k target : String) (v u : User)
      → bolt.get t.users k ≡ some (json v)
      → v.merged_into ≡ target
      → target ≢ ""
      → bolt.get t.users target ≡ some (json u)
      → u.merged_into ≡ ""
      → resolve_user k t ≡ ok u
  unfolding get_user
  resolve_user-one_step t k target v u found points some_target there ends =
      (resolve_user_iff t k u).1
        (v, 1, rw found, step (λ e. some_target (sym points ∙ e)) (rw (points, there)) (last ends))

  -- MergeUsers on users that all exist, with a new GUID that bbolt takes and that is not among the
  -- sources, succeeds with the new user, and a source then resolves to it.
  pub resolve_user-merge_users :
      (fresh : String) (now : Time) (sources : List String) (display_name email src : String)
      (s : BoltStore)
      → bolt.refuses fresh ≡ false
      → elem fresh sources ≡ false
      → AllStored fresh sources s.users
      → elem src sources ≡ true
      → ((merge_users fresh now sources display_name email s).0
          ≡ ok (merged_user fresh now display_name email))
        × (resolve_user src (merge_users fresh now sources display_name email s).1
            ≡ ok (merged_user fresh now display_name email))
  unfolding merge_users get_user
  resolve_user-merge_users fresh now sources display_name email src s fits new stored is_source =
      let u = merged_user fresh now display_name email in
      let users = bolt.write s.users fresh (json u) in
      let written = put_raw-accepted s.users fresh (json u) fits in
      let (g, done, m) =
        move_sources_lem fresh sources
          (record { store = record s { users = users }; roles = []; perms = [] })
          (AllStored-write fresh sources s.users u fits stored) in
      let start : bolt.get g.store.users fresh ≡ some (json u) =
        m.others fresh new
        ∙ bolt.get-write s.users fresh fresh (json u) fits
        ∙ ground (arith, eq_refl fresh) in
      (
        rw (written, done),
        rw (written, done)
            (let (v, found, points) = m.sources src is_source in
              resolve_user-one_step
                (record g.store {
                  user_roles = write_names fresh g.roles g.store.user_roles;
                  user_permissions = write_names fresh g.perms g.store.user_permissions;
                })
                src fresh v u found points (not_blank fresh fits) start refl),
      )
