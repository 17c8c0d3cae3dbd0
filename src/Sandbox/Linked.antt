-- ===== src/Sandbox/Linked.antt =====
-- The tables of the sandbox store go together: a mapped sandbox is stored once, and is assigned.
use diracx.Prelude.{
  ℕ, ◌+◌, ◌≤◌, String, Bool, true, false, not, ◌&&◌, ◌||◌, ◌≡◌, refl, sym, ap, subst, ◌∙◌, Option,
  List, [], ◌∷◌, ◌++◌, arith, nat_eq_iff, ltb, all, map, Bool-cases, inl, inr,
}
use diracx.Prelude.Table.{select, update, delete, exists, rowcount}
use diracx.Prelude.Table.Laws.{
  all-append, all-update, all-delete, exists-append, exists-update, exists_mono,
}
use diracx.Sandbox.Db.{Sandbox, SandboxType, EntityMapping, SandboxDb, is_at}
use diracx.Sandbox.Mapping.{among, has_pfn, set_assigned, mapping_to, release}
use diracx.Sandbox.Cleanup.{Server, is_unused, select_unused}
use diracx.Prelude.Table.Counts.{
  rowcount_zero, rowcount-append, rowcount-update, rowcount-delete-le, exists-delete-false,
  select-delete, exists-is-select,
}
use diracx.Sandbox.Rows.{
  has_id, maps_id, is_assigned_at, among-select, among-limited, unused-mapped, mark-assigned,
  exists-mapping_to, among_of_unmapped,
}

abbrev pub is_mapped_id : ℕ → SandboxDb → Bool
is_mapped_id i s = exists (maps_id i) s.mappings

-- What holds of an identifier: at most one sandbox has it, none if it is not yet given out, and if it is
-- mapped a sandbox has it and is assigned.
pub record IsLinkedAt (i : ℕ) (s : SandboxDb) : Type 0 where
  pub unique : rowcount (has_id i) s.sandboxes ≤ 1
  pub stored : (not (is_mapped_id i s) || exists (has_id i) s.sandboxes) ≡ true
  pub assigned : (not (is_mapped_id i s) || all (is_assigned_at i) s.sandboxes) ≡ true
  pub unused_id : (ltb i s.next_sb_id || not (exists (has_id i) s.sandboxes)) ≡ true

pub record IsLinked (s : SandboxDb) : Type 0 where
  pub at : (i : ℕ) → IsLinkedAt i s

module _ (i : ℕ) (s : SandboxDb) (b : IsLinkedAt i s) where
  -- an update of columns that are not the identifier, and that keeps assigned rows assigned
  pub update-IsLinkedAt :
      (p : Sandbox → Bool) (f : Sandbox → Sandbox)
      → ((r : Sandbox) → has_id i (f r) ≡ has_id i r)
      → ((r : Sandbox) → p r ≡ true → is_assigned_at i r ≡ true → is_assigned_at i (f r) ≡ true)
      → IsLinkedAt i (record s { sandboxes = update p f s.sandboxes })
  update-IsLinkedAt p f same keep = record {
    unique = rw (rowcount-update (has_id i) p f s.sandboxes same) b.unique;
    stored = rw (exists-update (has_id i) p f s.sandboxes same) b.stored;
    assigned = ground (arith, b.assigned, all-update (is_assigned_at i) p f s.sandboxes keep);
    unused_id = rw (exists-update (has_id i) p f s.sandboxes same) b.unused_id;
  }

  pub append-IsLinkedAt :
      (new : Sandbox)
      → new.sb_id ≡ s.next_sb_id
      → IsLinkedAt i
          (record s { sandboxes = s.sandboxes ++ new ∷ []; next_sb_id = s.next_sb_id + 1 })
  unfolding exists rowcount
  append-IsLinkedAt new next = record {
    unique = ground (
      arith,
      rowcount-append (has_id i) s.sandboxes (new ∷ []),
      rowcount_zero (has_id i) s.sandboxes,
      b.unique,
      b.unused_id,
    );
    stored = ground (arith, exists-append (has_id i) s.sandboxes (new ∷ []), b.stored);
    assigned = ground (
      arith,
      all-append (is_assigned_at i) s.sandboxes (new ∷ []),
      b.assigned,
      b.stored,
      b.unused_id,
    );
    unused_id = ground (arith, exists-append (has_id i) s.sandboxes (new ∷ []), b.unused_id);
  }

  -- the two statements of an assignment
  pub assign-IsLinkedAt :
      (entity_id pfn se_name : String) (sb_type : SandboxType)
      → IsLinkedAt i (record s {
        mappings =
            s.mappings
            ++ map (mapping_to entity_id sb_type) (select (is_at se_name pfn) s.sandboxes);
        sandboxes = update (has_pfn pfn) (set_assigned true) s.sandboxes;
      })
  assign-IsLinkedAt entity_id pfn se_name sb_type =
      let t = s.sandboxes in
      let new = map (mapping_to entity_id sb_type) (select (is_at se_name pfn) t) in
      let mapped =
        exists-append (maps_id i) s.mappings new
        ∙ ap (λ (x : Bool). exists (maps_id i) s.mappings || x)
            (exists-mapping_to i entity_id sb_type (is_at se_name pfn) t) in
      let here =
        exists_mono (λ b. has_id i b && is_at se_name pfn b) (has_id i) t (λ r p. ground arith) in
      record {
        unique =
            rw (rowcount-update (has_id i) (has_pfn pfn) (set_assigned true) t (λ r. refl))
              b.unique;
        stored = ground (
          arith,
          mapped,
          here,
          b.stored,
          exists-update (has_id i) (has_pfn pfn) (set_assigned true) t (λ r. refl),
        );
        assigned = ground (
          arith,
          mapped,
          b.assigned,
          mark-assigned i se_name pfn t b.unique,
          all-update (is_assigned_at i) (has_pfn pfn) (set_assigned true) t (λ r p q. ground arith),
        );
        unused_id =
            rw (exists-update (has_id i) (has_pfn pfn) (set_assigned true) t (λ r. refl))
              b.unused_id;
      }

  pub delete-mapping-IsLinkedAt :
      (p : EntityMapping → Bool) → IsLinkedAt i (record s { mappings = delete p s.mappings })
  delete-mapping-IsLinkedAt p = record {
    unique = b.unique;
    stored = ground (arith, b.stored, exists-delete-false (maps_id i) p s.mappings);
    assigned = ground (arith, b.assigned, exists-delete-false (maps_id i) p s.mappings);
    unused_id = b.unused_id;
  }

  -- the release of sandboxes that no mapping names
  all_set_false :
      (ids : List ℕ) (t : List Sandbox)
      → among ids i ≡ false
      → all (is_assigned_at i) t ≡ true
      → all (is_assigned_at i) (update (λ (b : Sandbox). among ids b.sb_id) (set_assigned false) t)
        ≡ true
  unfolding update
  all_set_false ids [] n h = refl
  all_set_false ids (x ∷ t) n h = elim (Bool-cases (has_id i x)) [
    | inl same ↦
        let miss : among ids x.sb_id ≡ false =
          subst (λ (j : ℕ). among ids j ≡ false) (sym ((nat_eq_iff x.sb_id i).0 same)) n in
        ground (arith, all_set_false ids t)
    | inr other ↦ ground (arith, all_set_false ids t)
  ]

  pub release-IsLinkedAt : (ids : List ℕ) → IsLinkedAt i (release ids s)
  unfolding release
  release-IsLinkedAt ids =
      elim (Bool-cases (exists (λ (m : EntityMapping). among ids m.sb_id) s.mappings)) [
        | inl mapped ↦ rw mapped b
        | inr free ↦ rw free (record {
          unique =
              rw
                (rowcount-update (has_id i) (λ (b : Sandbox). among ids b.sb_id)
                  (set_assigned false) s.sandboxes (λ r. refl))
                b.unique;
          stored =
              rw
                (exists-update (has_id i) (λ (b : Sandbox). among ids b.sb_id) (set_assigned false)
                  s.sandboxes (λ r. refl))
                b.stored;
          assigned = ground (
            arith,
            b.assigned,
            among_of_unmapped i ids s.mappings free,
            all_set_false ids s.sandboxes,
          );
          unused_id =
              rw
                (exists-update (has_id i) (λ (b : Sandbox). among ids b.sb_id) (set_assigned false)
                  s.sandboxes (λ r. refl))
                b.unused_id;
        })
      ]

  -- the cleanup does not reach a mapped identifier
  pub unused-misses :
      (server : Server) (limit : Option ℕ)
      → is_mapped_id i s ≡ true
      → among (select_unused server limit s) i ≡ false
  unfolding select_unused
  unused-misses server limit m =
      among-limited i limit (select (is_unused server s.mappings) s.sandboxes) (
        among-select i (is_unused server s.mappings) s.sandboxes
        ∙ unused-mapped i server s.mappings s.sandboxes m (ground (arith, b.assigned)))

  pub keeps_mapped :
      (ids : List ℕ)
      → among ids i ≡ false
      → select (has_id i) (delete (λ (b : Sandbox). among ids b.sb_id) s.sandboxes)
        ≡ select (has_id i) s.sandboxes
  keeps_mapped ids n =
      select-delete (has_id i) (λ (b : Sandbox). among ids b.sb_id) s.sandboxes
        (λ r same. subst (λ (j : ℕ). among ids j ≡ false) (sym ((nat_eq_iff r.sb_id i).0 same)) n)

  pub cleanup-IsLinkedAt :
      (server : Server) (limit : Option ℕ)
      → IsLinkedAt i (record s {
        sandboxes =
            delete (λ (b : Sandbox). among (select_unused server limit s) b.sb_id) s.sandboxes;
      })
  cleanup-IsLinkedAt server limit =
      let q = λ (b : Sandbox). among (select_unused server limit s) b.sb_id in
      record {
        unique = omega (arith, b.unique, rowcount-delete-le (has_id i) q s.sandboxes);
        stored = elim (Bool-cases (is_mapped_id i s)) [
          | inl mapped ↦ ground (
            arith,
            b.stored,
            exists-is-select (has_id i) _ _
                (keeps_mapped (select_unused server limit s) (unused-misses server limit mapped)),
          )
          | inr free ↦ ground arith
        ];
        assigned = ground (arith, b.assigned, all-delete (is_assigned_at i) q s.sandboxes);
        unused_id = ground (arith, b.unused_id, exists-delete-false (has_id i) q s.sandboxes);
      }
