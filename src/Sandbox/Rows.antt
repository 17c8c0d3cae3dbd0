-- ===== src/Sandbox/Rows.antt =====
-- The statements of the sandbox tables, seen through the rows of one identifier.
use diracx.Prelude.{
  ℕ, zero, suc, ◌≤◌, String, Bool, true, false, not, ◌&&◌, ◌||◌, ◌≡◌, refl, sym, subst, Option,
  none, some, List, [], ◌∷◌, arith, nat_eq, nat_eq_iff, all, take, map, Bool-cases, inl, inr,
}
use diracx.Prelude.Table.{select, update, exists, rowcount}
use diracx.Sandbox.Db.{Sandbox, SandboxType, EntityMapping, is_at}
use diracx.Sandbox.Mapping.{among, has_pfn, set_assigned, mapping_to}
use diracx.Sandbox.Cleanup.{Server, is_unused, is_mapped, limited}
use diracx.Prelude.Table.Counts.{exists_of_rowcount_zero}

abbrev pub has_id : ℕ → Sandbox → Bool
has_id i b = nat_eq b.sb_id i

abbrev pub maps_id : ℕ → EntityMapping → Bool
maps_id i m = nat_eq m.sb_id i

abbrev pub is_assigned_at : ℕ → Sandbox → Bool
is_assigned_at i b = not (has_id i b) || b.assigned

module _ (i : ℕ) where
  -- the identifiers that a condition selects
  pub among-select :
      (p : Sandbox → Bool) (t : List Sandbox)
      → among (map (λ (b : Sandbox). b.sb_id) (select p t)) i ≡ exists (λ b. has_id i b && p b) t
  unfolding select exists
  among-select p [] = refl
  among-select p (b ∷ t) = ground (arith, among-select p t)

  among-take :
      (n : ℕ) (t : List Sandbox)
      → among (map (λ (b : Sandbox). b.sb_id) t) i ≡ false
      → among (map (λ (b : Sandbox). b.sb_id) (take n t)) i ≡ false
  among-take zero t h = refl
  among-take (suc n) [] h = refl
  among-take (suc n) (b ∷ t) h = ground (arith, among-take n t)

  pub among-limited :
      (limit : Option ℕ) (t : List Sandbox)
      → among (map (λ (b : Sandbox). b.sb_id) t) i ≡ false
      → among (map (λ (b : Sandbox). b.sb_id) (limited limit t)) i ≡ false
  among-limited none t h = h
  among-limited (some n) t h = ground (arith, among-take n t)

  -- a mapped sandbox is not unused
  pub unused-mapped :
      (server : Server) (ms : List EntityMapping) (t : List Sandbox)
      → exists (maps_id i) ms ≡ true
      → all (is_assigned_at i) t ≡ true
      → exists (λ b. has_id i b && is_unused server ms b) t ≡ false
  unfolding exists
  unused-mapped server ms [] m h = refl
  unused-mapped server ms (b ∷ t) m h = elim (Bool-cases (has_id i b)) [
    | inl same ↦
        let mapped : is_mapped ms b ≡ true =
          subst (λ (j : ℕ). exists (maps_id j) ms ≡ true) (sym ((nat_eq_iff b.sb_id i).0 same)) m in
        ground (arith, unused-mapped server ms t)
    | inr other ↦ ground (arith, unused-mapped server ms t)
  ]

  -- after the marking of a path, the only row of an identifier at the path is assigned
  pub mark-assigned :
      (se_name pfn : String) (t : List Sandbox)
      → rowcount (has_id i) t ≤ 1
      → exists (λ b. has_id i b && is_at se_name pfn b) t ≡ true
      → all (is_assigned_at i) (update (has_pfn pfn) (set_assigned true) t) ≡ true
  unfolding exists update rowcount
  mark-assigned se_name pfn [] u h = cc
  mark-assigned se_name pfn (b ∷ t) u h = elim (Bool-cases (has_id i b)) [
    | inl same ↦
        let none_left : exists (has_id i) t ≡ false =
          exists_of_rowcount_zero (has_id i) t (ground arith) in
        ground (arith, others t none_left, nowhere t none_left)
    | inr other ↦ ground (arith, mark-assigned se_name pfn t)
  ]
    where
      others :
          (t : List Sandbox)
          → exists (has_id i) t ≡ false
          → all (is_assigned_at i) (update (has_pfn pfn) (set_assigned true) t) ≡ true
      others [] h = refl
      others (x ∷ t) h = ground (arith, others t)

      nowhere :
          (t : List Sandbox)
          → exists (has_id i) t ≡ false
          → exists (λ b. has_id i b && is_at se_name pfn b) t ≡ false
      nowhere [] h = refl
      nowhere (x ∷ t) h = ground (arith, nowhere t)

  -- the mappings that an assignment adds
  pub exists-mapping_to :
      (entity_id : String) (sb_type : SandboxType) (p : Sandbox → Bool) (t : List Sandbox)
      → exists (maps_id i) (map (mapping_to entity_id sb_type) (select p t))
        ≡ exists (λ b. has_id i b && p b) t
  unfolding exists select
  exists-mapping_to entity_id sb_type p [] = refl
  exists-mapping_to entity_id sb_type p (b ∷ t) =
      ground (arith, exists-mapping_to entity_id sb_type p t)

  pub among_of_unmapped :
      (ids : List ℕ) (ms : List EntityMapping)
      → exists (λ (m : EntityMapping). among ids m.sb_id) ms ≡ false
      → exists (maps_id i) ms ≡ true
      → among ids i ≡ false
  unfolding exists
  among_of_unmapped ids [] h m = cc
  among_of_unmapped ids (x ∷ ms) h m = elim (Bool-cases (nat_eq x.sb_id i)) [
    | inl same ↦
        subst (λ (j : ℕ). among ids j ≡ false) ((nat_eq_iff x.sb_id i).0 same) (ground arith)
    | inr other ↦ ground (arith, among_of_unmapped ids ms)
  ]
