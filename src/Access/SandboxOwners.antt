-- ===== src/Access/SandboxOwners.antt =====
-- What `SandboxAccessPolicy` grants to a normal user: the user's own sandboxes
-- (diracx-routers/src/diracx/routers/jobs/access_policies.py).
use diracx.Prelude.{
  ℕ, String, Bool, true, false, ◌≡◌, refl, sym, ap, subst, ◌∙◌, Option, none, some, List, [], ◌∷◌,
  arith, nat_eq, nat_eq_iff, mem, is_in, is_empty, map, ◌++◌, ◌&&◌, ◌==◌, ◌⊎◌, inl, inr, Bool-cases,
  All, some_inj, if◌then◌else◌,
}
use diracx.Prelude.Outcome.{
  http_forbidden, returns, returns_value, pure, raise, one_or_none, state_of, ◌>>=◌, >>=-eq-returns,
  ensure-eq-returns, get_or_raise-eq-returns,
}
use diracx.Prelude.Table.{select, exists, join_on}
use diracx.Sandbox.Db.{
  Owner, Sandbox, SandboxDb, UserInfo, is_owner, is_at, get_owner_id, get_sandbox_owner_id,
}
use diracx.Access.Jobs.{
  ActionType, create, read, manage, query, pilot, AuthorizedUserInfo, job_administrator,
}
use mathlib.Core.Path.{subst₂}
use text.Mathlib.Text.{starts_with}
use diracx.Access.Sandboxes.{
  user_of, is_create, is_owner_of, check_pfn, check_pfns, check_sandboxes, check_sandbox_action,
  sandbox_policy,
}

module _ (user : AuthorizedUserInfo) where
  -- The path is below the prefix; the table of owners has a row with the name, the group and the VO of the user,
  -- and the table of sandboxes a row at the path and the storage element with the number of that owner.
  pub record Owns (s : SandboxDb) (required_prefix se_name pfn : String) : Type 0 where
    pub owner_id : ℕ
    pub below : starts_with pfn required_prefix ≡ true
    pub user_has :
        exists
          (λ (o : Owner).
            nat_eq o.owner_id owner_id
            && (o.owner == user.preferred_username
                && o.owner_group == user.dirac_group
                && o.vo == user.vo))
          s.owners
        ≡ true
    pub sandbox_has :
        exists
          (λ (b : Sandbox). nat_eq b.owner_id owner_id && (b.se_name == se_name && b.pfn == pfn))
          s.sandboxes
        ≡ true

  -- the only number of a query
  only_one :
      (l : List ℕ) (s : SandboxDb) {n : ℕ} {s' : SandboxDb}
      → one_or_none l s ≡ returns (some n) s'
      → is_in l n ≡ true
  unfolding ◌>>=◌
  only_one [] s h = cc
  only_one (m ∷ []) s {n} h =
      let same : m ≡ n = some_inj m n (returns_value h) in
      subst (λ k. is_in (m ∷ []) k ≡ true) same (ground (arith, nat_eq_iff m m))
  only_one (_ ∷ _ ∷ _) s h = cc

  selected :
      (p : Owner → Bool) (t : List Owner) (n : ℕ)
      → is_in (map (λ (o : Owner). o.owner_id) (select p t)) n
        ≡ exists (λ o. nat_eq o.owner_id n && p o) t
  unfolding select exists
  selected p [] n = refl
  selected p (o ∷ t) n = ground (arith, selected p t n)

  get_owner_id-row :
      (u : UserInfo) (s : SandboxDb) {n : ℕ} {s' : SandboxDb}
      → get_owner_id u s ≡ returns (some n) s'
      → exists (λ (o : Owner). nat_eq o.owner_id n && is_owner u o) s.owners ≡ true
  unfolding get_owner_id
  get_owner_id-row u s {n} h = sym (selected (is_owner u) s.owners n) ∙ only_one _ s h

  paired :
      (o : Owner) (l : List Sandbox) (rest : List (Owner × Sandbox)) (n : ℕ)
      → is_in (map (λ (r : Owner × Sandbox). r.0.owner_id) (map (λ b. (o, b)) l ++ rest)) n ≡ true
      → ((nat_eq o.owner_id n ≡ true) × (is_empty l ≡ false))
        ⊎ (is_in (map (λ (r : Owner × Sandbox). r.0.owner_id) rest) n ≡ true)
  paired o [] rest n h = inr h
  paired o (b ∷ l) rest n h = elim (Bool-cases (nat_eq o.owner_id n)) [
    | inl same ↦ inl (same, refl)
    | inr other ↦ elim (paired o l rest n (ground arith)) [
      | inl e ↦ inl (e.0, refl)
      | inr e ↦ inr e
    ]
  ]

  sandbox_of :
      (at : Sandbox → Bool) (o : Owner) (t : List Sandbox) (n : ℕ)
      → nat_eq o.owner_id n ≡ true
      → is_empty (select (λ (b : Sandbox). nat_eq o.owner_id b.owner_id && at b) t) ≡ false
      → exists (λ (b : Sandbox). nat_eq b.owner_id n && at b) t ≡ true
  unfolding select exists
  sandbox_of at o [] n same h = cc
  sandbox_of at o (b ∷ t) n same h = ground (
    arith,
    nat_eq_iff o.owner_id n,
    nat_eq_iff o.owner_id b.owner_id,
    nat_eq_iff b.owner_id n,
    sandbox_of at o t n,
  )

  -- a row of the join has a sandbox with the number of its owner
  joined :
      (at : Sandbox → Bool) (owners : List Owner) (sandboxes : List Sandbox) (n : ℕ)
      → is_in
          (map
            (λ (r : Owner × Sandbox). r.0.owner_id)
            (join_on
              (λ (o : Owner) (b : Sandbox). nat_eq o.owner_id b.owner_id && at b)
              owners
              sandboxes))
          n
        ≡ true
      → exists (λ (b : Sandbox). nat_eq b.owner_id n && at b) sandboxes ≡ true
  unfolding join_on
  joined at [] sandboxes n h = cc
  joined at (o ∷ owners) sandboxes n h =
      elim (paired o (select (λ (b : Sandbox). nat_eq o.owner_id b.owner_id && at b) sandboxes) _ n
        h) [ inl e ↦ sandbox_of at o sandboxes n e.0 e.1 | inr e ↦ joined at owners sandboxes n e ]

  get_sandbox_owner_id-row :
      (pfn se_name : String) (s : SandboxDb) {n : ℕ} {s' : SandboxDb}
      → get_sandbox_owner_id pfn se_name s ≡ returns (some n) s'
      → exists (λ (b : Sandbox). nat_eq b.owner_id n && is_at se_name pfn b) s.sandboxes ≡ true
  unfolding get_sandbox_owner_id
  get_sandbox_owner_id-row pfn se_name s {n} h =
      joined (is_at se_name pfn) s.owners s.sandboxes n (only_one _ s h)

  state_of-one_or_none : (l : List ℕ) (s : SandboxDb) → state_of (one_or_none l s) ≡ s
  unfolding ◌>>=◌
  state_of-one_or_none [] s = refl
  state_of-one_or_none (_ ∷ []) s = refl
  state_of-one_or_none (_ ∷ _ ∷ _) s = refl

  get_owner_id-state :
      (u : UserInfo) (s : SandboxDb) {o : Option ℕ} {s' : SandboxDb}
      → get_owner_id u s ≡ returns o s'
      → s ≡ s'
  unfolding get_owner_id
  get_owner_id-state u s h = sym (state_of-one_or_none _ s) ∙ ap state_of h

  get_sandbox_owner_id-state :
      (pfn se_name : String) (s : SandboxDb) {o : Option ℕ} {s' : SandboxDb}
      → get_sandbox_owner_id pfn se_name s ≡ returns o s'
      → s ≡ s'
  unfolding get_sandbox_owner_id
  get_sandbox_owner_id-state pfn se_name s h = sym (state_of-one_or_none _ s) ∙ ap state_of h

  is_owner_of-same :
      (o p : Option ℕ) → is_owner_of o p ≡ true → (n : ℕ) × (o ≡ some n) × (p ≡ some n)
  is_owner_of-same none p h = cc
  is_owner_of-same (some o) none h = cc
  is_owner_of-same (some o) (some p) h =
      (o, refl, ap some (sym ((nat_eq_iff o p).0 (ground arith))))

  Owns-of_steps :
      (prefix se_name pfn : String) (s s1 s2 s3 s' : SandboxDb) (o p : Option ℕ)
      → s ≡ s1
      → starts_with pfn prefix ≡ true
      → get_owner_id (user_of user) s1 ≡ returns o s2
      → get_sandbox_owner_id pfn se_name s2 ≡ returns p s3
      → is_owner_of o p ≡ true
      → s3 ≡ s'
      → Owns s prefix se_name pfn × (s ≡ s')
  Owns-of_steps prefix se_name pfn s s1 s2 s3 s' o p p1 below e2 e3 owned p4 =
      let (n, o_is, p_is) = is_owner_of-same o p owned in
      let p2 = get_owner_id-state (user_of user) s1 e2 in
      let p3 = get_sandbox_owner_id-state pfn se_name s2 e3 in
      let user_has : get_owner_id (user_of user) s ≡ returns (some n) s2 = cc in
      let sandbox_has : get_sandbox_owner_id pfn se_name s ≡ returns (some n) s3 = cc in
      (
        record {
          owner_id = n;
          below = below;
          user_has = get_owner_id-row (user_of user) s user_has;
          sandbox_has = get_sandbox_owner_id-row pfn se_name s sandbox_has;
        },
        p1 ∙ p2 ∙ p3 ∙ p4,
      )

  check_pfn-Owns :
      (prefix se_name pfn : String) (s : SandboxDb) {u : Unit {0}} {s' : SandboxDb}
      → check_pfn user prefix se_name pfn s ≡ returns u s'
      → Owns s prefix se_name pfn × (s ≡ s')
  unfolding check_pfn
  check_pfn-Owns prefix se_name pfn s h =
      let (_, s1, e1, k1) = >>=-eq-returns _ _ s h in
      let (o, s2, e2, k2) = >>=-eq-returns _ _ s1 k1 in
      let (p, s3, e3, k3) = >>=-eq-returns _ _ s2 k2 in
      let (below, p1) = ensure-eq-returns _ _ s e1 in
      let (owned, p4) = ensure-eq-returns _ _ s3 k3 in
      Owns-of_steps prefix se_name pfn s s1 s2 s3 _ o p p1 below e2 e3 owned p4

  check_pfns-Owns :
      (prefix se_name : String) (pfns : List String) (s : SandboxDb) {u : Unit {0}} {s' : SandboxDb}
      → check_pfns user prefix se_name pfns s ≡ returns u s'
      → All (Owns s prefix se_name) pfns
  unfolding check_pfns
  check_pfns-Owns prefix se_name [] s h = tt
  check_pfns-Owns prefix se_name (pfn ∷ pfns) s h =
      let (_, s1, e1, k1) = >>=-eq-returns _ _ s h in
      let (owns, p1) = check_pfn-Owns prefix se_name pfn s e1 in
      (
        owns,
        subst (λ (z : SandboxDb). All (Owns z prefix se_name) pfns) (sym p1)
            (check_pfns-Owns prefix se_name pfns s1 k1),
      )

  check_sandboxes-Owns :
      (pfns : List String) (prefix se_name : String) (s : SandboxDb) {u : Unit {0}} {s' : SandboxDb}
      → check_sandboxes user (some pfns) (some prefix) (some se_name) s ≡ returns u s'
      → All (Owns s prefix se_name) pfns
  unfolding check_sandboxes
  check_sandboxes-Owns [] prefix se_name s h = tt
  check_sandboxes-Owns (pfn ∷ pfns) prefix se_name s h =
      let (p, s1, e1, k1) = >>=-eq-returns _ _ s h in
      let (e, s2, e2, k2) = >>=-eq-returns _ _ s1 k1 in
      let (p_is, p1) = get_or_raise-eq-returns _ _ s e1 in
      let (e_is, p2) = get_or_raise-eq-returns _ _ s1 e2 in
      subst₂ (λ (x y : String). All (Owns s x y) (pfn ∷ pfns)) (sym (some_inj _ _ p_is))
        (sym (some_inj _ _ e_is))
        (subst (λ (z : SandboxDb). All (Owns z p e) (pfn ∷ pfns)) (sym (p1 ∙ p2))
          (check_pfns-Owns p e (pfn ∷ pfns) s2 k2))

  checked_of_normal :
      (pfns : List String) (prefix se_name : String) (s : SandboxDb) {u : Unit {0}} {s' : SandboxDb}
      (b : Bool)
      → mem job_administrator user.properties ≡ false
      → (if mem job_administrator user.properties
            then pure tt
            else if b
            then check_sandboxes user (some pfns) (some prefix) (some se_name)
            else raise http_forbidden)
          s
        ≡ returns u s'
      → check_sandboxes user (some pfns) (some prefix) (some se_name) s ≡ returns u s'
  unfolding ◌>>=◌
  checked_of_normal pfns prefix se_name s true no_admin h = ground arith
  checked_of_normal pfns prefix se_name s false no_admin h = ground arith

  -- A user who is not an administrator is granted another action than a creation on paths, with a prefix and a storage
  -- element, only if every path is below the prefix and the storage element has a sandbox at it whose number of the
  -- owner is that of a stored owner with the name, the group and the VO of the user.
  pub sandbox_policy-Owns :
      (action : ActionType) (pfns : List String) (prefix se_name : String) (s : SandboxDb)
      {u : Unit {0}} {s' : SandboxDb}
      → is_create action ≡ false
      → mem job_administrator user.properties ≡ false
      → sandbox_policy user (some action) (some pfns) (some prefix) (some se_name) s ≡ returns u s'
      → All (Owns s prefix se_name) pfns
  unfolding sandbox_policy check_sandbox_action
  sandbox_policy-Owns action pfns prefix se_name s other no_admin h =
      let (given, s1, e1, k1) = >>=-eq-returns _ _ s h in
      let (given_is, p1) = get_or_raise-eq-returns _ _ s e1 in
      subst (λ (z : SandboxDb). All (Owns z prefix se_name) pfns) (sym p1)
        (normal given s1
          (subst (λ (a : ActionType). is_create a ≡ false) (some_inj _ _ given_is) other) k1)
    where
      normal :
          (given : ActionType) (s : SandboxDb) {u : Unit {0}} {s' : SandboxDb}
          → is_create given ≡ false
          → check_sandbox_action user given (some pfns) (some prefix) (some se_name) s
            ≡ returns u s'
          → All (Owns s prefix se_name) pfns
      normal create s c h = cc
      normal read s c h =
          check_sandboxes-Owns pfns prefix se_name s
            (checked_of_normal pfns prefix se_name s _ no_admin h)
      normal manage s c h =
          check_sandboxes-Owns pfns prefix se_name s
            (checked_of_normal pfns prefix se_name s _ no_admin h)
      normal query s c h =
          check_sandboxes-Owns pfns prefix se_name s
            (checked_of_normal pfns prefix se_name s _ no_admin h)
      normal pilot s c h =
          check_sandboxes-Owns pfns prefix se_name s
            (checked_of_normal pfns prefix se_name s _ no_admin h)
