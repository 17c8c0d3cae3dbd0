-- ===== src/Access/Owned.antt =====
-- What the policy grants to a user without special rights: the jobs that are theirs.
use diracx.Prelude.{
  ℕ, suc, ◌+◌, ◌≤◌, String, Bool, true, false, ◌&&◌, ◌≡◌, refl, sym, ap, subst, ◌∙◌, some, List, [],
  ◌∷◌, ◌==◌, eq_iff, arith, nat_eq, nat_eq_iff, mem, all, length, Bool-cases, inl, inr,
}
use diracx.Prelude.Table.{select, exists, rowcount}
use diracx.Prelude.Outcome.{ok}
use diracx.Prelude.Result.{require-eq-ok}
use diracx.Access.Jobs.{
  ActionType, create, read, manage, query, pilot, AuthorizedUserInfo, Job, OwnerCount, count_job,
  group_by_owner, mem_id, distinct_ids, summary, is_expected, check_owned, policy, check_action,
  check_normal_user, job_administrator, generic_pilot,
}

abbrev pub belongs_to : String → String → Job → Bool
belongs_to owner vo job = job.owner == owner && job.vo == vo

abbrev pub has_job_id : ℕ → Job → Bool
has_job_id i job = nat_eq job.job_id i

-- Every identifier is that of a stored job of the owner.
abbrev pub all_owned : String → String → List Job → List ℕ → Bool
all_owned owner vo jobs ids =
    all (λ i. exists (λ job. has_job_id i job && belongs_to owner vo job) jobs) ids

total : List OwnerCount → ℕ
total [] = 0
total (c ∷ cs) = c.count + total cs

total-count_job : (job : Job) (cs : List OwnerCount) → total (count_job job cs) ≡ suc (total cs)
unfolding count_job total
total-count_job job [] = refl
total-count_job job (c ∷ cs) = ground (arith, total-count_job job cs)

total-group_by_owner : (jobs : List Job) → total (group_by_owner jobs) ≡ length jobs
unfolding group_by_owner total
total-group_by_owner [] = refl
total-group_by_owner (job ∷ jobs) =
    omega (arith, total-count_job job (group_by_owner jobs), total-group_by_owner jobs)

count_job-owners :
    (owner vo : String) (job : Job) (cs : List OwnerCount)
    → all (λ (c : OwnerCount). c.owner == owner && c.vo == vo) (count_job job cs)
      ≡ (belongs_to owner vo job && all (λ (c : OwnerCount). c.owner == owner && c.vo == vo) cs)
unfolding count_job
count_job-owners owner vo job [] = ground arith
count_job-owners owner vo job (c ∷ cs) =
    ground (arith, count_job-owners owner vo job cs, eq_iff c.owner job.owner, eq_iff c.vo job.vo)

group_by_owner-owners :
    (owner vo : String) (jobs : List Job)
    → all (λ (c : OwnerCount). c.owner == owner && c.vo == vo) (group_by_owner jobs)
      ≡ all (belongs_to owner vo) jobs
unfolding group_by_owner
group_by_owner-owners owner vo [] = refl
group_by_owner-owners owner vo (job ∷ jobs) =
    count_job-owners owner vo job (group_by_owner jobs)
    ∙ ap (λ (b : Bool). belongs_to owner vo job && b) (group_by_owner-owners owner vo jobs)

-- one group of the owner's means that all the jobs are the owner's, as many as it counts
is_expected-owned :
    (e : OwnerCount) (jobs : List Job)
    → is_expected e (group_by_owner jobs) ≡ true
    → (all (belongs_to e.owner e.vo) jobs ≡ true) × (length jobs ≡ e.count)
unfolding total
is_expected-owned e jobs h =
    let (owners, sum) = single (group_by_owner jobs) h in
    (sym (group_by_owner-owners e.owner e.vo jobs) ∙ owners, sym (total-group_by_owner jobs) ∙ sum)
  where
    single :
        (cs : List OwnerCount)
        → is_expected e cs ≡ true
        → (all (λ (c : OwnerCount). c.owner == e.owner && c.vo == e.vo) cs ≡ true)
          × (total cs ≡ e.count)
    single [] h = cc
    single (c ∷ []) h = (ground arith, ground (arith, nat_eq_iff c.count e.count))
    single (_ ∷ _ ∷ _) h = cc

-- No two stored jobs have the same identifier.
pub record HasUniqueIds (jobs : List Job) : Type 0 where
  pub at : (i : ℕ) → rowcount (has_job_id i) jobs ≤ 1

abbrev among_ids : List ℕ → Job → Bool
among_ids ids job = mem_id job.job_id ids

length-select : (p : Job → Bool) (jobs : List Job) → length (select p jobs) ≡ rowcount p jobs
unfolding select rowcount
length-select p [] = refl
length-select p (job ∷ jobs) = ground (arith, length-select p jobs)

rowcount-cons :
    (i : ℕ) (ids : List ℕ) (jobs : List Job)
    → mem_id i ids ≡ false
    → rowcount (among_ids (i ∷ ids)) jobs
      ≡ rowcount (has_job_id i) jobs + rowcount (among_ids ids) jobs
unfolding rowcount
rowcount-cons i ids [] h = refl
rowcount-cons i ids (job ∷ jobs) h = elim (Bool-cases (has_job_id i job)) [
  | inl same ↦
      let other : mem_id job.job_id ids ≡ false =
        subst (λ (j : ℕ). mem_id j ids ≡ false) (sym ((nat_eq_iff job.job_id i).0 same)) h in
      ground (arith, rowcount-cons i ids jobs h, nat_eq_iff job.job_id i)
  | inr other ↦ ground (arith, rowcount-cons i ids jobs h, nat_eq_iff job.job_id i)
]

mem_id-distinct : (i : ℕ) (ids : List ℕ) → mem_id i (distinct_ids ids) ≡ mem_id i ids
mem_id-distinct i [] = refl
mem_id-distinct i (x ∷ ids) = elim (Bool-cases (nat_eq x i)) [
  | inl same ↦ let e = (nat_eq_iff x i).0 same in rw e (ground (arith, mem_id-distinct i ids))
  | inr other ↦ ground (arith, mem_id-distinct i ids)
]

rowcount_cong :
    (p q : Job → Bool) (jobs : List Job)
    → ((job : Job) → p job ≡ q job)
    → rowcount p jobs ≡ rowcount q jobs
unfolding rowcount
rowcount_cong p q [] k = refl
rowcount_cong p q (job ∷ jobs) k = ground (arith, k job, rowcount_cong p q jobs k)

exists_of_rowcount : (p : Job → Bool) (jobs : List Job) → rowcount p jobs ≡ 1 → exists p jobs ≡ true
unfolding rowcount exists
exists_of_rowcount p [] h = cc
exists_of_rowcount p (job ∷ jobs) h = ground (arith, exists_of_rowcount p jobs)

-- as many stored jobs as there are different identifiers: then every identifier is stored
all_stored :
    (ids : List ℕ) (jobs : List Job)
    → HasUniqueIds jobs
    → (rowcount (among_ids (distinct_ids ids)) jobs ≤ length (distinct_ids ids))
      × (length (distinct_ids ids) ≤ rowcount (among_ids (distinct_ids ids)) jobs
          → all (λ i. exists (has_job_id i) jobs) (distinct_ids ids) ≡ true)
unfolding rowcount
all_stored [] jobs u = (omega (arith, rowcount_none jobs), λ h. refl)
  where
    rowcount_none : (jobs : List Job) → rowcount (among_ids []) jobs ≡ 0
    rowcount_none [] = refl
    rowcount_none (job ∷ jobs) = rowcount_none jobs
all_stored (x ∷ ids) jobs u =
    let (most, full) = all_stored ids jobs u in
    elim (Bool-cases (mem_id x (distinct_ids ids))) [
      | inl again ↦ rw again (most, full)
      | inr new ↦
          let sum = rowcount-cons x (distinct_ids ids) jobs new in
          rw new (
            omega (arith, sum, u.at x, most),
            λ h. ground (
              arith,
              exists_of_rowcount (has_job_id x) jobs (omega (arith, sum, u.at x, most, h)),
              full (omega (arith, sum, u.at x, most, h)),
            ),
          )
    ]

all-mem_id :
    (p : ℕ → Bool) (i : ℕ) (ids : List ℕ) → all p ids ≡ true → mem_id i ids ≡ true → p i ≡ true
all-mem_id p i [] h m = cc
all-mem_id p i (x ∷ ids) h m = elim (Bool-cases (nat_eq x i)) [
  | inl same ↦ subst (λ (j : ℕ). p j ≡ true) ((nat_eq_iff x i).0 same) (ground arith)
  | inr other ↦ all-mem_id p i ids (ground arith) (ground arith)
]

-- a stored job whose identifier was asked for is one of those that the summary counts
exists-owned :
    (owner vo : String) (i : ℕ) (ids : List ℕ) (jobs : List Job)
    → mem_id i ids ≡ true
    → all (belongs_to owner vo) (select (among_ids ids) jobs) ≡ true
    → exists (has_job_id i) jobs ≡ true
    → exists (λ job. has_job_id i job && belongs_to owner vo job) jobs ≡ true
unfolding select exists
exists-owned owner vo i ids [] m h e = cc
exists-owned owner vo i ids (job ∷ jobs) m h e = elim (Bool-cases (has_job_id i job)) [
  | inl same ↦
      let asked : mem_id job.job_id ids ≡ true =
        subst (λ (j : ℕ). mem_id j ids ≡ true) (sym ((nat_eq_iff job.job_id i).0 same)) m in
      ground arith
  | inr other ↦ elim (Bool-cases (mem_id job.job_id ids)) [
    | inl asked ↦ ground (arith, exists-owned owner vo i ids jobs m)
    | inr free ↦ ground (arith, exists-owned owner vo i ids jobs m)
  ]
]

module _ (user : AuthorizedUserInfo) (jobs : List Job) where
  check_owned-owned :
      (ids : List ℕ) (i : ℕ)
      → HasUniqueIds jobs
      → check_owned user jobs (some ids) ≡ ok tt
      → mem_id i ids ≡ true
      → exists (λ job. has_job_id i job && belongs_to user.preferred_username user.vo job) jobs
        ≡ true
  unfolding check_owned summary
  check_owned-owned ids i u h m =
      let (owned, counted) =
        is_expected-owned _ (select (among_ids ids) jobs) (require-eq-ok _ _ h) in
      let same =
        rowcount_cong (among_ids (distinct_ids ids)) (among_ids ids) jobs
          (λ job. mem_id-distinct job.job_id ids) in
      let (most, full) = all_stored ids jobs u in
      let stored =
        all-mem_id (λ i. exists (has_job_id i) jobs) i (distinct_ids ids)
          (full (omega (arith, same, counted, length-select (among_ids ids) jobs)))
          (mem_id-distinct i ids ∙ m) in
      exists-owned user.preferred_username user.vo i ids jobs m owned stored

  -- A user who is neither an administrator nor a pilot is granted reading or managing jobs by their identifiers only if
  -- every identifier is that of a stored job of the user's name and VO. Stored jobs have different identifiers.
  pub policy-owned :
      (action : ActionType) (ids : List ℕ) (i : ℕ)
      → HasUniqueIds jobs
      → mem job_administrator user.properties ≡ false
      → mem generic_pilot user.properties ≡ false
      → policy user (some action) (some jobs) (some ids) ≡ ok tt
      → mem_id i ids ≡ true
      → exists (λ job. has_job_id i job && belongs_to user.preferred_username user.vo job) jobs
        ≡ true
  unfolding policy check_action check_normal_user
  policy-owned action ids i u no_admin no_pilot h m = check_owned-owned ids i u (checked action h) m
    where
      checked :
          (action : ActionType)
          → policy user (some action) (some jobs) (some ids) ≡ ok tt
          → check_owned user jobs (some ids) ≡ ok tt
      checked create h = ground arith
      checked query h = ground arith
      checked read h = ground arith
      checked manage h = ground arith
      checked pilot h = ground arith
