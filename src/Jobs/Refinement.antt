-- ===== src/Jobs/Refinement.antt =====
-- The methods of `JobDB` on attributes refine the changes of the view
-- (diracx-db/src/diracx/db/sql/job/db.py).
use mathlib.Core.Path.{fun_ext}
use diracx.Prelude.{
  ℕ, String, true, false, Option, none, some, List, [], ◌∷◌, ◌++◌, ◌≡◌, refl, sym, ap, ◌∙◌, nat_eq,
  nat_eq_iff, eq_iff, ◌==◌, Bool, is_in, mem, all, lookup, some_inj, subst, arith, inl, inr,
  Bool-cases, if◌then◌else◌,
}
use diracx.Prelude.Table.{update, delete, exists}
use diracx.Prelude.Outcome.{integrity_error, statement_error, returns, raises, returns_state}
use diracx.Jobs.Db.{
  ColumnValue, Attributes, JobRow, JobDb, stamp, stamp_all, case_of, set_columns, job_keys, job_of,
  may_insert, has_job, names_of, bind, bind_all, insert_jobs, value_or_default, job_columns,
  insert_job_attributes,
}
use diracx.Jobs.View.{
  View, find_job, view, override, map_columns, assign_all, remove_all, value_among, add_all,
  add_jobs,
}

-- what the statement does to the columns of a job
abbrev bulk : List (ℕ × Attributes) → ℕ → (String → ColumnValue) → String → ColumnValue
bulk job_data k columns column = case_of job_data k column (columns column)

case_of_miss :
    (d : List (ℕ × Attributes)) (k : ℕ) (column : String) (v : ColumnValue)
    → is_in (job_keys d) k ≡ false
    → case_of d k column v ≡ v
case_of_miss [] k column v h = refl
case_of_miss ((j, attrs) ∷ d) k column v h = ground (arith, case_of_miss d k column v)

pub map_columns_same :
    (f : (String → ColumnValue) → String → ColumnValue) (o : Option (String → ColumnValue))
    → ((c : String → ColumnValue) → f c ≡ c)
    → map_columns f o ≡ o
map_columns_same f none h = refl
map_columns_same f (some c) h = ap some (h c)

map_columns_comp :
    (f g h : (String → ColumnValue) → String → ColumnValue) (o : Option (String → ColumnValue))
    → ((c : String → ColumnValue) → f (g c) ≡ h c)
    → map_columns f (map_columns g o) ≡ map_columns h o
map_columns_comp f g h none k = refl
map_columns_comp f g h (some c) k = ap some (k c)

-- a row that the statement does not touch has no new value
set_columns_untouched :
    (d : List (ℕ × Attributes)) (r : JobRow)
    → (if is_in (job_keys d) r.job_id then set_columns d r else r) ≡ set_columns d r
set_columns_untouched d r = elim (Bool-cases (is_in (job_keys d) r.job_id)) [
  | inl hit ↦ rw hit refl
  | inr miss ↦ rw miss (
      ap (λ columns. record r { columns = columns })
        (fun_ext λ column. sym (case_of_miss d r.job_id column (r.columns column) miss)))
]

pub find_job-update :
    (d : List (ℕ × Attributes)) (rows : List JobRow) (k : ℕ)
    → find_job (update (λ (r : JobRow). is_in (job_keys d) r.job_id) (set_columns d) rows) k
      ≡ map_columns (bulk d k) (find_job rows k)
unfolding find_job update
find_job-update d [] k = refl
find_job-update d (r ∷ rows) k =
    rw (set_columns_untouched d r) (elim (Bool-cases (nat_eq r.job_id k)) [
      | inl hit ↦ rw hit (ap (λ i. some (bulk d i r.columns)) ((nat_eq_iff r.job_id k).0 hit))
      | inr miss ↦ rw miss (find_job-update d rows k)
    ])

pub assign_all-bulk :
    (now : ℕ) (d : List (ℕ × Attributes)) (v : View) (k : ℕ)
    → assign_all now d v k ≡ map_columns (bulk (stamp_all now d) k) (v k)
assign_all-bulk now [] v k = sym (map_columns_same (bulk [] k) (v k) λ c. refl)
assign_all-bulk now ((j, attrs) ∷ d) v k = elim (Bool-cases (nat_eq j k)) [
  | inl hit ↦
      rw (hit, assign_all-bulk now d v k)
        (map_columns_comp (override (stamp now attrs)) (bulk (stamp_all now d) k)
          (bulk ((j, stamp now attrs) ∷ stamp_all now d) k) (v k)
          λ c. fun_ext λ column. rw hit refl)
  | inr miss ↦
      rw (miss, assign_all-bulk now d v k)
        (ap (λ f. map_columns f (v k)) (fun_ext λ c. fun_ext λ column. rw miss refl))
]

pub find_job-delete :
    (job_ids : List ℕ) (rows : List JobRow) (k : ℕ)
    → find_job (delete (λ (r : JobRow). is_in job_ids r.job_id) rows) k
      ≡ remove_all job_ids (find_job rows) k
unfolding find_job delete
find_job-delete job_ids [] k = ground arith
find_job-delete job_ids (r ∷ rows) k = ground (arith, find_job-delete job_ids rows k)

find_job-append :
    (rows : List JobRow) (r : JobRow) (k : ℕ)
    → exists (λ (x : JobRow). nat_eq x.job_id r.job_id) rows ≡ false
    → find_job (rows ++ r ∷ []) k ≡ (if nat_eq r.job_id k then some r.columns else find_job rows k)
unfolding find_job exists
find_job-append [] r k h = refl
find_job-append (x ∷ rows) r k h = ground (arith, find_job-append rows r k)

may_insert_new :
    (job_id : ℕ) (attrs : Attributes) (s : JobDb)
    → may_insert job_id attrs s ≡ true
    → has_job job_id s ≡ false
may_insert_new job_id attrs s h = ground arith

-- a step of a chain of options
chain-eq-some :
    {A B : Type 0} (o : Option A) (f : A → Option B) {b : B}
    → elim o [ none ↦ none | some a ↦ f a ] ≡ some b
    → (a : A) × (o ≡ some a) × (f a ≡ some b)
chain-eq-some none f h = cc
chain-eq-some (some a) f h = (a, refl, h)

-- the values of a column among those that are bound
lookup-bind :
    (columns : List String) (attrs : Attributes) (column : String) {bound : Attributes}
    → bind columns attrs ≡ some bound
    → lookup column bound ≡ (if mem column columns then lookup column attrs else none)
unfolding bind
lookup-bind [] attrs column h = ap (lookup column) (sym (some_inj _ _ h))
lookup-bind (c ∷ columns) attrs column {bound} h =
    let (v, given, k) = chain-eq-some (lookup c attrs) _ h in
    let (rest, found, k') = chain-eq-some (bind columns attrs) _ k in
    let others = lookup-bind columns attrs column found in
    subst
      (λ (b : Attributes).
        lookup column b ≡ (if mem column (c ∷ columns) then lookup column attrs else none))
      (some_inj ((c, v) ∷ rest) bound k')
      (elim (Bool-cases (c == column)) [
        | inl hit ↦
            rw hit (sym (subst (λ x. lookup x attrs ≡ some v) ((eq_iff c column).0 hit) given))
        | inr miss ↦ rw miss others
      ])

value-bind :
    (columns : List String) (attrs bound : Attributes)
    → bind columns attrs ≡ some bound
    → value_or_default bound ≡ value_among columns attrs
value-bind columns attrs bound h = fun_ext λ column.
    rw (value_or_default, lookup-bind columns attrs column h)
      (elim (Bool-cases (mem column columns)) [ inl hit ↦ rw hit refl | inr miss ↦ rw miss refl ])

insert_jobs-view :
    (columns : List String) (d p : List (ℕ × Attributes)) (s : JobDb) {s' : JobDb}
    → bind_all columns d ≡ some p
    → insert_jobs p s ≡ returns tt s'
    → view s' ≡ add_all columns d (view s)
unfolding bind_all insert_jobs
insert_jobs-view columns [] p s {s'} b h =
    let e : insert_jobs [] s ≡ returns tt s' =
      subst (λ q. insert_jobs q s ≡ returns tt s') (sym (some_inj [] p b)) h in
    ap view (sym (returns_state e))
insert_jobs-view columns ((job_id, attrs) ∷ d) p s {s'} b h =
    let (bound, given, k) = chain-eq-some (bind columns attrs) _ b in
    let (rest, others, k') = chain-eq-some (bind_all columns d) _ k in
    let e : insert_jobs ((job_id, bound) ∷ rest) s ≡ returns tt s' =
      subst (λ q. insert_jobs q s ≡ returns tt s') (sym (some_inj ((job_id, bound) ∷ rest) p k'))
        h in
    elim (Bool-cases (may_insert job_id bound s)) [
      | inl may ↦
          let next = record s { jobs = s.jobs ++ job_of job_id bound ∷ [] } in
          insert_jobs-view columns d rest next others (rw may at e)
          ∙ ap (add_all columns d) (
              fun_ext λ k.
                find_job-append s.jobs (job_of job_id bound) k (may_insert_new job_id bound s may)
                ∙ ap (λ c. if nat_eq job_id k then some c else view s k)
                    (value-bind columns attrs bound given))
      | inr not_may ↦ let refused : raises integrity_error s ≡ returns tt s' = rw not_may at e in cc
    ]

inserted_parameters :
    (o : Option (List (ℕ × Attributes))) (known : Bool) (s : JobDb) {s' : JobDb}
    → elim o [
      | none ↦ raises statement_error s
      | some p ↦ if known then insert_jobs p s else raises statement_error s
    ]
      ≡ returns tt s'
    → (p : List (ℕ × Attributes)) × (o ≡ some p) × (insert_jobs p s ≡ returns tt s')
inserted_parameters none known s h = cc
inserted_parameters (some p) true s h = (p, refl, h)
inserted_parameters (some p) false s h = cc

pub view-insert_job_attributes :
    (d : List (ℕ × Attributes)) (s : JobDb) {s' : JobDb}
    → insert_job_attributes d s ≡ returns tt s'
    → view s' ≡ add_jobs d (view s)
unfolding insert_job_attributes
view-insert_job_attributes [] s h = cc
view-insert_job_attributes (d ∷ jobs_to_update) s {s'} h =
    let (p, bound, inserted) =
      inserted_parameters (bind_all (names_of d.1) (d ∷ jobs_to_update))
        (all (λ column. mem column job_columns) (names_of d.1)) s h in
    insert_jobs-view (names_of d.1) (d ∷ jobs_to_update) p s bound inserted
