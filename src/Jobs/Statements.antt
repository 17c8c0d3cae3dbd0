-- ===== src/Jobs/Statements.antt =====
-- Sequences of the statements of `JobDB` on jobs (diracx-db/src/diracx/db/sql/job/db.py), which refine
-- those of the view.
use mathlib.Core.Path.{fun_ext}
use diracx.Prelude.{ℕ, String, List, [], ◌∷◌, ◌≡◌, sym, ap, ◌∙◌, inl, inr, Bool-cases}
use diracx.Prelude.Outcome.{
  returns, returns_state, Action, pure, pure-eq-returns, ◌>>=◌, ◌>>◌, >>=-eq-returns,
}
use diracx.Jobs.Db.{
  Attributes, JobDb, stamp_all, has_known_columns, has_columns, update_jobs, create_job,
  delete_jobs, insert_job_attributes, update_job_jdls, set_job_attributes,
}
use diracx.Jobs.View.{View, view, assign_all, remove_all, add_jobs}
use diracx.Jobs.Refinement.{
  assign_all-bulk, find_job-update, find_job-delete, view-insert_job_attributes,
}

pub data Statement : Type 0 where
  create : String → Statement
  insert : List (ℕ × Attributes) → Statement
  set_at : ℕ → List (ℕ × Attributes) → Statement
  update_jdls : List (ℕ × String) → Statement
  remove : List ℕ → Statement

unfoldable pub execute : Statement → Action JobDb (Unit {0})
execute (create jdl) = create_job jdl >>= λ _. pure tt
execute (insert jobs_to_update) = insert_job_attributes jobs_to_update
execute (set_at now job_data) = set_job_attributes now job_data
execute (update_jdls jdls_to_update) = update_job_jdls jdls_to_update
execute (remove job_ids) = delete_jobs job_ids

unfoldable pub execute_all : List Statement → Action JobDb (Unit {0})
unfolding execute
execute_all [] = pure tt
execute_all (statement ∷ statements) = execute statement >> execute_all statements

-- the same statements on the view
abbrev pub replay : Statement → View → View
replay (create jdl) v = v
replay (insert jobs_to_update) v = add_jobs jobs_to_update v
replay (set_at now job_data) v = assign_all now job_data v
replay (update_jdls jdls_to_update) v = v
replay (remove job_ids) v = remove_all job_ids v

abbrev pub replay_all : List Statement → View → View
replay_all [] v = v
replay_all (statement ∷ statements) v = replay_all statements (replay statement v)

set_job_attributes-state :
    (now : ℕ) (x : ℕ × Attributes) (d : List (ℕ × Attributes)) (s : JobDb) {s' : JobDb}
    → set_job_attributes now (x ∷ d) s ≡ returns tt s'
    → update_jobs (stamp_all now (x ∷ d)) s ≡ s'
unfolding set_job_attributes
set_job_attributes-state now x d s h = elim (Bool-cases (has_known_columns (x ∷ d))) [
  | inl known ↦ elim (Bool-cases (has_columns (x ∷ d))) [
    | inl some_columns ↦ returns_state (rw (known, some_columns) at h)
    | inr no_columns ↦ cc
  ]
  | inr unknown ↦ cc
]

pub set_job_attributes-view :
    (now : ℕ) (d : List (ℕ × Attributes)) (s : JobDb) {s' : JobDb}
    → set_job_attributes now d s ≡ returns tt s'
    → view s' ≡ assign_all now d (view s)
unfolding set_job_attributes
set_job_attributes-view now [] s h = cc
set_job_attributes-view now (x ∷ d) s {s'} h =
    sym (ap view (set_job_attributes-state now x d s h))
    ∙ fun_ext λ k.
      find_job-update (stamp_all now (x ∷ d)) s.jobs k
      ∙ sym (assign_all-bulk now (x ∷ d) (view s) k)

execute-view :
    (statement : Statement) (s : JobDb) {s' : JobDb}
    → execute statement s ≡ returns tt s'
    → view s' ≡ replay statement (view s)
unfolding execute create_job update_job_jdls delete_jobs ◌>>=◌
execute-view (create jdl) s h = ap view (sym (returns_state h))
execute-view (insert jobs_to_update) s h = view-insert_job_attributes jobs_to_update s h
execute-view (set_at now job_data) s h = set_job_attributes-view now job_data s h
execute-view (update_jdls []) s h = cc
execute-view (update_jdls (x ∷ jdls_to_update)) s h = ap view (sym (returns_state h))
execute-view (remove job_ids) s h =
    ap view (sym (returns_state h)) ∙ fun_ext λ k. find_job-delete job_ids s.jobs k

-- A sequence of statements on the database of the jobs that returns changes the attributes of the jobs, as a
-- function of the job and the column, as the same changes one after the other on that function: to set the
-- attributes of many jobs by one statement is to assign them job by job, with the time of the last update where
-- the status is set, an insertion adds the given values over the defaults of the schema, a removal removes
-- exactly the given jobs, and new JDLs change no attribute.
pub execute_all_refines :
    (statements : List Statement) (s : JobDb) {s' : JobDb}
    → execute_all statements s ≡ returns tt s'
    → view s' ≡ replay_all statements (view s)
unfolding execute_all
execute_all_refines [] s h = ap view (sym (pure-eq-returns tt s h).1)
execute_all_refines (statement ∷ statements) s h =
    let (_, s1, e1, k1) = >>=-eq-returns (execute statement) (λ _. execute_all statements) s h in
    execute_all_refines statements s1 k1 ∙ ap (replay_all statements) (execute-view statement s e1)
