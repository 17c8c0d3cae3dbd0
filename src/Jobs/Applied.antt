-- ===== src/Jobs/Applied.antt =====
-- What `set_job_statuses` does to the attributes of the jobs (diracx-logic/src/diracx/logic/jobs/status.py).
use mathlib.Core.Path.{fun_ext}
use diracx.Prelude.{
  ℕ, List, [], ◌∷◌, ◌++◌, ◌≡◌, refl, sym, ap, ◌∙◌, map, arith, none, some, inl, inr, Bool-cases,
  String, nat_eq, subst,
}
use diracx.Prelude.Outcome.{
  Outcome, returns, raises, Action, state_of, query, pure, ◌>>=◌, ◌>>◌, >>=-eq-returns,
  pure-eq-returns,
}
use diracx.Prelude.Keeps.{
  Keeps, Keeps-bind, Keeps-pure, Keeps-returns, keeps_rules, Gives, Gives-bind, Gives-pure,
}
use diracx.Prelude.Floats.{Float}
use diracx.Config.{Config}
use diracx.JobLogging.{LoggingInfo, insert_records}
use diracx.TaskQueue.Db.{TaskQueueDb}
use diracx.TaskQueue.Recalculate.{remove_jobs_from_task_queue}
use diracx.Jobs.Db.{text, Attributes, JobRow, JobDb}
use diracx.Jobs.Commands.{JobCommand, received_row, insert_commands, set_job_commands}
use diracx.Jobs.View.{View, find_job, view, override, assign, assign_all}
use diracx.Jobs.Refinement.{map_columns_same}
use diracx.Jobs.Statements.{set_job_attributes-view}
use diracx.Jobs.Wms.{
  Wms, StatusUtility, on_jobs, on_logging, on_queues, outcome_jobs, outcome_logging, outcome_queues,
}
use diracx.Jobs.Updates.{Decision}
use diracx.Jobs.Status.{
  Plan, SetJobStatusReturn, StatusChanges, upsert, plan_job, plan_jobs, set_attributes, apply_plan,
  kill, kill_of, skipped_of, no_plan, change_found,
}

-- to assign no attributes changes nothing
assign_all-skipped :
    (now : ℕ) (skipped : List ℕ) (v : View) → assign_all now (skipped_of skipped) v ≡ v
assign_all-skipped now [] v = refl
assign_all-skipped now (i ∷ skipped) v = fun_ext λ k.
    ap (λ u. assign i [] u k) (assign_all-skipped now skipped v) ∙ elim (Bool-cases (nat_eq i k)) [
      | inl hit ↦ rw hit (map_columns_same (override []) (v k) λ c. refl)
      | inr miss ↦ rw miss refl
    ]

assign_all-append :
    (now : ℕ) (d e : List (ℕ × Attributes)) (v : View)
    → assign_all now (d ++ e) v ≡ assign_all now d (assign_all now e v)
assign_all-append now [] e v = refl
assign_all-append now ((i, attrs) ∷ d) e v = rw (assign_all-append now d e v) refl

rows-insert_commands :
    (commands : List (JobCommand × ℕ)) (s : JobDb)
    → (state_of (insert_commands commands s)).jobs ≡ s.jobs
unfolding insert_commands
rows-insert_commands [] s = refl
rows-insert_commands ((c, now) ∷ commands) s = ground (
  arith,
  rows-insert_commands commands (record s { commands = s.commands ++ received_row c now ∷ [] }),
)

module _ {W : Type 0} where
  -- the table of the jobs
  HasRows : List JobRow → Wms W → Type 0
  HasRows rows s = s.jobs.jobs ≡ rows

  module _ (rows : List JobRow) {A : Type 0} where
    on_queues-HasRows : (m : Action (TaskQueueDb W) A) → Keeps (HasRows rows) (on_queues m)
    unfolding on_queues HasRows
    on_queues-HasRows m = record { at = λ s h. by_outcome s (m s.queues) h }
      where
        by_outcome :
            (s : Wms W) (o : Outcome (TaskQueueDb W) A)
            → s.jobs.jobs ≡ rows
            → (state_of (outcome_queues s o)).jobs.jobs ≡ rows
        by_outcome s (returns a t) h = h
        by_outcome s (raises e t) h = h

    on_logging-HasRows : (m : Action (List LoggingInfo) A) → Keeps (HasRows rows) (on_logging m)
    unfolding on_logging HasRows
    on_logging-HasRows m = record { at = λ s h. by_outcome s (m s.logging) h }
      where
        by_outcome :
            (s : Wms W) (o : Outcome (List LoggingInfo) A)
            → s.jobs.jobs ≡ rows
            → (state_of (outcome_logging s o)).jobs.jobs ≡ rows
        by_outcome s (returns a t) h = h
        by_outcome s (raises e t) h = h

  on_jobs-state :
      {A : Type 0} (s : Wms W) (o : Outcome JobDb A)
      → (state_of (outcome_jobs s o)).jobs ≡ state_of o
  on_jobs-state s (returns a t) = refl
  on_jobs-state s (raises e t) = refl

  commands-HasRows :
      (rows : List JobRow) (c : JobCommand × ℕ) (commands : List (JobCommand × ℕ))
      → Keeps (HasRows rows) (on_jobs (set_job_commands (c ∷ commands)))
  unfolding on_jobs set_job_commands HasRows
  commands-HasRows rows c commands = record {
    at = λ s h.
        ap (λ (t : JobDb). t.jobs) (on_jobs-state s (set_job_commands (c ∷ commands) s.jobs))
        ∙ rows-insert_commands (c ∷ commands) s.jobs
        ∙ h;
  }

  on_jobs-eq-returns :
      {A : Type 0} (s : Wms W) (o : Outcome JobDb A) {a : A} {s' : Wms W}
      → outcome_jobs s o ≡ returns a s'
      → o ≡ returns a s'.jobs
  on_jobs-eq-returns s (returns b t) h = cc
  on_jobs-eq-returns s (raises e t) h = cc

  query-HasRows : (rows : List JobRow) {A : Type 0} (g : Wms W → A) → Keeps (HasRows rows) (query g)
  unfolding ◌>>=◌
  query-HasRows rows g = record { at = λ s h. h }

module _ {W : Type 0} ⦃f : Float W⦄ (dirac : StatusUtility) (config : Config) (clock : ℕ → ℕ) where
  upsert-HasRows :
      (rows : List JobRow) (vo : String) (job_id : ℕ) (d : Decision)
      → Keeps (HasRows {W = W} rows) (upsert dirac config clock vo job_id d)
  unfolding HasRows
  upsert-HasRows rows vo job_id d = record {
    at = λ s h.
        elim d.new
          as (λ new. HasRows rows (
            state_of (elim new [
              | none ↦ returns tt s
              | some new ↦ returns tt (record s {
                upserts =
                    s.upserts
                    ++ record {
                      vo = vo;
                      job_id = job_id;
                      document = ("Status", text new.status) ∷ [];
                    }
                      ∷ [];
              })
            ]))) [ none ↦ h | some new ↦ h ];
  }

  plan_job-HasRows :
      (rows : List JobRow) (c : StatusChanges) (r : JobRow) (plan : Plan)
      → Keeps (HasRows {W = W} rows) (plan_job dirac config clock c r plan)
  unfolding plan_job
  plan_job-HasRows rows c r plan =
      search (keeps_rules, query-HasRows rows, upsert-HasRows rows) depth 12

  plan_jobs-HasRows :
      (rows : List JobRow) (c : StatusChanges) (found : List JobRow) (plan : Plan)
      → Keeps (HasRows {W = W} rows) (plan_jobs dirac config clock c found plan)
  unfolding plan_jobs
  plan_jobs-HasRows rows c [] plan = Keeps-pure plan
  plan_jobs-HasRows rows c (r ∷ found) plan =
      Keeps-bind _ _ (plan_job-HasRows rows c r plan) λ next. plan_jobs-HasRows rows c found next

  -- what comes after the attributes
  finish : Plan → List ℕ → Action (Wms W) SetJobStatusReturn
  finish plan failed = do
    on_queues (remove_jobs_from_task_queue plan.deletable_killable config)
    kill dirac config clock plan.deletable_killable
    on_logging (insert_records plan.logging_updates)
    pure record { success = plan.attribute_updates ++ skipped_of plan.skipped; failed = failed }

  kill-HasRows :
      (rows : List JobRow) (job_ids : List ℕ)
      → Keeps (HasRows {W = W} rows) (kill dirac config clock job_ids)
  kill-HasRows rows [] = Keeps-pure tt
  kill-HasRows rows (job_id ∷ job_ids) =
      commands-HasRows rows (kill_of clock job_id) (map (kill_of clock) job_ids)

  finish-HasRows :
      (rows : List JobRow) (plan : Plan) (failed : List ℕ)
      → Keeps (HasRows rows) (finish plan failed)
  unfolding finish
  finish-HasRows rows plan failed = Keeps-bind _ _ (on_queues-HasRows rows _) λ _.
      Keeps-bind _ _ (kill-HasRows rows plan.deletable_killable)
        λ _. Keeps-bind _ _ (on_logging-HasRows rows _) λ _. Keeps-pure _

  finish-success :
      (plan : Plan) (failed : List ℕ)
      → Gives {S = Wms W}
          (λ (r : SetJobStatusReturn).
            r.success ≡ plan.attribute_updates ++ skipped_of plan.skipped)
          (finish plan failed)
  unfolding finish
  finish-success plan failed =
      Gives-bind _ _ λ _. Gives-bind _ _ λ _. Gives-bind _ _ λ _. Gives-pure _ refl

  set_attributes-view :
      (d : List (ℕ × Attributes)) (s : Wms W) {u : Unit {0}} {s' : Wms W}
      → set_attributes dirac config clock d s ≡ returns u s'
      → view s'.jobs ≡ assign_all (clock 0) d (view s.jobs)
  unfolding on_jobs
  set_attributes-view [] s h = ap (λ (t : Wms W). view t.jobs) (sym (pure-eq-returns tt s h).1)
  set_attributes-view (x ∷ d) s h =
      set_job_attributes-view (clock 0) (x ∷ d) s.jobs (on_jobs-eq-returns s _ h)

  apply_plan-view :
      (plan : Plan) (failed : List ℕ) (s : Wms W) {r : SetJobStatusReturn} {s' : Wms W}
      → apply_plan dirac config clock plan failed s ≡ returns r s'
      → view s'.jobs ≡ assign_all (clock 0) r.success (view s.jobs)
  unfolding apply_plan finish HasRows
  apply_plan-view plan failed s {r} {s'} h =
      let now = clock 0 in
      let (u, s1, e1, k1) =
        >>=-eq-returns (set_attributes dirac config clock plan.attribute_updates)
          (λ _. finish plan failed) s h in
      let rows : s'.jobs.jobs ≡ s1.jobs.jobs =
        Keeps-returns (HasRows s1.jobs.jobs) (finish plan failed) s1
          (finish-HasRows s1.jobs.jobs plan failed) k1 refl in
      let success = (finish-success plan failed).value_of s1 k1 in
      ap find_job rows
      ∙ set_attributes-view plan.attribute_updates s e1
      ∙ ap (assign_all now plan.attribute_updates)
          (sym (assign_all-skipped now plan.skipped (view s.jobs)))
      ∙ sym (assign_all-append now plan.attribute_updates (skipped_of plan.skipped) (view s.jobs))
      ∙ ap (λ d. assign_all now d (view s.jobs)) (sym success)

  -- Where `change_found` returns, each job that it reports as successful has got the reported attributes.
  pub change_found-view :
      (c : StatusChanges) (rows : List JobRow) (s : Wms W) {r : SetJobStatusReturn} {s' : Wms W}
      → change_found dirac config clock c rows s ≡ returns r s'
      → view s'.jobs ≡ assign_all (clock 0) r.success (view s.jobs)
  unfolding change_found HasRows
  change_found-view c [] s {s'} h =
      let (e, same) = pure-eq-returns _ s h in
      subst
        (λ (r : SetJobStatusReturn). view s'.jobs ≡ assign_all (clock 0) r.success (view s.jobs)) e
        (ap (λ (t : Wms W). view t.jobs) (sym same))
  change_found-view c (r ∷ rows) s h =
      let (plan, s1, e1, k1) =
        >>=-eq-returns (plan_jobs dirac config clock c (r ∷ rows) no_plan) _ s h in
      apply_plan-view plan _ s1 k1
      ∙ ap (assign_all (clock 0) _) (
          ap find_job (
            Keeps-returns (HasRows s.jobs.jobs) _ s
              (plan_jobs-HasRows s.jobs.jobs c (r ∷ rows) no_plan) e1 refl))
