-- ===== src/Jobs/Limit.antt =====
-- The limit of the number of reschedulings (diracx-logic/src/diracx/logic/jobs/status.py).
use mathlib.Core.List.{append-nil, append_assoc}
use diracx.Prelude.{
  ℕ, String, Bool, true, false, not, ◌&&◌, ◌||◌, Option, none, some, List, [], ◌∷◌, ◌++◌, ◌≡◌, refl,
  sym, ap, ◌∙◌, map, is_in, all, ltb, lookup, arith, inl, inr, Bool-cases, if◌then◌else◌,
}
use diracx.Prelude.Table.{select}
use diracx.Prelude.Outcome.{key_error, returns, pure, get_or_raise, ◌>>=◌}
use diracx.Prelude.Floats.{Float}
use diracx.Config.{Config, OperationsConfig}
use diracx.Jobs.Db.{JobRow, get_job_jdls}
use diracx.Jobs.Wms.{Wms, StatusUtility, on_jobs}
use diracx.Jobs.Updates.{text_of}
use diracx.Jobs.Jdl.{Jdls}
use diracx.Jobs.Reschedule.{
  Rescheduling, give_up, survive, fail, is_verified, new_counter, triage, prepare, set_rescheduled,
  resume, reschedule_jobs, not_found,
}

-- the job is over the limit of its VO
abbrev pub is_over : Bool → JobRow → Option OperationsConfig → Bool
is_over reset_jobs r none = false
is_over reset_jobs r (some ops) = ltb ops.max_rescheduling (new_counter reset_jobs r)

-- the job is not verified, or over the limit
abbrev pub is_given_up : List (String × OperationsConfig) → Bool → JobRow → Bool
is_given_up operations reset_jobs r =
    not (is_verified r) || is_over reset_jobs r (lookup (text_of (r.columns "VO")) operations)

abbrev job_ids_of : List JobRow → List ℕ
job_ids_of rows = map (λ (r : JobRow). r.job_id) rows

-- the jobs that are reported where none is rescheduled: all that were found, or all that were given if none was
abbrev pub reported : List ℕ → List JobRow → List ℕ
reported job_ids [] = job_ids
reported job_ids (r ∷ rows) = job_ids_of (r ∷ rows)

module _ (C : Type 0) where
  no_survivors :
      (job_ids : List ℕ) (rows : List JobRow) → (not_found {C = C} job_ids rows).survivors ≡ []
  no_survivors job_ids [] = refl
  no_survivors job_ids (r ∷ rows) = refl

  failed-not_found :
      (job_ids : List ℕ) (rows : List JobRow)
      → (not_found {C = C} job_ids rows).failed ++ job_ids_of rows ≡ reported job_ids rows
  failed-not_found job_ids [] = append-nil job_ids
  failed-not_found job_ids (r ∷ rows) = refl

all-tail :
    {A : Type 0} (p : A → Bool) (x : A) (xs : List A) → all p (x ∷ xs) ≡ true → all p xs ≡ true
all-tail p x xs h = ground arith

over_of_given_up :
    (operations : List (String × OperationsConfig)) (reset_jobs : Bool) (r : JobRow)
    (rows : List JobRow)
    → all (is_given_up operations reset_jobs) (r ∷ rows) ≡ true
    → is_verified r ≡ true
    → is_over reset_jobs r (lookup (text_of (r.columns "VO")) operations) ≡ true
over_of_given_up operations reset_jobs r rows h v =
    or_right (is_verified r) (is_over reset_jobs r (lookup (text_of (r.columns "VO")) operations))
      (all (is_given_up operations reset_jobs) rows) h v
  where
    or_right : (a b c : Bool) → ((not a || b) && c) ≡ true → a ≡ true → b ≡ true
    or_right a b c k e = ground arith

module _ {W C : Type 0} where
  given_up_over :
      (clock : ℕ → ℕ) (reset_jobs : Bool) (r : JobRow) (x : Rescheduling C) (s : Wms W)
      (o : Option OperationsConfig)
      → is_over reset_jobs r o ≡ true
      → (get_or_raise key_error o >>= λ ops. pure (
            if ltb ops.max_rescheduling (new_counter reset_jobs r)
            then give_up clock r.job_id x
            else survive r (new_counter reset_jobs r) x))
          s
        ≡ returns (give_up clock r.job_id x) s
  unfolding ◌>>=◌
  given_up_over clock reset_jobs r x s none h = cc
  given_up_over clock reset_jobs r x s (some ops) h = rw h refl

module _ {W C : Type 0} ⦃f : Float W⦄ (dirac : StatusUtility) (jdls : Jdls C) (config : Config)
    (operations : List (String × OperationsConfig)) (clock : ℕ → ℕ) where
  triage_given_up :
      (reset_jobs : Bool) (rows : List JobRow) (x : Rescheduling C) (s : Wms W)
      → all (is_given_up operations reset_jobs) rows ≡ true
      → (y : Rescheduling C) × (triage dirac jdls config operations clock reset_jobs rows x s
          ≡ returns y s)
        × (y.survivors ≡ x.survivors)
        × (y.failed ≡ x.failed ++ job_ids_of rows)
  unfolding triage ◌>>=◌
  triage_given_up reset_jobs [] x s h = (x, refl, refl, sym (append-nil x.failed))
  triage_given_up reset_jobs (r ∷ rows) x s h = elim (Bool-cases (is_verified r)) [
    | inl verified ↦
        let (y, done, same, failed_are) =
          triage_given_up reset_jobs rows (give_up clock r.job_id x) s
            (all-tail (is_given_up operations reset_jobs) r rows h) in
        (
          y,
          rw
              (
                verified,
                given_up_over clock reset_jobs r x s (lookup (text_of (r.columns "VO")) operations)
                    (over_of_given_up operations reset_jobs r rows h verified),
              )
              done,
          same,
          failed_are ∙ append_assoc x.failed (r.job_id ∷ []) (job_ids_of rows),
        )
    | inr not_verified ↦
        let (y, done, same, failed_are) =
          triage_given_up reset_jobs rows (fail r.job_id x) s
            (all-tail (is_given_up operations reset_jobs) r rows h) in
        (
          y,
          rw not_verified done,
          same,
          failed_are ∙ append_assoc x.failed (r.job_id ∷ []) (job_ids_of rows),
        )
  ]

  resume_none :
      (x : Rescheduling C) (s : Wms W)
      → x.survivors ≡ []
      → resume dirac jdls config operations clock x s
        ≡ returns record { failed = x.failed; success = [] } s
  unfolding resume prepare set_rescheduled get_job_jdls on_jobs ◌>>=◌
  resume_none x s h = rw h refl

  -- If each of the given jobs that are found is unverified or over the limit of its VO, then the rescheduling
  -- returns without success and leaves all databases as they are: the jobs are reported as failed, but the status of
  -- a job that is over the limit stays what it was.
  pub reschedule_jobs-exhausted :
      (job_ids : List ℕ) (reset_jobs : Bool) (s : Wms W)
      → all
          (is_given_up operations reset_jobs)
          (select (λ (r : JobRow). is_in job_ids r.job_id) s.jobs.jobs)
        ≡ true
      → reschedule_jobs dirac jdls config operations clock job_ids reset_jobs s
        ≡ returns
            record {
              failed =
                  reported job_ids (select (λ (r : JobRow). is_in job_ids r.job_id) s.jobs.jobs);
              success = [];
            }
            s
  unfolding reschedule_jobs ◌>>=◌
  reschedule_jobs-exhausted job_ids reset_jobs s h =
      let rows = select (λ (r : JobRow). is_in job_ids r.job_id) s.jobs.jobs in
      let (x, done, same, failed_are) =
        triage_given_up reset_jobs rows (not_found job_ids rows) s h in
      rw done (
        resume_none x s (same ∙ no_survivors C job_ids rows)
        ∙ ap (λ (l : List ℕ). returns record { failed = l; success = [] } s)
            (failed_are ∙ failed-not_found C job_ids rows))
