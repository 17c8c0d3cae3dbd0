-- ===== src/JobLogging/History.antt =====
-- The histories of jobs (diracx-db/src/diracx/db/sql/job_logging/db.py).
use diracx.Prelude.{
  ℕ, suc, String, Bool, true, not, ◌≡◌, refl, ap, ◌∙◌, List, [], ◌∷◌, ◌==◌, arith, all, length, map,
  Bool-cases, inl, inr, is_in, nat_eq, nat_eq_iff, subst,
}
use diracx.Prelude.Table.{select, rowcount}
use diracx.Prelude.Outcome.{ok, ok_inj}
use diracx.JobLogging.{
  LoggingInfo, JobStatusReturn, insert_ordered, order_rows, as_return, replace_idem, fill_from,
  fill_idem, fill_first, fill_history, is_of, history_of, has_job_status, get_records,
}

abbrev pub is_known : JobStatusReturn → Bool
is_known r = not (r.application_status == "idem")

replace_idem-known :
    (previous s : String)
    → not (previous == "idem") ≡ true
    → not (replace_idem previous s == "idem") ≡ true
replace_idem-known previous s h = elim (Bool-cases (s == "idem")) [
  | inl idem ↦ rw idem h
  | inr other ↦ rw other (ap not other)
]

fill_idem-known :
    (previous : JobStatusReturn) (history : List JobStatusReturn)
    → is_known previous ≡ true
    → all is_known (fill_idem previous history) ≡ true
unfolding fill_idem
fill_idem-known previous [] h = refl
fill_idem-known previous (r ∷ history) h =
    let k : is_known (fill_from previous r) ≡ true = ground arith in
    ground (arith, k, fill_idem-known (fill_from previous r) history)

fill_history-known : (history : List JobStatusReturn) → all is_known (fill_history history) ≡ true
unfolding fill_history
fill_history-known [] = refl
fill_history-known (r ∷ history) =
    let k : is_known (fill_first r) ≡ true =
      replace_idem-known "Unknown" r.application_status refl in
    ground (arith, k, fill_idem-known (fill_first r) history)

length-fill_idem :
    (previous : JobStatusReturn) (history : List JobStatusReturn)
    → length (fill_idem previous history) ≡ length history
unfolding fill_idem
length-fill_idem previous [] = refl
length-fill_idem previous (r ∷ history) = ap suc (length-fill_idem (fill_from previous r) history)

length-fill_history :
    (history : List JobStatusReturn) → length (fill_history history) ≡ length history
unfolding fill_history
length-fill_history [] = refl
length-fill_history (r ∷ history) = ap suc (length-fill_idem (fill_first r) history)

length-insert_ordered :
    (r : LoggingInfo) (rows : List LoggingInfo) → length (insert_ordered r rows) ≡ suc (length rows)
unfolding insert_ordered
length-insert_ordered r [] = refl
length-insert_ordered r (s ∷ rows) = ground (arith, length-insert_ordered r rows)

length-order_rows : (rows : List LoggingInfo) → length (order_rows rows) ≡ length rows
unfolding order_rows
length-order_rows [] = refl
length-order_rows (r ∷ rows) =
    length-insert_ordered r (order_rows rows) ∙ ap suc (length-order_rows rows)

length-map : (rows : List LoggingInfo) → length (map as_return rows) ≡ length rows
length-map [] = refl
length-map (r ∷ rows) = ap suc (length-map rows)

length-select : (p : LoggingInfo → Bool) (s : List LoggingInfo) → length (select p s) ≡ rowcount p s
unfolding select rowcount
length-select p [] = refl
length-select p (r ∷ s) = ground (arith, length-select p s)

-- What the histories of the jobs are, where they are given.
pub record IsHistory (job_ids : List ℕ) (s : List LoggingInfo) (h : ℕ → List JobStatusReturn)
    : Type 0 where
  pub complete : (i : ℕ) → length (h i) ≡ rowcount (is_of job_ids i) s
  pub known : (i : ℕ) → all is_known (h i) ≡ true
  pub valid : (i : ℕ) → is_in job_ids i ≡ true → all has_job_status (h i) ≡ true

length-history_of :
    (job_ids : List ℕ) (s : List LoggingInfo) (i : ℕ)
    → length (history_of job_ids s i) ≡ rowcount (is_of job_ids i) s
unfolding history_of
length-history_of job_ids s i =
    let rows = select (is_of job_ids i) s in
    length-fill_history (map as_return (order_rows rows))
    ∙ length-map (order_rows rows)
    ∙ length-order_rows rows
    ∙ length-select (is_of job_ids i) s

history_of-known :
    (job_ids : List ℕ) (s : List LoggingInfo) (i : ℕ) → all is_known (history_of job_ids s i) ≡ true
unfolding history_of
history_of-known job_ids s i =
    fill_history-known (map as_return (order_rows (select (is_of job_ids i) s)))

-- what holds of all of a list of numbers
all-is_in :
    (p : ℕ → Bool) (ids : List ℕ) (i : ℕ) → all p ids ≡ true → is_in ids i ≡ true → p i ≡ true
all-is_in p [] i h m = cc
all-is_in p (j ∷ ids) i h m = elim (Bool-cases (nat_eq j i)) [
  | inl same ↦ subst (λ k. p k ≡ true) ((nat_eq_iff j i).0 same) (ground arith)
  | inr other ↦ all-is_in p ids i (ground arith) (ground arith)
]

-- The histories of jobs, where they are given: that of a job has one entry for each of its rows, no entry has `idem`
-- as its application status, and the status of each entry of an asked job is one of JobStatus, so that no `idem` is
-- left there either.
pub get_records-known :
    (job_ids : List ℕ) (s : List LoggingInfo) {h : ℕ → List JobStatusReturn}
    → get_records job_ids s ≡ ok h
    → IsHistory job_ids s h
unfolding get_records
get_records-known job_ids s e =
    let p : ℕ → Bool = λ i. all has_job_status (history_of job_ids s i) in
    elim (Bool-cases (all p job_ids)) [
      | inl valid ↦ subst (IsHistory job_ids s) (ok_inj (rw valid at e)) record {
        complete = length-history_of job_ids s;
        known = history_of-known job_ids s;
        valid = λ i m. all-is_in p job_ids i valid m;
      }
      | inr invalid ↦ cc
    ]
