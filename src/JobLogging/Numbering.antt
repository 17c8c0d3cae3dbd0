-- ===== src/JobLogging/Numbering.antt =====
-- The sequence numbers of a bulk insertion (diracx-db/src/diracx/db/sql/job_logging/db.py).
use diracx.Prelude.{
  ℕ, ◌≤◌, false, ◌≡◌, refl, sym, ap, ◌∙◌, List, [], ◌∷◌, ◌++◌, arith, nat_eq, nat_eq_iff,
  Bool-cases, inl, inr,
}
use mathlib.Core.List.{append_assoc, append-nil}
use diracx.Prelude.Table.{exists}
use diracx.Prelude.Table.Laws.{exists-append}
use diracx.Prelude.Outcome.{returns}
use diracx.JobLogging.{
  JobLoggingRecord, LoggingInfo, next_seq, bump, row_of, values, is_key, insert_rows,
  insert_records,
}

-- No row of a job has a number from `seqnums` on.
record IsBelow (seqnums : ℕ → ℕ) (s : List LoggingInfo) : Type 0 where
  at : (j k : ℕ) → seqnums j ≤ k → exists (is_key j k) s ≡ false

next_seq-free : (s : List LoggingInfo) (j k : ℕ) → next_seq s j ≤ k → exists (is_key j k) s ≡ false
unfolding next_seq exists
next_seq-free [] j k h = refl
next_seq-free (r ∷ s) j k h = ground (arith, next_seq-free s j k)

append-IsBelow :
    (seqnums : ℕ → ℕ) (r : JobLoggingRecord) (s : List LoggingInfo)
    → IsBelow seqnums s
    → IsBelow (bump r.job_id seqnums) (s ++ row_of (seqnums r.job_id) r ∷ [])
unfolding exists row_of
append-IsBelow seqnums r s b = record {
  at = λ j k h. elim (Bool-cases (nat_eq j r.job_id)) [
    | inl same ↦
        let e = (nat_eq_iff j r.job_id).0 same in
        let n : seqnums r.job_id ≡ seqnums j = ap seqnums (sym e) in
        ground
          (arith, n, h, b.at j k, exists-append (is_key j k) s (row_of (seqnums r.job_id) r ∷ []))
    | inr other ↦
        ground (arith, h, b.at j k, exists-append (is_key j k) s (row_of (seqnums r.job_id) r ∷ []))
  ];
}

insert_cons :
    (v : LoggingInfo) (vs s : List LoggingInfo)
    → exists (is_key v.job_id v.seq_num) s ≡ false
    → insert_rows (v ∷ vs) s ≡ insert_rows vs (s ++ v ∷ [])
unfolding insert_rows
insert_cons v vs s h = ground arith

insert_rows-returns :
    (seqnums : ℕ → ℕ) (records : List JobLoggingRecord) (s : List LoggingInfo)
    → IsBelow seqnums s
    → insert_rows (values seqnums records) s ≡ returns tt (s ++ values seqnums records)
unfolding values insert_rows row_of
insert_rows-returns seqnums [] s b =
    ap (λ (t : List LoggingInfo). returns tt t) (sym (append-nil s))
insert_rows-returns seqnums (r ∷ records) s b =
    insert_cons (row_of (seqnums r.job_id) r) _ s (b.at r.job_id (seqnums r.job_id) (omega arith))
    ∙ insert_rows-returns (bump r.job_id seqnums) records (s ++ row_of (seqnums r.job_id) r ∷ [])
        (append-IsBelow seqnums r s b)
    ∙ ap (λ (t : List LoggingInfo). returns tt t)
        (append_assoc s (row_of (seqnums r.job_id) r ∷ []) _)

-- The insertion of at least one record never clashes with the primary key, whatever the table holds: it appends one
-- row for each record, in their order.
pub insert_records-returns :
    (r : JobLoggingRecord) (records : List JobLoggingRecord) (s : List LoggingInfo)
    → insert_records (r ∷ records) s ≡ returns tt (s ++ values (next_seq s) (r ∷ records))
unfolding insert_records
insert_records-returns r records s =
    insert_rows-returns (next_seq s) (r ∷ records) s (record { at = next_seq-free s })
