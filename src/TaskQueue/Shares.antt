-- ===== src/TaskQueue/Shares.antt =====
-- `calculate_priority` (diracx-logic/src/diracx/logic/task_queues/priority.py). The values of the data of
-- a queue are given by their text, which is all that the code reads of them.
use diracx.Prelude.{ℕ, String, Bool, not, ◌&&◌, List, [], ◌∷◌, ◌==◌, map, mem, if◌then◌else◌}
use diracx.Prelude.Text.{append, join}
use diracx.Prelude.Table.{select}
use diracx.Prelude.Outcome.{key_error, zero_division_error, Result, ok, err}
use diracx.Prelude.Result.{get_or, ◌>>=◌}
use diracx.Prelude.Floats.{Float, sum, max}
use diracx.TaskQueue.Dicts.{Fields, sort_fields, find, set_item, append_to}

-- `"Jobs"`, `"Priority"` and `PRIORITY_IGNORED_FIELDS`
abbrev pub priority_ignored_fields : List String
priority_ignored_fields = "Jobs" ∷ "Priority" ∷ "Sites" ∷ "BannedSites" ∷ []

unfoldable pub tq_hash : Fields → String
unfolding join sort_fields select
tq_hash fields = join "|" (
    map (λ (x : String × String). append x.0 (append ":" x.1))
      (sort_fields
        (select (λ (x : String × String). not (mem x.0 priority_ignored_fields)) fields)))

-- `tq_groups`
unfoldable pub group_by_hash : List (String × List ℕ) → List (ℕ × Fields) → List (String × List ℕ)
unfolding tq_hash
group_by_hash groups [] = groups
group_by_hash groups ((i, fields) ∷ all_tqs_data) =
    group_by_hash (append_to (λ s t. s == t) (tq_hash fields) i groups) all_tqs_data

module _ {W : Type 0} ⦃f : Float W⦄ where
  abbrev pub tq_min_share : W
  tq_min_share = f.ratio 1 1000

  abbrev pub is_background : Bool → W → Bool
  is_background allow_bg_tqs priority = f.le priority (f.ratio 1 10) && allow_bg_tqs

  -- `total_prio`, over the queues that are not in the background
  abbrev pub total_prio : Bool → List (ℕ × W) → W
  total_prio allow_bg_tqs tq_dict =
      sum (select (λ p. not (is_background allow_bg_tqs p)) (map (λ (x : ℕ × W). x.1) tq_dict))

  abbrev pub new_prio : W → W → Bool → W → Result W
  new_prio share total allow_bg_tqs priority =
      if is_background allow_bg_tqs priority
      then ok tq_min_share
      else if f.eq total (f.of_nat 0)
      then err zero_division_error
      else ok (max (f.mul (f.div share total) priority) tq_min_share)

  unfoldable pub update_prios : W → W → Bool → List (ℕ × W) → Result (List (ℕ × W))
  update_prios share total allow_bg_tqs [] = ok []
  update_prios share total allow_bg_tqs ((i, priority) ∷ tq_dict) = do
    prio ← new_prio share total allow_bg_tqs priority
    rest ← update_prios share total allow_bg_tqs tq_dict
    ok ((i, prio) ∷ rest)

  unfoldable pub prios_of : List (ℕ × W) → List ℕ → Result (List W)
  prios_of tq_dict [] = ok []
  prios_of tq_dict (i ∷ ids) = do
    prio ← get_or key_error (find i tq_dict)
    rest ← prios_of tq_dict ids
    ok (prio ∷ rest)

  unfoldable pub set_all : List ℕ → W → List (ℕ × W) → List (ℕ × W)
  set_all [] prio tq_dict = tq_dict
  set_all (i ∷ ids) prio tq_dict = set_all ids prio (set_item i prio tq_dict)

  unfoldable pub share_groups : List (String × List ℕ) → List (ℕ × W) → Result (List (ℕ × W))
  unfolding prios_of set_all
  share_groups [] tq_dict = ok tq_dict
  share_groups ((hash, ids) ∷ groups) tq_dict = do
    prios ← prios_of tq_dict ids
    share_groups groups (set_all ids (sum prios) tq_dict)

  -- `result`
  unfoldable pub group_by_priority : List (W × List ℕ) → List (ℕ × W) → List (W × List ℕ)
  group_by_priority result [] = result
  group_by_priority result ((i, prio) ∷ tq_dict) =
      group_by_priority (append_to (λ x y. f.eq x y) prio i result) tq_dict

  unfoldable pub calculate_priority :
      List (ℕ × W) → List (ℕ × Fields) → W → Bool → Result (List (W × List ℕ))
  unfolding group_by_hash update_prios share_groups group_by_priority select
  calculate_priority tq_dict all_tqs_data share allow_bg_tqs = do
    updated ← update_prios share (total_prio allow_bg_tqs tq_dict) allow_bg_tqs tq_dict
    shared ← share_groups (group_by_hash [] all_tqs_data) updated
    ok (group_by_priority [] shared)
