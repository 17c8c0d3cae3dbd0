-- ===== src/TaskQueue/Bounds.antt =====
-- The least share of `calculate_priority` (diracx-logic/src/diracx/logic/task_queues/priority.py).
use diracx.Prelude.{ℕ, String, Bool, some, List, [], ◌∷◌, ◌≡◌, sym, subst, arith, All}
use diracx.Prelude.Outcome.{ok, ok_inj}
use diracx.Prelude.Result.{get_or-eq-ok, >>=-eq-ok}
use diracx.Prelude.Floats.{Float, IsOrdered, ◌≼◌, sum, sum_from}
use diracx.TaskQueue.Dicts.{Fields, find, set_item, append_to}
use diracx.TaskQueue.Shares.{
  tq_min_share, new_prio, update_prios, prios_of, set_all, share_groups, group_by_hash,
  group_by_priority, calculate_priority,
}

module _ {W : Type 0} ⦃f : Float W⦄ (laws : IsOrdered W) where
  -- at least the least share
  abbrev pub Enough : W → Type 0
  Enough prio = tq_min_share ≼ prio

  abbrev EnoughItems : List (ℕ × W) → Type 0
  EnoughItems = All (λ (x : ℕ × W). Enough x.1)

  new_prio-Enough :
      (share total prio : W) (allow : Bool) {p : W}
      → new_prio share total allow prio ≡ ok p
      → Enough p
  new_prio-Enough share total prio allow h = ground (
    arith,
    laws.le_refl tq_min_share,
    laws.le_of_not_lt (f.mul (f.div share total) prio) tq_min_share,
  )

  update_prios-Enough :
      (share total : W) (allow : Bool) (d : List (ℕ × W)) {e : List (ℕ × W)}
      → update_prios share total allow d ≡ ok e
      → EnoughItems e
  unfolding update_prios
  update_prios-Enough share total allow [] h = subst EnoughItems (ok_inj h) tt
  update_prios-Enough share total allow ((i, prio) ∷ d) h =
      let (p, e1, k1) = >>=-eq-ok _ _ h in
      let (rest, e2, k2) = >>=-eq-ok _ _ k1 in
      subst EnoughItems {x = (i, p) ∷ rest} (ok_inj k2)
        (new_prio-Enough share total prio allow e1, update_prios-Enough share total allow d e2)

  find-Enough : (i : ℕ) (d : List (ℕ × W)) {p : W} → EnoughItems d → find i d ≡ some p → Enough p
  find-Enough i [] {p} h e = cc
  find-Enough i ((j, q) ∷ d) {p} h e = ground (arith, find-Enough i d {p = p})

  set_item-Enough :
      (i : ℕ) (p : W) (d : List (ℕ × W)) → EnoughItems d → Enough p → EnoughItems (set_item i p d)
  set_item-Enough i p [] h e = (e, tt)
  set_item-Enough i p ((j, q) ∷ d) h e = ground (arith, set_item-Enough i p d)

  set_all-Enough :
      (ids : List ℕ) (p : W) (d : List (ℕ × W))
      → EnoughItems d
      → Enough p
      → EnoughItems (set_all ids p d)
  unfolding set_all
  set_all-Enough [] p d h e = h
  set_all-Enough (i ∷ ids) p d h e =
      set_all-Enough ids p (set_item i p d) (set_item-Enough i p d h e) e

  prios_of-Enough :
      (d : List (ℕ × W)) (ids : List ℕ) {prios : List W}
      → EnoughItems d
      → prios_of d ids ≡ ok prios
      → All Enough prios
  unfolding prios_of
  prios_of-Enough d [] h e = subst (All Enough) (ok_inj e) tt
  prios_of-Enough d (i ∷ ids) h e =
      let (p, e1, k1) = >>=-eq-ok _ _ e in
      let (rest, e2, k2) = >>=-eq-ok _ _ k1 in
      subst (All Enough) {x = p ∷ rest} (ok_inj k2)
        (find-Enough i d h (get_or-eq-ok _ _ e1), prios_of-Enough d ids h e2)

  sum_from-Enough : (acc : W) (xs : List W) → Enough acc → All Enough xs → Enough (sum_from acc xs)
  sum_from-Enough acc [] e h = e
  sum_from-Enough acc (x ∷ xs) e (hx, h) =
      sum_from-Enough (f.add acc x) xs
        (laws.le-add tq_min_share acc x
          (laws.le_trans (f.of_nat 0) tq_min_share x (laws.ratio_nonneg 1 1000) hx) e)
        h

  sum-Enough : (x : W) (xs : List W) → All Enough (x ∷ xs) → Enough (sum (x ∷ xs))
  sum-Enough x xs (hx, h) =
      sum_from-Enough (f.add (f.of_nat 0) x) xs (subst Enough (sym (laws.zero_add x)) hx) h

  -- the sum over a group that has a member
  group-Enough :
      (d : List (ℕ × W)) (i : ℕ) (ids : List ℕ) {prios : List W}
      → EnoughItems d
      → prios_of d (i ∷ ids) ≡ ok prios
      → Enough (sum prios)
  unfolding prios_of
  group-Enough d i ids h e =
      let (p, e1, k1) = >>=-eq-ok _ _ e in
      let (rest, e2, k2) = >>=-eq-ok _ _ k1 in
      subst (λ prios. Enough (sum prios)) (ok_inj k2)
        (sum-Enough p rest (find-Enough i d h (get_or-eq-ok _ _ e1), prios_of-Enough d ids h e2))

  share_group-Enough :
      (d : List (ℕ × W)) (ids : List ℕ) {prios : List W}
      → EnoughItems d
      → prios_of d ids ≡ ok prios
      → EnoughItems (set_all ids (sum prios) d)
  unfolding set_all
  share_group-Enough d [] h e = h
  share_group-Enough d (i ∷ ids) h e = set_all-Enough (i ∷ ids) _ d h (group-Enough d i ids h e)

  share_groups-Enough :
      (groups : List (String × List ℕ)) (d : List (ℕ × W)) {e : List (ℕ × W)}
      → EnoughItems d
      → share_groups groups d ≡ ok e
      → EnoughItems e
  unfolding share_groups
  share_groups-Enough [] d h e = subst EnoughItems (ok_inj e) h
  share_groups-Enough ((hash, ids) ∷ groups) d h e =
      let (prios, e1, k1) = >>=-eq-ok _ _ e in
      share_groups-Enough groups (set_all ids (sum prios) d) (share_group-Enough d ids h e1) k1

  abbrev pub EnoughKeys : List (W × List ℕ) → Type 0
  EnoughKeys = All (λ (r : W × List ℕ). Enough r.0)

  append_to-Enough :
      (p : W) (i : ℕ) (result : List (W × List ℕ))
      → Enough p
      → EnoughKeys result
      → EnoughKeys (append_to (λ x y. f.eq x y) p i result)
  append_to-Enough p i [] e h = (e, tt)
  append_to-Enough p i ((q, ids) ∷ result) e h = ground (arith, append_to-Enough p i result)

  group_by_priority-Enough :
      (result : List (W × List ℕ)) (d : List (ℕ × W))
      → EnoughKeys result
      → EnoughItems d
      → EnoughKeys (group_by_priority result d)
  unfolding group_by_priority
  group_by_priority-Enough result [] h e = h
  group_by_priority-Enough result ((i, p) ∷ d) h (e, es) =
      group_by_priority-Enough (append_to (λ x y. f.eq x y) p i result) d
        (append_to-Enough p i result e h) es

  -- Whatever the priorities of the queues, their data and the share are, if the computation gives a result then
  -- every priority in it is at least the least share of 0.001, given the laws of the numbers (an order and sums
  -- without NaN).
  pub calculate_priority_bounded :
      (tq_dict : List (ℕ × W)) (all_tqs_data : List (ℕ × Fields)) (share : W) (allow_bg_tqs : Bool)
      {result : List (W × List ℕ)}
      → calculate_priority tq_dict all_tqs_data share allow_bg_tqs ≡ ok result
      → EnoughKeys result
  unfolding calculate_priority
  calculate_priority_bounded tq_dict all_tqs_data share allow_bg_tqs h =
      let (updated, e1, k1) = >>=-eq-ok _ _ h in
      let (shared, e2, k2) = >>=-eq-ok _ _ k1 in
      subst EnoughKeys (ok_inj k2) (
        group_by_priority-Enough [] shared tt (
          share_groups-Enough (group_by_hash [] all_tqs_data) updated
            (update_prios-Enough share _ allow_bg_tqs tq_dict e1) e2))
