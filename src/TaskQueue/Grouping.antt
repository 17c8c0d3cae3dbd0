-- ===== src/TaskQueue/Grouping.antt =====
-- The grouping of the queues by `calculate_priority` (diracx-logic/src/diracx/logic/task_queues/priority.py).
use mathlib.Core.List.{Perm, perm_middle, append-nil}
use mathlib.Core.List.Perm
use diracx.Prelude.{
  ℕ, String, Bool, true, some, List, [], ◌∷◌, ◌++◌, ◌≡◌, refl, sym, ap, ◌∙◌, subst, arith, inl, inr,
  Bool-cases, all, is_in,
}
use diracx.Prelude.Outcome.{ok, ok_inj}
use diracx.Prelude.Result.{get_or-eq-ok, >>=-eq-ok}
use diracx.Prelude.Floats.{Float, sum}
use diracx.TaskQueue.Dicts.{Fields, find, set_item, keys, append_to, members}
use diracx.TaskQueue.Shares.{
  new_prio, update_prios, prios_of, set_all, share_groups, group_by_hash, group_by_priority,
  calculate_priority,
}

module _ {K : Type 0} where
  append_to-perm :
      (eq : K → K → Bool) (k : K) (i : ℕ) (groups : List (K × List ℕ))
      → Perm (members (append_to eq k i groups)) (i ∷ members groups)
  append_to-perm eq k i [] = Perm.rfl
  append_to-perm eq k i ((l, ids) ∷ groups) = elim (Bool-cases (eq l k)) [
    | inl hit ↦ rw hit (
        Perm.append_right (members groups)
          (subst (λ l. Perm (ids ++ i ∷ []) (i ∷ l)) (append-nil ids) (perm_middle ids [])))
    | inr miss ↦ rw miss (
        Perm.trans (Perm.append_left ids (append_to-perm eq k i groups))
          (perm_middle ids (members groups)))
  ]

module _ {W : Type 0} ⦃f : Float W⦄ where
  group_by_priority-perm :
      (result : List (W × List ℕ)) (d : List (ℕ × W))
      → Perm (members (group_by_priority result d)) (members result ++ keys d)
  unfolding group_by_priority
  group_by_priority-perm result [] =
      subst (λ l. Perm (members result) l) (sym (append-nil (members result))) Perm.rfl
  group_by_priority-perm result ((i, p) ∷ d) =
      let eq = λ (x : W) (y : W). f.eq x y in
      Perm.trans (group_by_priority-perm (append_to eq p i result) d) (
        Perm.trans (Perm.append_right (keys d) (append_to-perm eq p i result))
          (Perm.symm (perm_middle (members result) (keys d))))

  keys-set_item :
      (i : ℕ) (p : W) (d : List (ℕ × W)) → is_in (keys d) i ≡ true → keys (set_item i p d) ≡ keys d
  keys-set_item i p [] h = cc
  keys-set_item i p ((j, r) ∷ d) h = ground (arith, keys-set_item i p d)

  keys-set_all :
      (ids : List ℕ) (p : W) (d : List (ℕ × W))
      → all (is_in (keys d)) ids ≡ true
      → keys (set_all ids p d) ≡ keys d
  unfolding set_all
  keys-set_all [] p d h = refl
  keys-set_all (i ∷ ids) p d h =
      let same = keys-set_item i p d (ground arith) in
      keys-set_all ids p (set_item i p d)
        (subst (λ l. all (is_in l) ids ≡ true) (sym same) (ground arith))
      ∙ same

  find_known : (i : ℕ) (d : List (ℕ × W)) {p : W} → find i d ≡ some p → is_in (keys d) i ≡ true
  find_known i [] {p} h = cc
  find_known i ((j, q) ∷ d) {p} h = ground (arith, find_known i d {p = p})

  prios_of_known :
      (d : List (ℕ × W)) (ids : List ℕ) {prios : List W}
      → prios_of d ids ≡ ok prios
      → all (is_in (keys d)) ids ≡ true
  unfolding prios_of
  prios_of_known d [] h = refl
  prios_of_known d (i ∷ ids) h =
      let (p, e1, k1) = >>=-eq-ok _ _ h in
      let (rest, e2, k2) = >>=-eq-ok _ _ k1 in
      let here = find_known i d (get_or-eq-ok _ _ e1) in
      let there = prios_of_known d ids e2 in ground arith

  keys-share_groups :
      (groups : List (String × List ℕ)) (d : List (ℕ × W)) {e : List (ℕ × W)}
      → share_groups groups d ≡ ok e
      → keys e ≡ keys d
  unfolding share_groups
  keys-share_groups [] d h = sym (ap keys (ok_inj h))
  keys-share_groups ((hash, ids) ∷ groups) d h =
      let (prios, e1, k1) = >>=-eq-ok _ _ h in
      keys-share_groups groups (set_all ids (sum prios) d) k1
      ∙ keys-set_all ids (sum prios) d (prios_of_known d ids e1)

  keys-update_prios :
      (share total : W) (allow : Bool) (d : List (ℕ × W)) {e : List (ℕ × W)}
      → update_prios share total allow d ≡ ok e
      → keys e ≡ keys d
  unfolding update_prios
  keys-update_prios share total allow [] h = sym (ap keys (ok_inj h))
  keys-update_prios share total allow ((i, prio) ∷ d) h =
      let (p, e1, k1) = >>=-eq-ok (new_prio share total allow prio) _ h in
      let (rest, e2, k2) = >>=-eq-ok _ _ k1 in
      sym (ap keys (ok_inj {a = (i, p) ∷ rest} k2))
      ∙ ap (λ l. i ∷ l) (keys-update_prios share total allow d e2)

  -- If the computation gives a result, then its groups together hold exactly the queues whose priorities are
  -- given, each as often as it is given: no queue is lost and none is in two groups.
  pub calculate_priority-perm :
      (tq_dict : List (ℕ × W)) (all_tqs_data : List (ℕ × Fields)) (share : W) (allow_bg_tqs : Bool)
      {result : List (W × List ℕ)}
      → calculate_priority tq_dict all_tqs_data share allow_bg_tqs ≡ ok result
      → Perm (members result) (keys tq_dict)
  unfolding calculate_priority
  calculate_priority-perm tq_dict all_tqs_data share allow_bg_tqs h =
      let (updated, e1, k1) = >>=-eq-ok _ _ h in
      let (shared, e2, k2) = >>=-eq-ok _ _ k1 in
      let same =
        keys-share_groups (group_by_hash [] all_tqs_data) updated e2
        ∙ keys-update_prios share _ allow_bg_tqs tq_dict e1 in
      subst (λ result. Perm (members result) (keys tq_dict)) (ok_inj k2)
        (subst (λ l. Perm (members (group_by_priority [] shared)) l) same
          (group_by_priority-perm [] shared))
