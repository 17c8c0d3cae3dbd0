-- ===== src/Auth/Routes/DeviceSpent.antt =====
-- The rows of a device code that was redeemed: they stay done, whatever the routes write.
use diracx.Prelude.{
  String, Bool, true, false, not, ◌||◌, ◌≡◌, refl, ◌∙◌, List, [], ◌∷◌, ◌++◌, ◌==◌, eq_iff, arith,
  Bool-cases, inl, inr, all,
}
use diracx.Prelude.Table.{update, exists}
use diracx.Prelude.Table.Laws.{all-append, all-update, exists-append, exists-update, exists_mono}
use diracx.Auth.Db.{DeviceFlow, FlowStatus, done}
use diracx.Auth.Db.Device.{clashes}
use diracx.Auth.Routes.Tables.{DeviceFacts}

abbrev pub is_done : FlowStatus → Bool
is_done done = true
is_done _ = false

abbrev pub has_hash : String → DeviceFlow → Bool
has_hash h r = r.device_code == h

abbrev pub is_spent_row : String → DeviceFlow → Bool
is_spent_row h r = not (has_hash h r) || is_done r.status

-- The table has a row of the hashed code, and all such rows are done.
pub record IsSpent (h : String) (t : List DeviceFlow) : Type 0 where
  pub stored : exists (has_hash h) t ≡ true
  pub redeemed : all (is_spent_row h) t ≡ true

module _ (h : String) where
  update-IsSpent :
      (p : DeviceFlow → Bool) (f : DeviceFlow → DeviceFlow) (t : List DeviceFlow)
      → ((r : DeviceFlow) → has_hash h (f r) ≡ has_hash h r)
      → ((r : DeviceFlow) → p r ≡ true → is_spent_row h r ≡ true → is_spent_row h (f r) ≡ true)
      → IsSpent h t
      → IsSpent h (update p f t)
  update-IsSpent p f t same keep b = record {
    stored = exists-update (has_hash h) p f t same ∙ b.stored;
    redeemed = all-update (is_spent_row h) p f t keep b.redeemed;
  }

  clash_of_same :
      (new r : DeviceFlow) → has_hash h new ≡ true → has_hash h r ≡ true → clashes new r ≡ true
  clash_of_same new r p q = ground (
    arith,
    eq_iff new.device_code h,
    eq_iff r.device_code h,
    eq_iff r.device_code new.device_code,
  )

  -- the unique column: a row of a stored code is not inserted again
  other_of_no_clash :
      (new : DeviceFlow) (t : List DeviceFlow)
      → exists (clashes new) t ≡ false
      → IsSpent h t
      → has_hash h new ≡ false
  other_of_no_clash new t free b = elim (Bool-cases (has_hash h new)) [
    | inl same ↦
        cc (exists_mono (has_hash h) (clashes new) t (λ r. clash_of_same new r same) b.stored)
    | inr other ↦ other
  ]

  append-IsSpent :
      (new : DeviceFlow) (t : List DeviceFlow)
      → exists (clashes new) t ≡ false
      → IsSpent h t
      → IsSpent h (t ++ new ∷ [])
  append-IsSpent new t free b =
      let other = other_of_no_clash new t free b in
      record {
        stored = ground (arith, exists-append (has_hash h) t (new ∷ []), b.stored);
        redeemed = ground (arith, all-append (is_spent_row h) t (new ∷ []), b.redeemed, other);
      }

  pub IsSpent-facts : (hash : String → String) → DeviceFacts hash (IsSpent h)
  IsSpent-facts hash = record {
    fill =
        λ now user_code id_token v t b. update-IsSpent _ _ t (λ r. refl) (λ r p q. ground arith) b;
    insert = append-IsSpent;
    redeem = λ code t b. update-IsSpent _ _ t (λ r. refl) (λ r p q. ground arith) b;
  }

-- After the redemption the rows of the code are done.
pub redeem_all :
    (p : DeviceFlow → Bool) (h : String) (t : List DeviceFlow)
    → ((r : DeviceFlow) → has_hash h r ≡ true → p r ≡ true)
    → all (is_spent_row h) (update p (λ r. record r { status = done }) t) ≡ true
unfolding update
redeem_all p h [] k = refl
redeem_all p h (r ∷ t) k = ground (arith, k r, redeem_all p h t k)
