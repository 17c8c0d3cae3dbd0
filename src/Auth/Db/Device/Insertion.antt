-- ===== src/Auth/Db/Device/Insertion.antt =====
-- The retry loop of `insert_device_flow` (diracx-db/src/diracx/db/sql/auth/db.py).
use diracx.Prelude.{
  ℕ, zero, suc, ◌+◌, String, Bool, true, false, ◌≡◌, refl, sym, subst, List, [], ◌∷◌, ◌++◌, arith,
  Bool-cases, inl, inr,
}
use diracx.Prelude.Table.{exists}
use diracx.Prelude.Outcome.{not_implemented_error, Outcome, returns, raises, ◌>>=◌}
use diracx.Auth.Db.{DeviceFlow, Session, put_device_flows}
use diracx.Auth.Db.Device.{
  Secrets, clashes, new_device_row, insert_device_row, insert_attempts, insert_device_flow,
  max_retry,
}

-- Attempt `i` is refused by the table.
abbrev pub is_refused :
    (String → String) → ℕ → Secrets → String → String → List DeviceFlow → ℕ → Bool
is_refused hash now secrets client_id scope t i =
    exists (clashes (new_device_row hash now secrets client_id scope i)) t

-- The first of `n` attempts from `i` on that the table takes is made, and no other; there is none only if
-- all are refused, and then the table stays as it is.
pub data IsFirstFree (hash : String → String) (now : ℕ) (secrets : Secrets)
    (client_id scope : String) (s : Session)
    : ℕ → ℕ → Outcome Session (String × String) → Type 0 where
  exhausted :
      (i : ℕ) → IsFirstFree hash now secrets client_id scope s 0 i (raises not_implemented_error s)
  taken :
      (n i : ℕ)
      → is_refused hash now secrets client_id scope s.db.device_flows i ≡ false
      → IsFirstFree hash now secrets client_id scope s (suc n) i (
          returns
            ((new_device_row hash now secrets client_id scope i).user_code, secrets.token_urlsafe i)
            (put_device_flows
              (s.db.device_flows ++ new_device_row hash now secrets client_id scope i ∷ [])
              s))
  refused :
      (n i : ℕ) (o : Outcome Session (String × String))
      → is_refused hash now secrets client_id scope s.db.device_flows i ≡ true
      → IsFirstFree hash now secrets client_id scope s n (i + 1) o
      → IsFirstFree hash now secrets client_id scope s (suc n) i o

module _ (hash : String → String) (now : ℕ) (secrets : Secrets) (client_id scope : String)
    (s : Session) where
  attempt-refused :
      (n i : ℕ)
      → is_refused hash now secrets client_id scope s.db.device_flows i ≡ true
      → insert_attempts hash now secrets client_id scope (suc n) i s
        ≡ insert_attempts hash now secrets client_id scope n (i + 1) s
  unfolding insert_attempts insert_device_row ◌>>=◌
  attempt-refused n i h = ground arith

  attempt-taken :
      (n i : ℕ)
      → is_refused hash now secrets client_id scope s.db.device_flows i ≡ false
      → insert_attempts hash now secrets client_id scope (suc n) i s
        ≡ returns
            ((new_device_row hash now secrets client_id scope i).user_code, secrets.token_urlsafe i)
            (put_device_flows
              (s.db.device_flows ++ new_device_row hash now secrets client_id scope i ∷ [])
              s)
  unfolding insert_attempts insert_device_row ◌>>=◌
  attempt-taken n i h = ground arith

  attempt-exhausted :
      (i : ℕ)
      → insert_attempts hash now secrets client_id scope 0 i s ≡ raises not_implemented_error s
  unfolding insert_attempts ◌>>=◌
  attempt-exhausted i = refl

  insert_attempts-IsFirstFree :
      (n i : ℕ)
      → IsFirstFree hash now secrets client_id scope s n i
          (insert_attempts hash now secrets client_id scope n i s)
  insert_attempts-IsFirstFree zero i =
      subst (IsFirstFree hash now secrets client_id scope s 0 i) (sym (attempt-exhausted i))
        (exhausted i)
  insert_attempts-IsFirstFree (suc n) i =
      elim (Bool-cases (is_refused hash now secrets client_id scope s.db.device_flows i)) [
        | inl clash ↦
            subst (IsFirstFree hash now secrets client_id scope s (suc n) i)
              (sym (attempt-refused n i clash))
              (refused n i _ clash (insert_attempts-IsFirstFree n (i + 1)))
        | inr free ↦
            subst (IsFirstFree hash now secrets client_id scope s (suc n) i)
              (sym (attempt-taken n i free)) (taken n i free)
      ]

  -- The insertion of a device flow makes the first of five attempts that the table does not refuse; it
  -- raises NotImplementedError, and stores nothing, only if the table refuses all five.
  pub insert_device_flow-IsFirstFree :
      IsFirstFree hash now secrets client_id scope s max_retry 0
        (insert_device_flow hash now secrets client_id scope s)
  unfolding insert_device_flow
  insert_device_flow-IsFirstFree = insert_attempts-IsFirstFree max_retry 0
