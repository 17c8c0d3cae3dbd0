-- ===== src/Auth/Db/Device.antt =====
-- The methods of `AuthDB` on the table DeviceFlows (diracx-db/src/diracx/db/sql/auth/db.py).
pub mod Insertion
use diracx.Prelude.{
  ℕ, zero, suc, ◌+◌, String, Bool, ◌&&◌, ◌||◌, none, some, [], ◌∷◌, ◌++◌, ◌==◌, nat_eq,
  if◌then◌else◌, map,
}
use diracx.Prelude.Table.{select, update, exists, rowcount}
use diracx.Prelude.Text.{append}
use diracx.Prelude.Outcome.{
  Error, integrity_error, authorization_error, not_implemented_error, returns, raises, Action, pure,
  raise, one, handle, ensure, ◌>>=◌, ◌>>◌,
}
use Prim.Native.Char.{Char}
use diracx.Auth.Db.{
  FlowStatus, pending, ready, is_pending, IdToken, DeviceFlow, Session, put_device_flows, is_fresh,
}

-- What `secrets` draws: the characters of a user code, and the URL-safe tokens.
pub record Secrets : Type 0 where
  pub choice : ℕ → ℕ → Char
  pub token_urlsafe : ℕ → String

abbrev pub max_retry : ℕ
max_retry = 5

abbrev pub user_code_length : ℕ
user_code_length = 8

abbrev pub is_usable_user_code : ℕ → String → ℕ → DeviceFlow → Bool
is_usable_user_code now user_code max_validity r =
    r.user_code == user_code && is_pending r.status && is_fresh now max_validity r.creation_time

unfoldable pub device_flow_validate_user_code : ℕ → String → ℕ → Action Session String
device_flow_validate_user_code now user_code max_validity s =
    one
      (map (λ r. r.scope)
        (select (is_usable_user_code now user_code max_validity) s.db.device_flows))
      s

-- the statement, which gives its `rowcount`
unfoldable pub fill_device_flows : ℕ → String → IdToken → ℕ → Action Session ℕ
fill_device_flows now user_code id_token max_validity s =
    let usable = is_usable_user_code now user_code max_validity in
    returns (rowcount usable s.db.device_flows) (
      put_device_flows
        (update usable (λ r. record r { id_token = some id_token; status = ready })
          s.db.device_flows)
        s)

unfoldable pub device_flow_insert_id_token : ℕ → String → IdToken → ℕ → Action Session (Unit {0})
device_flow_insert_id_token now user_code id_token max_validity = do
  affected ← fill_device_flows now user_code id_token max_validity
  ensure (nat_eq affected 1) authorization_error

-- the primary key and the unique column of the table
abbrev pub clashes : DeviceFlow → DeviceFlow → Bool
clashes new r = r.user_code == new.user_code || r.device_code == new.device_code

unfoldable pub insert_device_row : DeviceFlow → Action Session (Unit {0})
insert_device_row new s =
    if exists (clashes new) s.db.device_flows
    then raises integrity_error s
    else returns tt (put_device_flows (s.db.device_flows ++ new ∷ []) s)

-- `"".join(secrets.choice(USER_CODE_ALPHABET) for _ in range(n))`
draw_user_code : (ℕ → Char) → ℕ → String
draw_user_code choice zero = ""
draw_user_code choice (suc n) = append (draw_user_code choice n) (String.◌∷◌ (choice n) "")

-- `except IntegrityError: continue`
abbrev pub on_integrity_error {ℓ} : {A : Type ℓ} → A → (Error → A) → Error → A
on_integrity_error rest other integrity_error = rest
on_integrity_error rest other e = other e

module _ (hash : String → String) where
  abbrev pub has_device_code : String → DeviceFlow → Bool
  has_device_code device_code r = r.device_code == hash device_code

  unfoldable pub get_device_flow : String → Action Session DeviceFlow
  get_device_flow device_code s = one (select (has_device_code device_code) s.db.device_flows) s

  unfoldable pub update_device_flow_status : String → FlowStatus → Action Session (Unit {0})
  update_device_flow_status device_code status s = returns tt (
      put_device_flows
        (update (has_device_code device_code) (λ r. record r { status = status }) s.db.device_flows)
        s)

  -- the row that attempt `i` inserts
  unfoldable pub new_device_row : ℕ → Secrets → String → String → ℕ → DeviceFlow
  unfolding draw_user_code
  new_device_row now secrets client_id scope i = record {
    user_code = draw_user_code (secrets.choice i) user_code_length;
    status = pending;
    creation_time = now;
    client_id = client_id;
    scope = scope;
    device_code = hash (secrets.token_urlsafe i);
    id_token = none;
  }

  -- the retry loop, with `n` attempts left
  unfoldable pub insert_attempts :
      ℕ → Secrets → String → String → ℕ → ℕ → Action Session (String × String)
  insert_attempts now secrets client_id scope zero i = raise not_implemented_error
  insert_attempts now secrets client_id scope (suc n) i =
      let rest = insert_attempts now secrets client_id scope n (i + 1) in
      let new = new_device_row now secrets client_id scope i in
      handle (insert_device_row new >> pure (new.user_code, secrets.token_urlsafe i))
        (on_integrity_error rest raise)

  unfoldable pub insert_device_flow :
      ℕ → Secrets → String → String → Action Session (String × String)
  unfolding insert_attempts
  insert_device_flow now secrets client_id scope =
      insert_attempts now secrets client_id scope max_retry 0
