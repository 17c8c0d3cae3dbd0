-- ===== src/Auth/Db/Authorization.antt =====
-- The methods of `AuthDB` on the table AuthorizationFlows (diracx-db/src/diracx/db/sql/auth/db.py).
use diracx.Prelude.{
  ℕ, String, Bool, false, ◌&&◌, Option, none, some, [], ◌∷◌, ◌++◌, ◌==◌, nat_eq, if◌then◌else◌,
}
use diracx.Prelude.Table.{select, update, exists, rowcount}
use diracx.Prelude.Outcome.{
  integrity_error, authorization_error, returns, raises, Action, pure, one, ensure, ◌>>=◌, ◌>>◌,
}
use diracx.Auth.Db.{
  FlowStatus, pending, ready, is_pending, IdToken, AuthorizationFlow, Session,
  put_authorization_flows, is_fresh,
}

unfoldable pub insert_authorization_flow :
    ℕ → String → String → String → String → String → String → Action Session String
insert_authorization_flow now uuid client_id scope challenge challenge_method redirect_uri s =
    let new : AuthorizationFlow = record {
      uuid = uuid;
      status = pending;
      client_id = client_id;
      creation_time = now;
      scope = scope;
      code_challenge = challenge;
      code_challenge_method = challenge_method;
      redirect_uri = redirect_uri;
      code = none;
      id_token = none;
    } in
    if exists (λ r. r.uuid == uuid) s.db.authorization_flows
    then raises integrity_error s
    else returns uuid (put_authorization_flows (s.db.authorization_flows ++ new ∷ []) s)

abbrev pub is_usable_uuid : ℕ → String → ℕ → AuthorizationFlow → Bool
is_usable_uuid now uuid max_validity r =
    r.uuid == uuid && is_pending r.status && is_fresh now max_validity r.creation_time

-- SQL's comparison of a nullable column
abbrev pub column_is : Option String → String → Bool
column_is none h = false
column_is (some c) h = c == h

unfoldable pub find_flow : String → Action Session AuthorizationFlow
find_flow uuid s = one (select (λ r. r.uuid == uuid) s.db.authorization_flows) s

module _ (hash : String → String) where
  -- the statement, which gives its `rowcount`
  unfoldable pub fill_authorization_flows : ℕ → String → String → IdToken → ℕ → Action Session ℕ
  fill_authorization_flows now code uuid id_token max_validity s =
      let usable = is_usable_uuid now uuid max_validity in
      returns (rowcount usable s.db.authorization_flows) (
        put_authorization_flows
          (update usable
            (λ r. record r { id_token = some id_token; code = some (hash code); status = ready })
            s.db.authorization_flows)
          s)

  unfoldable pub authorization_flow_insert_id_token :
      ℕ → String → String → IdToken → ℕ → Action Session (String × String)
  authorization_flow_insert_id_token now code uuid id_token max_validity = do
    affected ← fill_authorization_flows now code uuid id_token max_validity
    ensure (nat_eq affected 1) authorization_error
    row ← find_flow uuid
    pure (code, row.redirect_uri)

  abbrev pub has_code : String → AuthorizationFlow → Bool
  has_code code r = column_is r.code (hash code)

  unfoldable pub get_authorization_flow : ℕ → String → ℕ → Action Session AuthorizationFlow
  get_authorization_flow now code max_validity s =
      one
        (select (λ r. has_code code r && is_fresh now max_validity r.creation_time)
          s.db.authorization_flows)
        s

  unfoldable pub update_authorization_flow_status : String → FlowStatus → Action Session (Unit {0})
  update_authorization_flow_status code status s = returns tt (
      put_authorization_flows
        (update (has_code code) (λ r. record r { status = status }) s.db.authorization_flows) s)
