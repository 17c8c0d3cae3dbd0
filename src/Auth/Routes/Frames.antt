-- ===== src/Auth/Routes/Frames.antt =====
-- Every route keeps every invariant of the database.
use diracx.Prelude.{ℕ, String, Option, List, [], ◌∷◌}
use diracx.Prelude.Keeps.{Keeps, keeps_rules}
use diracx.Config.{Config, AuthSettings}
use diracx.Auth.Db.{AuthDb, Session, open_session}
use diracx.Auth.Db.Device.{Secrets}
use diracx.Auth.Exchange.{Crypto}
use diracx.Auth.Flows.{
  Iam, initiate_authorization_flow_with_iam, initiate_device_flow, do_device_flow, token_from_state,
  finish_device_flow, initiate_authorization_flow, complete_authorization_flow, get_refresh_tokens,
  revoke_refresh_token_by_jti, revoke_refresh_token_by_refresh_token,
}
use diracx.Auth.Routes.{
  Route, token, legacy_exchange, initiate_device, do_device, finish_device, initiate_authorization,
  complete_authorization, list_refresh_tokens, revoke_by_jti, revoke_by_token, run, serve,
  serve_all,
}
use diracx.Auth.Routes.Invariant.{Both, IsInvariant, finish-Both, reads}
use diracx.Auth.Routes.TokenFrames.{
  insert_device_flow-Keeps, fill_device-Keeps, fill_authorization-Keeps, legacy-Keeps,
  get_oidc_token-Keeps,
}

module _ (crypto : Crypto) {P : Session → Type 0} (inv : IsInvariant crypto.hash P) where
  module _ (iam : Iam) (config : Config) (settings : AuthSettings) where
    to_iam-Keeps :
        (vo uri : String) (state : List (String × String))
        → Keeps P (initiate_authorization_flow_with_iam crypto iam config settings vo uri state)
    unfolding initiate_authorization_flow_with_iam
    to_iam-Keeps vo uri state = search keeps_rules depth 8

    from_state-Keeps :
        (grant url code state : String)
        → Keeps P (token_from_state crypto iam config settings grant url code state)
    unfolding token_from_state
    from_state-Keeps grant url code state = search keeps_rules depth 14

    initiate_device-Keeps :
        (now : ℕ) (secrets : Secrets) (available : List String) (client scope uri : String)
        → Keeps P
            (initiate_device_flow crypto iam config settings now secrets available client scope uri)
    unfolding initiate_device_flow
    initiate_device-Keeps now secrets available client scope uri =
        search (keeps_rules, insert_device_flow-Keeps crypto inv) depth 10

    do_device-Keeps :
        (now : ℕ) (available : List String) (url user_code : String)
        → Keeps P (do_device_flow crypto iam config settings now available url user_code)
    unfolding do_device_flow
    do_device-Keeps now available url user_code = search (keeps_rules, reads, to_iam-Keeps) depth 8

    finish_device-Keeps :
        (now : ℕ) (url code state : String)
        → Keeps P (finish_device_flow crypto iam config settings now url code state)
    unfolding finish_device_flow
    finish_device-Keeps now url code state =
        search (keeps_rules, from_state-Keeps, fill_device-Keeps crypto inv) depth 8

    initiate_authorization-Keeps :
        (now : ℕ) (uuid : String) (available : List String)
        (url challenge method client uri scope state : String)
        → Keeps P (
            initiate_authorization_flow crypto iam config settings now uuid available url challenge
              method client uri scope state)
    unfolding initiate_authorization_flow
    initiate_authorization-Keeps now uuid available url challenge method client uri scope state =
        search (keeps_rules, to_iam-Keeps, inv.on_insert_authorization) depth 10

    complete_authorization-Keeps :
        (now : ℕ) (fresh code state url : String)
        → Keeps P (complete_authorization_flow crypto iam config settings now fresh code state url)
    unfolding complete_authorization_flow
    complete_authorization-Keeps now fresh code state url =
        search (keeps_rules, from_state-Keeps, fill_authorization-Keeps crypto inv) depth 10

  revoke_by_jti-Keeps :
      (subject : Option String) (jti : String) → Keeps P (revoke_refresh_token_by_jti subject jti)
  unfolding revoke_refresh_token_by_jti
  revoke_by_jti-Keeps subject jti = search (keeps_rules, reads, inv.on_revoke) depth 8

  revoke_by_token-Keeps :
      (now : ℕ) (subject : Option String) (refresh : String)
      → Keeps P (revoke_refresh_token_by_refresh_token crypto now subject refresh)
  unfolding revoke_refresh_token_by_refresh_token
  revoke_by_token-Keeps now subject refresh = search (keeps_rules, revoke_by_jti-Keeps)

  list-Keeps : (subject : Option String) → Keeps P (get_refresh_tokens subject)
  unfolding get_refresh_tokens
  list-Keeps subject = search reads

  -- Every route keeps an invariant, whether it returns or raises.
  pub run-Keeps : (settings : AuthSettings) (r : Route) → Keeps P (run crypto settings r)
  unfolding run
  run-Keeps settings (token _ _ _ _) = search (keeps_rules, get_oidc_token-Keeps crypto inv)
  run-Keeps settings (legacy_exchange _ _ _ _ _ _ _ _ _) =
      search (keeps_rules, legacy-Keeps crypto inv)
  run-Keeps settings (initiate_device _ _ _ _ _ _ _ _) = search (keeps_rules, initiate_device-Keeps)
  run-Keeps settings (do_device _ _ _ _ _ _) = search (keeps_rules, do_device-Keeps)
  run-Keeps settings (finish_device _ _ _ _ _ _) = search (keeps_rules, finish_device-Keeps)
  run-Keeps settings (initiate_authorization _ _ _ _ _ _ _ _ _ _ _ _) =
      search (keeps_rules, initiate_authorization-Keeps)
  run-Keeps settings (complete_authorization _ _ _ _ _ _ _) =
      search (keeps_rules, complete_authorization-Keeps)
  run-Keeps settings (list_refresh_tokens _) = search (keeps_rules, list-Keeps)
  run-Keeps settings (revoke_by_jti _ _) = search (keeps_rules, revoke_by_jti-Keeps)
  run-Keeps settings (revoke_by_token _ _ _) = search (keeps_rules, revoke_by_token-Keeps)

module _ (crypto : Crypto) (settings : AuthSettings) (P : AuthDb → Type 0)
    (inv : IsInvariant crypto.hash (Both P)) where
  pub serve-Keeps : (db : AuthDb) (r : Route) → P db → P (serve crypto settings db r)
  unfolding serve
  serve-Keeps db r h =
      finish-Both P (run crypto settings r (open_session db))
        ((run-Keeps crypto inv settings r).at (open_session db) (h, h))

  pub serve_all-Keeps : (db : AuthDb) (rs : List Route) → P db → P (serve_all crypto settings db rs)
  unfolding serve_all
  serve_all-Keeps db [] h = h
  serve_all-Keeps db (r ∷ rs) h =
      serve_all-Keeps (serve crypto settings db r) rs (serve-Keeps db r h)
