-- ===== src/Auth/Tests/Sessions.antt =====
-- Runs of single operations of the authentication service in a session.
use diracx.Prelude.{◌≡◌, ◌≢◌, ◌≤◌, ◌<◌, ◌+◌, ◌⊎◌, refl, false, some, [], ◌∷◌}
use diracx.Prelude.Table.{select, update, exists}
use diracx.Prelude.Outcome.{invalid_credentials_error, permission_error, returns, raises, ◌>>=◌}
use diracx.Config.{registry_of, group_of}
use diracx.Auth.Db.{
  AuthDb, Session, ready, done, created, open_session, put_device_flows, put_refresh_tokens,
  put_authorization_flows,
}
use diracx.Auth.Db.Device.{Secrets, has_device_code, insert_device_flow, max_retry}
use diracx.Auth.Db.Device.Insertion.{IsFirstFree, insert_device_flow-IsFirstFree}
use diracx.Auth.Db.Authorization
use diracx.Auth.Db.Authorization.{update_authorization_flow_status}
use diracx.Auth.Db.Refresh.{has_jti, revoke, insert_refresh_token}
use diracx.Auth.Scope.{ScopeInfo, parse_and_validate_scope, get_allowed_user_properties, requested}
use diracx.Auth.Scope.Soundness.{IsGranted, parse_and_validate_scope-IsGranted}
use diracx.Auth.Authorize.{authorize}
use diracx.Auth.Exchange.{Payloads, exchange_token, issue_refresh, access_payload}
use diracx.Auth.Exchange.Soundness.{IsIssued, exchange_token-IsIssued}
use diracx.Auth.Token.{
  authorization_code, first_terms, get_device_flow, redeem_authorization_flow,
  get_authorization_flow, token_info_from_authorization_flow,
}
use diracx.Auth.Token.CodeFlow.{
  IsProved, token_info_from_authorization_flow-IsProved, poll_error, get_device_flow-answers,
}
use diracx.Auth.Flows.{revoke_refresh_token_by_jti}
use diracx.Auth.Flows.Revocation.{revoke_refresh_token_by_jti-owner}
use diracx.Auth.Routes.{serve_all}
use diracx.Auth.Routes.CodeClosed.{IsClosed, serve_all-IsClosed}
use diracx.Auth.Tests.{
  config, crypto, call, settings, available, alice, device_row, code_row, token_row, db, twice,
}

abbrev session : Session
session = open_session db

-- the database after the device code was redeemed
abbrev redeemed : Session
redeemed = put_device_flows (record device_row { status = done } ∷ []) session

get_device_flow-answers_example :
    (device_row.creation_time + 600 < call.now)
      × (get_device_flow crypto call "dc" 600 session ≡ raises invalid_credentials_error session)
    ⊎ (call.now ≤ device_row.creation_time + 600)
      × (device_row.status ≢ ready)
      × (get_device_flow crypto call "dc" 600 session
          ≡ raises (poll_error device_row.status) session)
    ⊎ (call.now ≤ device_row.creation_time + 600)
      × (device_row.status ≡ ready)
      × (get_device_flow crypto call "dc" 600 session
          ≡ returns device_row (
              put_device_flows
                (update
                  (has_device_code crypto.hash "dc")
                  (λ x. record x { status = done })
                  session.db.device_flows)
                session))
unfolding select
get_device_flow-answers_example =
    get_device_flow-answers crypto call "dc" 600 session device_row refl

token_info_from_authorization_flow-IsProved_example :
    IsProved crypto 200 settings "ac" "cli"
      (some "uri")
      "v"
      session
      (some alice, "vo:lhcb")
      (put_authorization_flows (record code_row { status = done } ∷ []) session)
unfolding token_info_from_authorization_flow get_authorization_flow
    Authorization.get_authorization_flow redeem_authorization_flow update_authorization_flow_status
    select update ◌>>=◌
token_info_from_authorization_flow-IsProved_example =
    token_info_from_authorization_flow-IsProved crypto call settings "ac" "cli" (some "uri") "v"
      session refl

revoke_refresh_token_by_jti-owner_example :
    ("lhcb:bob" ≡ token_row.sub)
      × (revoke_refresh_token_by_jti (some "lhcb:bob") "j1" session
          ≡ returns tt
              (put_refresh_tokens (update (has_jti "j1") revoke session.db.refresh_tokens) session))
    ⊎ ("lhcb:bob" ≢ token_row.sub)
      × (revoke_refresh_token_by_jti (some "lhcb:bob") "j1" session
          ≡ raises permission_error session)
unfolding select
revoke_refresh_token_by_jti-owner_example =
    revoke_refresh_token_by_jti-owner "lhcb:bob" "j1" session token_row (λ e. cc) refl

-- draws the letter `A`, and numbered tokens
abbrev secrets : Secrets
secrets = record { choice = λ i n. "A"; token_urlsafe = λ i. "t" }

insert_device_flow-IsFirstFree_example :
    IsFirstFree crypto.hash 200 secrets "cli" "vo:lhcb" session max_retry 0
      (insert_device_flow crypto.hash 200 secrets "cli" "vo:lhcb" session)
insert_device_flow-IsFirstFree_example =
    insert_device_flow-IsFirstFree crypto.hash 200 secrets "cli" "vo:lhcb" session

abbrev granted : ScopeInfo
granted = record { group = "user"; properties = "NormalUser" ∷ []; vo = "lhcb" }

parse_and_validate_scope-IsGranted_example :
    IsGranted (requested "vo:lhcb") config available granted
unfolding parse_and_validate_scope registry_of group_of
parse_and_validate_scope-IsGranted_example =
    parse_and_validate_scope-IsGranted "vo:lhcb" config available refl

abbrev issued : Payloads
issued = (
  record {
    sub = "lhcb:alice";
    vo = "lhcb";
    iss = "iss";
    dirac_properties = "NormalUser" ∷ [];
    jti = "a1";
    preferred_username = "Alice";
    dirac_group = "user";
    exp = 2200;
  },
  some (record { jti = "j2"; exp = 4600; legacy_exchange = false }),
)

abbrev stored : Session
stored =
    put_refresh_tokens
      (token_row
        ∷ record { jti = "j2"; status = created; scope = "vo:lhcb"; sub = "lhcb:alice" }
        ∷ [])
      session

exchange_token-IsIssued_example :
    IsIssued crypto call config settings available "vo:lhcb"
      (some alice)
      first_terms
      issued
      session
      stored
unfolding exchange_token issue_refresh access_payload insert_refresh_token parse_and_validate_scope
    authorize registry_of group_of get_allowed_user_properties exists ◌>>=◌
exchange_token-IsIssued_example =
    exchange_token-IsIssued crypto call config settings available "vo:lhcb" (some alice) first_terms
      session refl

abbrev closed_db : AuthDb
closed_db = record db { authorization_flows = record code_row { status = done } ∷ [] }

serve_all-IsClosed_example :
    IsClosed "u1"
      (serve_all crypto settings closed_db (twice authorization_code)).authorization_flows
unfolding exists
serve_all-IsClosed_example =
    serve_all-IsClosed crypto settings "u1" closed_db (twice authorization_code)
      (record { stored = refl; closed = refl })
