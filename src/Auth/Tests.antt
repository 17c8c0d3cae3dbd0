-- ===== src/Auth/Tests.antt =====
-- Runs of the authentication service on a small configuration and database.
use diracx.Prelude.{◌≡◌, ◌≤◌, refl, String, false, some, List, [], ◌∷◌, ◌==◌, if◌then◌else◌}
use diracx.Prelude.Table.{select, update, exists}
use diracx.Prelude.Text.{append}
use diracx.Prelude.Outcome.{ok, err, invalid_credentials_error, error_of}
use diracx.Config.{Config, AuthSettings}
use diracx.Auth.Db.{
  AuthDb, DeviceFlow, AuthorizationFlow, RefreshToken, ready, created, IdToken, open_session,
}
use diracx.Auth.Db.Refresh.{revoke}
use diracx.Auth.Exchange.{Crypto, Call, Claims}
use diracx.Auth.Token.{GrantType, device_code, refresh_token, TokenRequest}
use diracx.Auth.Routes.{Route, token, run, serve}
use diracx.Auth.Routes.DeviceOnce.{redemptions, redemptions-le-one}
use diracx.Auth.Routes.RefreshOnce.{rotations, rotations-le-one, rotations-dead, serve-reuse}
mod Sessions

abbrev config : Config
config = record {
  registry =
      (
        "lhcb",
        record {
          default_group = "user";
          users = ("alice", record { prefered_username = "Alice" }) ∷ [];
          groups =
              (
                "user",
                record {
                  job_share = 1000;
                  properties = "NormalUser" ∷ [];
                  users = "alice" ∷ [];
                  allow_background_tqs = false;
                },
              )
              ∷ [];
        },
      )
      ∷ [];
}

abbrev rotating : Claims
rotating = record { jti = "j1"; exp = 5000; legacy_exchange = false }

abbrev crypto : Crypto
crypto = record {
  hash = append "#";
  challenge_of = λ v. some (append "S256-" v);
  uuid_time = λ _. 1000;
  read_token = λ now t. if t == "rt" then ok rotating else err invalid_credentials_error;
}

abbrev call : Call
call = record { now = 200; refresh_jti = "j2"; access_jti = "a1" }

abbrev settings : AuthSettings
settings = record {
  dirac_client_id = "cli";
  allowed_redirects = "uri" ∷ [];
  device_flow_expiration_seconds = 600;
  authorization_flow_expiration_seconds = 300;
  token_issuer = "iss";
  access_token_expire_minutes = 20;
  refresh_token_expire_minutes = 60;
}

abbrev available : List String
available = "NormalUser" ∷ "JobAdministrator" ∷ []

abbrev alice : IdToken
alice = ("sub", "alice") ∷ []

abbrev device_row : DeviceFlow
device_row = record {
  user_code = "ABCD";
  status = ready;
  creation_time = 100;
  client_id = "cli";
  scope = "vo:lhcb";
  device_code = "#dc";
  id_token = some alice;
}

abbrev code_row : AuthorizationFlow
code_row = record {
  uuid = "u1";
  status = ready;
  client_id = "cli";
  creation_time = 100;
  scope = "vo:lhcb";
  code_challenge = "S256-v";
  code_challenge_method = "S256";
  redirect_uri = "uri";
  code = some "#ac";
  id_token = some alice;
}

abbrev token_row : RefreshToken
token_row = record { jti = "j1"; status = created; scope = "vo:lhcb"; sub = "lhcb:alice" }

abbrev db : AuthDb
db = record {
  device_flows = device_row ∷ [];
  authorization_flows = code_row ∷ [];
  refresh_tokens = token_row ∷ [];
}

abbrev request : GrantType → TokenRequest
request grant = record {
  grant_type = grant;
  client_id = "cli";
  device_code = some "dc";
  code = some "ac";
  redirect_uri = some "uri";
  code_verifier = some "v";
  refresh_token = some "rt";
}

-- the two requests of a client that polls twice
abbrev twice : GrantType → List Route
twice grant =
    token config call available (request grant) ∷ token config call available (request grant) ∷ []

redemptions-le-one_example : redemptions crypto settings "#dc" db (twice device_code) ≤ 1
redemptions-le-one_example = redemptions-le-one crypto settings "#dc" db (twice device_code)

rotations-le-one_example : rotations crypto settings "j1" db (twice refresh_token) ≤ 1
rotations-le-one_example = rotations-le-one crypto settings "j1" db (twice refresh_token)

abbrev dead_row : RefreshToken
dead_row = revoke token_row

abbrev dead_db : AuthDb
dead_db = record db { refresh_tokens = dead_row ∷ [] }

rotations-dead_example : rotations crypto settings "j1" dead_db (twice refresh_token) ≡ 0
unfolding exists
rotations-dead_example =
    rotations-dead crypto settings "j1" dead_db (twice refresh_token)
      (record { stored = refl; dead = refl })

serve-reuse_example :
    (error_of (
        run crypto settings
          (token config call available (request refresh_token))
          (open_session dead_db))
      ≡ some invalid_credentials_error)
    × (serve crypto settings dead_db (token config call available (request refresh_token))
        ≡ record dead_db {
          refresh_tokens = update (λ x. x.sub == "lhcb:alice") revoke (dead_row ∷ []);
        })
unfolding select
serve-reuse_example =
    serve-reuse crypto settings config call available (request refresh_token) dead_db "rt" rotating
      dead_row refl refl refl refl refl refl
