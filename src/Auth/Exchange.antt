-- ===== src/Auth/Exchange.antt =====
-- From a validated identity to the payloads of the tokens: `exchange_token`, `create_token`'s choice
-- of a key and `perform_legacy_exchange` (diracx-logic/src/diracx/logic/auth/token.py).
-- Times and durations are in seconds.
pub mod Soundness
use diracx.Prelude.{
  ℕ, ◌+◌, ◌-◌, ◌*◌, String, Bool, true, false, not, Option, none, some, List, [], ◌∷◌, ◌++◌, ◌==◌,
  if◌then◌else◌, is_subset, mem, lookup, has_key,
}
use diracx.Prelude.Text.{append, join}
use diracx.Prelude.Outcome.{
  Error, value_error, key_error, permission_error, not_implemented_error, invalid_credentials_error,
  type_error, Result, ok, err, Action, Outcome, returns, raises, pure, raise, lift, get_or_raise,
  ensure, ◌>>=◌, ◌>>◌,
}
use diracx.Config.{
  Config, RegistryConfig, UserConfig, AuthSettings, registry_of, group_of,
  sub_from_preferred_username,
}
use diracx.Auth.Db.{IdToken, Session}
use diracx.Auth.Db.Refresh.{insert_refresh_token}
use diracx.Auth.Authorize.{authorize}
use diracx.Auth.Scope.{ScopeInfo, parse_and_validate_scope, get_allowed_user_properties}

pub record AccessTokenPayload : Type 0 where
  pub sub : String
  pub vo : String
  pub iss : String
  pub dirac_properties : List String
  pub jti : String
  pub preferred_username : String
  pub dirac_group : String
  pub exp : ℕ

pub record RefreshTokenPayload : Type 0 where
  pub jti : String
  pub exp : ℕ
  pub legacy_exchange : Bool

abbrev pub Payloads : Type 0
Payloads = AccessTokenPayload × Option RefreshTokenPayload

-- the claims of a decoded refresh token
pub record Claims : Type 0 where
  pub jti : String
  pub exp : ℕ
  pub legacy_exchange : Bool

-- What the code computes with other packages: the hash of a code, the PKCE transformation of a
-- verifier, the time that is read off a UUID, and the decoding of a JWT at a time.
pub record Crypto : Type 0 where
  pub hash : String → String
  pub challenge_of : String → Option String
  pub uuid_time : String → ℕ
  pub read_token : ℕ → String → Result Claims

-- What one call reads of the outside: the clock, and the identifiers that `uuid7` draws.
pub record Call : Type 0 where
  pub now : ℕ
  pub refresh_jti : String
  pub access_jti : String

-- the keyword arguments of `exchange_token`
pub record Terms : Type 0 where
  pub refresh_expiry : Option ℕ
  pub legacy_exchange : Bool
  pub include_refresh_token : Bool

abbrev pub expiry_or : ℕ → Option ℕ → ℕ
expiry_or d none = d
expiry_or d (some e) = e

module _ (crypto : Crypto) (call : Call) (config : Config) (settings : AuthSettings)
    (available : List String) where
  unfoldable pub issue_refresh :
      String → String → Terms → Action Session (Option RefreshTokenPayload)
  issue_refresh subject scope terms =
      if terms.include_refresh_token
      then (do
        insert_refresh_token call.refresh_jti subject scope
        pure (
            some (record {
              jti = call.refresh_jti;
              exp =
                  crypto.uuid_time call.refresh_jti
                  + expiry_or (settings.refresh_token_expire_minutes * 60) terms.refresh_expiry;
              legacy_exchange = terms.legacy_exchange;
            })))
      else pure none

  unfoldable pub access_payload : ScopeInfo → String × String → AccessTokenPayload
  access_payload info (subject, preferred_username) = record {
    sub = subject;
    vo = info.vo;
    iss = settings.token_issuer;
    dirac_properties = info.properties;
    jti = call.access_jti;
    preferred_username = preferred_username;
    dirac_group = info.group;
    exp = crypto.uuid_time call.access_jti + settings.access_token_expire_minutes * 60;
  }

  unfoldable pub exchange_token : String → Option IdToken → Terms → Action Session Payloads
  exchange_token scope oidc terms = do
    info ← lift (parse_and_validate_scope scope config available)
    who ← lift (authorize config oidc info)
    refresh ← issue_refresh who.0 scope terms
    pure (access_payload info who, refresh)

  -- `except (KeyError, ValueError) as e: raise ValueError(...)`
  abbrev as_value_error {ℓ} : {A : Type ℓ} → Result A → Result A
  as_value_error (err key_error) = err value_error
  as_value_error r = r

  unfoldable pub legacy_sub : String → String → Result String
  legacy_sub preferred_username scope = elim (parse_and_validate_scope scope config available) [
    | err e ↦ as_value_error (err e)
    | ok info ↦ elim (registry_of config info.vo) [
      | err e ↦ as_value_error (err e)
      | ok registry ↦ as_value_error (sub_from_preferred_username registry preferred_username)
    ]
  ]

  -- `key_of` is the digest of the token in the header, `none` where the header does not match
  -- LEGACY_EXCHANGE_PATTERN
  unfoldable pub perform_legacy_exchange :
      String
      → String
      → String
      → (String → Option String)
      → String
      → Option ℕ
      → Action Session Payloads
  perform_legacy_exchange expected preferred_username scope key_of authorization expiry = do
    key ← get_or_raise value_error (key_of authorization)
    ensure (key == expected) invalid_credentials_error
    sub ← lift (legacy_sub preferred_username scope)
    exchange_token scope (some (("sub", sub) ∷ ("preferred_username", preferred_username) ∷ []))
        (record { refresh_expiry = expiry; legacy_exchange = true; include_refresh_token = true })

-- A key of the key set: its identifier and its `key_ops`, of which a single one counts as a list.
pub record SigningKey : Type 0 where
  pub kid : String
  pub alg : String
  pub key_ops : List String

unfoldable pub signing_key : List SigningKey → Result SigningKey
signing_key [] = err value_error
signing_key (key ∷ keys) =
    let rest = signing_key keys in if mem "sign" key.key_ops then ok key else rest
