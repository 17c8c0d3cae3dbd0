-- ===== src/Config.antt =====
-- The parts of the configuration that the modelled code reads
-- (diracx-core/src/diracx/core/config/schema.py, diracx-core/src/diracx/core/settings.py).
use diracx.Prelude.{ℕ, String, Bool, List, [], ◌∷◌, ◌==◌, if◌then◌else◌, lookup}
use diracx.Prelude.Outcome.{key_error, Result, ok, err}
use diracx.Prelude.Result.{get_or, ◌>>=◌}

pub record UserConfig : Type 0 where
  pub prefered_username : String

pub record GroupConfig : Type 0 where
  pub job_share : ℕ
  pub properties : List String
  pub users : List String
  pub allow_background_tqs : Bool

pub record RegistryConfig : Type 0 where
  pub default_group : String
  pub users : List (String × UserConfig)
  pub groups : List (String × GroupConfig)

pub record Config : Type 0 where
  pub registry : List (String × RegistryConfig)

-- `config.Registry[vo]`
unfoldable pub registry_of : Config → String → Result RegistryConfig
registry_of config vo = get_or key_error (lookup vo config.registry)

-- `config.Registry[vo].Groups[group]`
unfoldable pub group_of : Config → String → String → Result GroupConfig
unfolding registry_of
group_of config vo group = do
  registry ← registry_of config vo
  get_or key_error (lookup group registry.groups)

find_username : String → List (String × UserConfig) → Result String
find_username name [] = err key_error
find_username name ((sub, user) ∷ users) =
    if user.prefered_username == name then ok sub else find_username name users

unfoldable pub sub_from_preferred_username : RegistryConfig → String → Result String
unfolding find_username
sub_from_preferred_username registry name = find_username name registry.users

-- the parts of `config.Operations[vo].Services`
pub record OperationsConfig : Type 0 where
  pub global_jobs_info : Bool
  pub max_rescheduling : ℕ

pub record AuthSettings : Type 0 where
  pub dirac_client_id : String
  pub allowed_redirects : List String
  pub device_flow_expiration_seconds : ℕ
  pub authorization_flow_expiration_seconds : ℕ
  pub token_issuer : String
  pub access_token_expire_minutes : ℕ
  pub refresh_token_expire_minutes : ℕ
