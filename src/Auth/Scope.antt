-- ===== src/Auth/Scope.antt =====
-- `parse_and_validate_scope` and `get_allowed_user_properties`
-- (diracx-logic/src/diracx/logic/auth/utils.py). A Python set is a list without repetitions.
pub mod Soundness
use diracx.Prelude.{
  ℕ, String, Bool, ◌≡◌, refl, Option, none, some, List, [], ◌∷◌, ◌++◌, arith, if◌then◌else◌,
  is_empty, is_subset, mem, dedup, has_key,
}
use diracx.Prelude.Text.{split, after_first}
use diracx.Prelude.Outcome.{Error, value_error, Result, ok, err}
use diracx.Prelude.Result.{require, ◌>>=◌, ◌>>◌}
use diracx.Config.{Config, RegistryConfig, GroupConfig, registry_of, group_of}
use text.Mathlib.Text.{starts_with}

pub record ScopeInfo : Type 0 where
  pub group : String
  pub properties : List String
  pub vo : String

-- the lists that the loop over the scopes fills
pub record Requested : Type 0 where
  pub groups : List String
  pub properties : List String
  pub vos : List String
  pub unrecognised : List String

abbrev pub no_request : Requested
no_request = record { groups = []; properties = []; vos = []; unrecognised = [] }

-- `scope.split(":", 1)[1]` of a scope that has a colon
abbrev value_of : String → String
value_of scope = elim (after_first b':' scope) [ none ↦ "" | some v ↦ v ]

unfoldable pub classify : String → Requested → Requested
unfolding after_first
classify scope r =
    if starts_with scope "group:"
    then record r { groups = value_of scope ∷ r.groups }
    else if starts_with scope "property:"
    then record r { properties = value_of scope ∷ r.properties }
    else if starts_with scope "vo:"
    then record r { vos = value_of scope ∷ r.vos }
    else record r { unrecognised = scope ∷ r.unrecognised }

unfoldable pub classify_all : List String → Requested
unfolding classify
classify_all [] = no_request
classify_all (scope ∷ scopes) = classify scope (classify_all scopes)

unfoldable pub requested : String → Requested
unfolding classify_all split
requested scope = classify_all (dedup (split b' ' scope))

unfoldable pub select_vo : List String → Config → Result (String × RegistryConfig)
unfolding registry_of
select_vo [] config = err value_error
select_vo (_ ∷ _ ∷ _) config = err value_error
select_vo (vo ∷ []) config = elim (registry_of config vo) [
  | ok registry ↦ ok (vo, registry)
  | err _ ↦ err value_error
]

unfoldable pub select_group : List String → RegistryConfig → Result String
select_group [] registry = ok registry.default_group
select_group (_ ∷ _ ∷ _) registry = err value_error
select_group (group ∷ []) registry =
    if has_key group registry.groups then ok group else err value_error

unfoldable pub validate_request : Requested → Config → List String → Result ScopeInfo
unfolding select_vo select_group
validate_request r config available = do
  require (is_empty r.unrecognised) value_error
  (vo, registry) ← select_vo r.vos config
  group ← select_group r.groups registry
  found ← group_of config vo group
  let properties = dedup (r.properties ++ found.properties)
  require (is_subset properties available) value_error
  ok (record { group = group; properties = properties; vo = vo })

unfoldable pub parse_and_validate_scope : String → Config → List String → Result ScopeInfo
unfolding requested validate_request
parse_and_validate_scope scope = validate_request (requested scope)

unfoldable pub collect_properties : String → List (String × GroupConfig) → List String
collect_properties sub [] = []
collect_properties sub ((_, group) ∷ groups) =
    let rest = collect_properties sub groups in
    if mem sub group.users then group.properties ++ rest else rest

unfoldable pub get_allowed_user_properties : Config → String → String → Result (List String)
unfolding collect_properties
get_allowed_user_properties config sub vo = do
  registry ← registry_of config vo
  ok (dedup (collect_properties sub registry.groups))
