-- ===== src/Auth/Scope/Soundness.antt =====
-- What a validated scope grants (`parse_and_validate_scope`).
use diracx.Prelude.{
  String, true, ◌||◌, ◌≡◌, refl, subst, ◌⊎◌, inr, ◌∙◌, List, [], ◌∷◌, ◌++◌, arith, is_empty,
  is_subset, mem, dedup, mem-dedup, mem-append,
}
use diracx.Prelude.Outcome.{ok}
use diracx.Prelude.Result.{require-eq-ok, >>=-eq-ok}
use diracx.Config.{Config, RegistryConfig, GroupConfig, registry_of, group_of}
use diracx.Auth.Scope.{
  ScopeInfo, Requested, requested, select_vo, select_group, validate_request,
  parse_and_validate_scope,
}

-- One known VO, one of its groups or its default group, no unrecognised scope, and the properties
-- that were asked for with those of the group, all of them available.
pub record IsGranted (r : Requested) (config : Config) (available : List String) (info : ScopeInfo)
    : Type 0 where
  pub registry : RegistryConfig
  pub group : GroupConfig
  pub recognised : r.unrecognised ≡ []
  pub one_vo : r.vos ≡ info.vo ∷ []
  pub vo_known : registry_of config info.vo ≡ ok registry
  pub group_known : group_of config info.vo info.group ≡ ok group
  pub group_asked :
      (r.groups ≡ info.group ∷ []) ⊎ ((r.groups ≡ []) × (info.group ≡ registry.default_group))
  pub all_available : is_subset info.properties available ≡ true
  pub properties_granted :
      (p : String) → mem p info.properties ≡ (mem p r.properties || mem p group.properties)

select_vo-eq-ok :
    (vos : List String) (config : Config) {vo : String} {registry : RegistryConfig}
    → select_vo vos config ≡ ok (vo, registry)
    → (vos ≡ vo ∷ []) × (registry_of config vo ≡ ok registry)
unfolding select_vo
select_vo-eq-ok [] config h = cc
select_vo-eq-ok (v ∷ []) config h = ground arith
select_vo-eq-ok (_ ∷ _ ∷ _) config h = cc

select_group-eq-ok :
    (groups : List String) (registry : RegistryConfig) {group : String}
    → select_group groups registry ≡ ok group
    → (groups ≡ group ∷ []) ⊎ ((groups ≡ []) × (group ≡ registry.default_group))
unfolding select_group
select_group-eq-ok [] registry h = inr (refl, cc)
select_group-eq-ok (g ∷ []) registry h = ground arith
select_group-eq-ok (_ ∷ _ ∷ _) registry h = cc

is_empty-eq-nil : (l : List String) → is_empty l ≡ true → l ≡ []
is_empty-eq-nil [] h = refl
is_empty-eq-nil (_ ∷ _) h = cc

validate_request-IsGranted :
    (r : Requested) (config : Config) (available : List String) {info : ScopeInfo}
    → validate_request r config available ≡ ok info
    → IsGranted r config available info
unfolding validate_request
validate_request-IsGranted r config available {info} h =
    let (_, e1, k1) = >>=-eq-ok _ _ h in
    let (chosen, e2, k2) = >>=-eq-ok _ _ k1 in
    let (group, e3, k3) = >>=-eq-ok _ _ k2 in
    let (found, e4, k4) = >>=-eq-ok _ _ k3 in
    let (_, e5, k5) = >>=-eq-ok _ _ k4 in
    let (one, known) = select_vo-eq-ok r.vos config {vo = chosen.0} {registry = chosen.1} e2 in
    let properties = dedup (r.properties ++ found.properties) in
    let granted : ScopeInfo = record { group = group; properties = properties; vo = chosen.0 } in
    let same : granted ≡ info = cc k5 in
    subst (IsGranted r config available) same (record {
      registry = chosen.1;
      group = found;
      recognised = is_empty-eq-nil r.unrecognised (require-eq-ok _ _ e1);
      one_vo = one;
      vo_known = known;
      group_known = e4;
      group_asked = select_group-eq-ok r.groups chosen.1 e3;
      all_available = require-eq-ok _ _ e5;
      properties_granted = λ p.
          mem-dedup p (r.properties ++ found.properties)
          ∙ mem-append p r.properties found.properties;
    })

-- A scope that is accepted has no unrecognised part, names one registered VO and at most one group of it, and grants
-- that group or else the default one, with exactly the requested properties and those of the group, all available.
pub parse_and_validate_scope-IsGranted :
    (scope : String) (config : Config) (available : List String) {info : ScopeInfo}
    → parse_and_validate_scope scope config available ≡ ok info
    → IsGranted (requested scope) config available info
unfolding parse_and_validate_scope
parse_and_validate_scope-IsGranted scope = validate_request-IsGranted (requested scope)
