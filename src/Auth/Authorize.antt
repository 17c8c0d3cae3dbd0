-- ===== src/Auth/Authorize.antt =====
-- The checks of `exchange_token` on a subject (diracx-logic/src/diracx/logic/auth/token.py).
use diracx.Prelude.{
  String, true, ◌≡◌, refl, sym, subst, ◌∙◌, ◌&&◌, Option, some, List, [], ◌∷◌, arith, any,
  is_subset, mem, dedup, mem-is_subset, mem-dedup, mem-append, lookup,
}
use diracx.Prelude.Text.{append}
use diracx.Prelude.Outcome.{
  key_error, permission_error, not_implemented_error, type_error, Result, ok, ok_inj,
}
use diracx.Prelude.Result.{require, require-eq-ok, get_or, get_or-eq-ok, ◌>>=◌, ◌>>◌, >>=-eq-ok}
use diracx.Config.{Config, RegistryConfig, GroupConfig, UserConfig, registry_of, group_of}
use diracx.Auth.Db.{IdToken}
use diracx.Auth.Scope.{ScopeInfo, collect_properties, get_allowed_user_properties}

-- `f"{vo}:{sub}"`
abbrev pub dirac_sub : String → String → String
dirac_sub vo sub = append vo (append ":" sub)

-- the merged subject and the user's name, if every check passes
unfoldable pub authorize : Config → Option IdToken → ScopeInfo → Result (String × String)
authorize config oidc_token_info info = do
  oidc ← get_or type_error oidc_token_info
  sub ← get_or key_error (lookup "sub" oidc)
  registry ← registry_of config info.vo
  user ← get_or not_implemented_error (lookup sub registry.users)
  group ← group_of config info.vo info.group
  require (mem sub group.users) permission_error
  allowed ← get_allowed_user_properties config sub info.vo
  require (is_subset info.properties allowed) permission_error
  ok (dirac_sub info.vo sub, user.prefered_username)

-- The subject is a registered user of the VO and a member of the group, whose groups have every
-- property that the scope grants: each of the properties is one of a group that the user is a member of.
pub record IsAuthorized (config : Config) (oidc : Option IdToken) (info : ScopeInfo)
    (subject name : String) : Type 0 where
  pub claims : IdToken
  pub sub : String
  pub registry : RegistryConfig
  pub user : UserConfig
  pub group : GroupConfig
  pub allowed : List String
  pub has_claims : oidc ≡ some claims
  pub has_sub : lookup "sub" claims ≡ some sub
  pub subject_is : dirac_sub info.vo sub ≡ subject
  pub vo_known : registry_of config info.vo ≡ ok registry
  pub registered : lookup sub registry.users ≡ some user
  pub name_is : user.prefered_username ≡ name
  pub group_known : group_of config info.vo info.group ≡ ok group
  pub is_member : mem sub group.users ≡ true
  pub allowed_is : get_allowed_user_properties config sub info.vo ≡ ok allowed
  pub has_properties : is_subset info.properties allowed ≡ true
  pub held :
      (p : String)
      → mem p info.properties ≡ true
      → any
          (λ (g : String × GroupConfig). mem sub g.1.users && mem p g.1.properties)
          registry.groups
        ≡ true

-- the properties of the groups that a user is a member of
collected :
    (sub p : String) (groups : List (String × GroupConfig))
    → mem p (collect_properties sub groups)
      ≡ any (λ (g : String × GroupConfig). mem sub g.1.users && mem p g.1.properties) groups
unfolding collect_properties
collected sub p [] = refl
collected sub p ((_, group) ∷ groups) =
    ground
      (arith, collected sub p groups, mem-append p group.properties (collect_properties sub groups))

allowed-held :
    (config : Config) (sub vo p : String) (registry : RegistryConfig) (allowed : List String)
    → registry_of config vo ≡ ok registry
    → get_allowed_user_properties config sub vo ≡ ok allowed
    → mem p allowed ≡ true
    → any (λ (g : String × GroupConfig). mem sub g.1.users && mem p g.1.properties) registry.groups
      ≡ true
unfolding get_allowed_user_properties
allowed-held config sub vo p registry allowed known e h =
    let (r, e1, k1) = >>=-eq-ok (registry_of config vo) _ e in
    let found : mem p (dedup (collect_properties sub r.groups)) ≡ true =
      subst (λ l. mem p l ≡ true) (sym (ok_inj k1)) h in
    subst
      (λ (r : RegistryConfig).
        any (λ (g : String × GroupConfig). mem sub g.1.users && mem p g.1.properties) r.groups
        ≡ true)
      (ok_inj (sym e1 ∙ known))
      (sym (collected sub p r.groups) ∙ sym (mem-dedup p (collect_properties sub r.groups)) ∙ found)

-- A subject is authorized only if it is that of a registered user of the VO and a member of the group, and the
-- user's groups together have all the properties of the scope; it is then named by the VO and the subject.
pub authorize-IsAuthorized :
    (config : Config) (oidc : Option IdToken) (info : ScopeInfo) {who : String × String}
    → authorize config oidc info ≡ ok who
    → IsAuthorized config oidc info who.0 who.1
unfolding authorize
authorize-IsAuthorized config oidc info h =
    let (claims, e1, k1) = >>=-eq-ok _ _ h in
    let (sub, e2, k2) = >>=-eq-ok _ _ k1 in
    let (registry, e3, k3) = >>=-eq-ok _ _ k2 in
    let (user, e4, k4) = >>=-eq-ok _ _ k3 in
    let (group, e5, k5) = >>=-eq-ok _ _ k4 in
    let (_, e6, k6) = >>=-eq-ok _ _ k5 in
    let (allowed, e7, k7) = >>=-eq-ok _ _ k6 in
    let (_, e8, k8) = >>=-eq-ok _ _ k7 in
    record {
      claims = claims;
      sub = sub;
      registry = registry;
      user = user;
      group = group;
      allowed = allowed;
      has_claims = get_or-eq-ok _ _ e1;
      has_sub = get_or-eq-ok _ _ e2;
      subject_is = cc k8;
      vo_known = e3;
      registered = get_or-eq-ok _ _ e4;
      name_is = cc k8;
      group_known = e5;
      is_member = require-eq-ok _ _ e6;
      allowed_is = e7;
      has_properties = require-eq-ok _ _ e8;
      held = λ p asked.
          allowed-held config sub info.vo p registry allowed e3 e7
            (mem-is_subset p info.properties allowed (require-eq-ok _ _ e8) asked);
    }
