-- ===== src/Auth/Routes/DeviceOnce.antt =====
-- A device code yields tokens once, over any sequence of requests.
use diracx.Prelude.{
  ℕ, suc, ◌≤◌, String, Bool, true, false, ◌&&◌, ◌≡◌, refl, sym, subst, Option, none, some, List, [],
  ◌∷◌, ◌==◌, eq_iff, arith, if◌then◌else◌, Bool-cases, inl, inr, some_inj,
}
use mathlib.Core.Path.{subst₂}
use diracx.Prelude.Outcome.{returns, has_returned, ◌>>=◌, Outcome-cases}
use diracx.Config.{Config, AuthSettings}
use diracx.Auth.Db.{AuthDb, Session, open_session}
use diracx.Auth.Exchange.{Crypto, Call, Payloads}
use diracx.Auth.Token.{TokenRequest, GrantType, device_code, get_oidc_token}
use diracx.Auth.Routes.{Route, token, run, serve}
use diracx.Auth.Routes.Tables.Device.{device-Both}
use diracx.Auth.Routes.Frames.{serve-Keeps}
use diracx.Auth.Routes.DeviceSpent.{IsSpent, IsSpent-facts}
use diracx.Auth.Routes.DeviceRedeemed.{get_oidc_token-redeems, get_oidc_token-spent}

-- Whether a request, in a database, is issued tokens for the device code with the hash `h`.
abbrev is_device_grant : GrantType → Bool
is_device_grant device_code = true
is_device_grant _ = false

abbrev hashes_to : (String → String) → String → Option String → Bool
hashes_to hash h none = false
hashes_to hash h (some code) = hash code == h

module _ (crypto : Crypto) (settings : AuthSettings) (h : String) where
  unfoldable pub redeems : AuthDb → Route → Bool
  redeems db (token config call available r) =
      is_device_grant r.grant_type
      && hashes_to crypto.hash h r.device_code
      && has_returned (get_oidc_token crypto call settings config available r (open_session db))
  redeems db _ = false

  -- how many of the requests, served in order, are issued tokens for it
  unfoldable pub redemptions : AuthDb → List Route → ℕ
  unfolding redeems
  redemptions db [] = 0
  redemptions db (r ∷ rs) =
      let later = redemptions (serve crypto settings db r) rs in
      if redeems db r then suc later else later

  serve-IsSpent :
      (db : AuthDb) (r : Route)
      → IsSpent h db.device_flows
      → IsSpent h (serve crypto settings db r).device_flows
  serve-IsSpent =
      serve-Keeps crypto settings (λ db. IsSpent h db.device_flows)
        (device-Both crypto.hash _ (IsSpent-facts h crypto.hash))

  hash_of_hashes_to :
      (o : Option String) (code : String)
      → hashes_to crypto.hash h o ≡ true
      → o ≡ some code
      → crypto.hash code ≡ h
  hash_of_hashes_to none code p q = cc
  hash_of_hashes_to (some c) code p q =
      subst (λ (z : String). crypto.hash z ≡ h) (some_inj c code q) ((eq_iff (crypto.hash c) h).0 p)

  module _ (config : Config) (call : Call) (available : List String) (r : TokenRequest)
      (db : AuthDb) where
    redeems_facts :
        redeems db (token config call available r) ≡ true
        → (r.grant_type ≡ device_code)
          × (hashes_to crypto.hash h r.device_code ≡ true)
          × (has_returned (get_oidc_token crypto call settings config available r (open_session db))
              ≡ true)
    unfolding redeems
    redeems_facts b = ground arith

    serve-token :
        {p : Payloads} {s' : Session}
        → get_oidc_token crypto call settings config available r (open_session db) ≡ returns p s'
        → serve crypto settings db (token config call available r) ≡ s'.db
    unfolding serve run ◌>>=◌
    serve-token e = ground arith

    token_redeems :
        redeems db (token config call available r) ≡ true
        → IsSpent h (serve crypto settings db (token config call available r)).device_flows
          × ¬ IsSpent h db.device_flows
    token_redeems b =
        let (g, hashed, ok) = redeems_facts b in
        let (p, s', e) = Outcome-cases _ ok in
        let (code, given, spent) =
          get_oidc_token-redeems crypto call settings config available r (open_session db) g e in
        let same = hash_of_hashes_to r.device_code code hashed given in
        (
          subst₂ (λ (x : String) (d : AuthDb). IsSpent x d.device_flows) same (sym (serve-token e))
              spent,
          λ before.
              get_oidc_token-spent crypto call settings config available r code (open_session db) g
                given (subst (λ (x : String). IsSpent x db.device_flows) (sym same) before) e,
        )

  -- A code that was redeemed is not redeemed again.
  redeems-spent : (db : AuthDb) (r : Route) → IsSpent h db.device_flows → redeems db r ≡ false
  unfolding redeems
  redeems-spent db (token config call available r) b =
      elim (Bool-cases (redeems db (token config call available r))) [
        | inl yes' ↦ absurd ((token_redeems config call available r db yes').1 b)
        | inr not' ↦ not'
      ]
  redeems-spent db _ b = refl

  -- A redemption leaves the code spent.
  IsSpent-of_redeems :
      (db : AuthDb) (r : Route)
      → redeems db r ≡ true
      → IsSpent h (serve crypto settings db r).device_flows
  unfolding redeems
  IsSpent-of_redeems db (token config call available r) b =
      (token_redeems config call available r db b).0
  IsSpent-of_redeems db _ b = cc

  redemptions-spent :
      (db : AuthDb) (rs : List Route) → IsSpent h db.device_flows → redemptions db rs ≡ 0
  unfolding redemptions
  redemptions-spent db [] b = refl
  redemptions-spent db (r ∷ rs) b =
      rw (redeems-spent db r b)
        (redemptions-spent (serve crypto settings db r) rs (serve-IsSpent db r b))

  -- Over any sequence of requests, tokens are issued at most once for the device codes with a given hash.
  pub redemptions-le-one : (db : AuthDb) (rs : List Route) → redemptions db rs ≤ 1
  unfolding redemptions
  redemptions-le-one db [] = omega arith
  redemptions-le-one db (r ∷ rs) = elim (Bool-cases (redeems db r)) [
    | inl now ↦ rw now (
        omega
          (arith, redemptions-spent (serve crypto settings db r) rs (IsSpent-of_redeems db r now)))
    | inr other ↦ rw other (redemptions-le-one (serve crypto settings db r) rs)
  ]
