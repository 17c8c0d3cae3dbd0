-- ===== src/Auth/Routes/DeviceRedeemed.antt =====
-- What the token endpoint has checked when it redeems a device code.
use diracx.Prelude.{
  ℕ, ◌+◌, ◌≤◌, String, ◌≡◌, ◌≢◌, refl, sym, ap, subst, ◌∙◌, some, List, [], ◌∷◌, eq_iff, arith,
  some_inj,
}
use mathlib.Core.Path.{subst₂}
use diracx.Prelude.Table.{select, update}
use diracx.Prelude.Table.Laws.{exists-update, select-head, exists-select}
use diracx.Prelude.Outcome.{
  returns, ◌>>=◌, >>=-eq-returns, ensure-eq-returns, pure-eq-returns, get_or_raise-eq-returns,
}
use diracx.Prelude.Keeps.{Keeps-returns}
use diracx.Config.{Config, AuthSettings}
use diracx.Auth.Db.{Session, DeviceFlow, ready, done, put_device_flows}
use diracx.Auth.Db.Device
use diracx.Auth.Db.Device.{
  is_usable_user_code, fill_device_flows, clashes, insert_device_row, update_device_flow_status,
  has_device_code,
}
use diracx.Auth.Exchange.{Crypto, Call, Terms, Payloads}
use diracx.Auth.Token.{
  TokenRequest, GrantType, device_code, authorization_code, refresh_token, get_device_flow,
  redeem_device_flow, TokenInfo, token_info, token_info_from_device_flow, get_oidc_token,
}
use diracx.Auth.Routes.Tables.Device.{device-Live}
use diracx.Auth.Routes.TokenFrames.{exchange_token-Keeps}
use diracx.Auth.Routes.DeviceSpent.{is_spent_row, IsSpent, IsSpent-facts, redeem_all}

-- What a redemption has checked, and its effect.
pub record IsRedeemed (crypto : Crypto) (now : ℕ) (code : String) (v : ℕ) (s : Session)
    (r : DeviceFlow) (s' : Session) : Type 0 where
  pub unique : select (has_device_code crypto.hash code) s.db.device_flows ≡ r ∷ []
  pub fresh : now ≤ r.creation_time + v
  pub was_ready : r.status ≡ ready
  pub effect :
      s'
      ≡ put_device_flows
          (update
            (has_device_code crypto.hash code)
            (λ r. record r { status = done })
            s.db.device_flows)
          s

module _ (crypto : Crypto) (call : Call) where
  -- A device code is redeemed only if its hash is that of one stored row, which is not expired and was ready; the
  -- redemption marks the row as done and changes nothing else.
  pub get_device_flow-IsRedeemed :
      (code : String) (v : ℕ) (s : Session) {r : DeviceFlow} {s' : Session}
      → get_device_flow crypto call code v s ≡ returns r s'
      → IsRedeemed crypto call.now code v s r s'
  unfolding get_device_flow Device.get_device_flow redeem_device_flow update_device_flow_status
      ◌>>=◌
  get_device_flow-IsRedeemed code v s h = record {
    unique = ground arith;
    fresh = ground arith;
    was_ready = ground arith;
    effect = ground arith;
  }

  IsSpent-of_IsRedeemed :
      (code : String) (v : ℕ) (s : Session) (r : DeviceFlow) (s' : Session)
      → IsRedeemed crypto call.now code v s r s'
      → IsSpent (crypto.hash code) s'.db.device_flows
  IsSpent-of_IsRedeemed code v s r s' b = rw b.effect (record {
    stored =
        exists-update (has_device_code crypto.hash code) (has_device_code crypto.hash code)
          (λ r. record r { status = done }) s.db.device_flows (λ r. refl)
        ∙ exists-select _ s.db.device_flows r [] b.unique;
    redeemed = redeem_all _ (crypto.hash code) s.db.device_flows (λ r p. p);
  })

  module _ (settings : AuthSettings) where
    abbrev validity : ℕ
    validity = settings.device_flow_expiration_seconds

    device_info-inv :
        (code client : String) (s : Session) {f : TokenInfo} {s' : Session}
        → token_info_from_device_flow crypto call settings code client s ≡ returns f s'
        → (r : DeviceFlow) × IsRedeemed crypto call.now code validity s r s'
          × (r.client_id ≡ client)
          × ((r.id_token, r.scope) ≡ f)
    unfolding token_info_from_device_flow
    device_info-inv code client s h =
        let (r, s1, e1, k1) = >>=-eq-returns _ _ s h in
        let (_, s2, e2, k2) = >>=-eq-returns _ _ s1 k1 in
        let (_, s3, e3, k3) = >>=-eq-returns _ _ s2 k2 in
        let (client_ok, p1) = ensure-eq-returns _ _ s1 e2 in
        let (_, p2) = ensure-eq-returns _ _ s2 e3 in
        let (it, p3) = pure-eq-returns _ s3 k3 in
        (
          r,
          subst (λ (z : Session). IsRedeemed crypto call.now code validity s r z) (p1 ∙ p2 ∙ p3)
              (get_device_flow-IsRedeemed code validity s e1),
          (eq_iff r.client_id client).0 client_ok,
          it,
        )

    -- The token endpoint with a device code: what was checked when it returns.
    pub token_info-inv :
        (grant : GrantType) (r : TokenRequest) (s : Session) {f : TokenInfo × Terms} {s' : Session}
        → grant ≡ device_code
        → token_info crypto call settings grant r s ≡ returns f s'
        → (code : String) × (row : DeviceFlow) × (r.device_code ≡ some code)
          × IsRedeemed crypto call.now code validity s row s'
          × (row.client_id ≡ r.client_id)
          × ((row.id_token, row.scope) ≡ f.0)
    unfolding token_info
    token_info-inv authorization_code r s g h = cc
    token_info-inv refresh_token r s g h = cc
    token_info-inv device_code r s {f} {s'} g h =
        let (code, s0, e0, k0) = >>=-eq-returns _ _ s h in
        let (info, s1, e1, k1) = >>=-eq-returns _ _ s0 k0 in
        let (given, p0) = get_or_raise-eq-returns _ _ s e0 in
        let (it, p1) = pure-eq-returns _ s1 k1 in
        let (row, redeemed, client, fields) = device_info-inv code r.client_id s0 e1 in
        (
          code,
          row,
          given,
          subst₂ (λ (y z : Session). IsRedeemed crypto call.now code validity y row z) (sym p0) p1
              redeemed,
          client,
          fields ∙ ap (λ (q : TokenInfo × Terms). q.0) it,
        )

    pub get_oidc_token-redeems :
        (config : Config) (available : List String) (r : TokenRequest) (s : Session) {p : Payloads}
        {s' : Session}
        → r.grant_type ≡ device_code
        → get_oidc_token crypto call settings config available r s ≡ returns p s'
        → (code : String) × (r.device_code ≡ some code)
          × IsSpent (crypto.hash code) s'.db.device_flows
    unfolding get_oidc_token
    get_oidc_token-redeems config available r s g h =
        let (found, s1, e1, e2) = >>=-eq-returns _ _ s h in
        let (code, row, c, redeemed, _, _) = token_info-inv r.grant_type r s g e1 in
        (
          code,
          c,
          Keeps-returns (λ (z : Session). IsSpent (crypto.hash code) z.db.device_flows) _ s1
              (exchange_token-Keeps crypto
                (device-Live crypto.hash _ (IsSpent-facts (crypto.hash code) crypto.hash)) call
                settings config available _ _ _)
              e2 (IsSpent-of_IsRedeemed code _ s row s1 redeemed),
        )

    not-IsRedeemed_of_IsSpent :
        (code : String) (s : Session) (row : DeviceFlow) (s' : Session)
        → IsSpent (crypto.hash code) s.db.device_flows
        → ¬ IsRedeemed crypto call.now code validity s row s'
    not-IsRedeemed_of_IsSpent code s row s' b d =
        let (hit, spent) =
          select-head (is_spent_row (crypto.hash code)) _ s.db.device_flows row [] b.redeemed
            d.unique in
        ground (arith, d.was_ready)

    -- a code whose row is done yields nothing
    pub get_oidc_token-spent :
        (config : Config) (available : List String) (r : TokenRequest) (code : String) (s : Session)
        {p : Payloads} {s' : Session}
        → r.grant_type ≡ device_code
        → r.device_code ≡ some code
        → IsSpent (crypto.hash code) s.db.device_flows
        → get_oidc_token crypto call settings config available r s ≢ returns p s'
    unfolding get_oidc_token
    get_oidc_token-spent config available r code s g c b h =
        let (found, s1, e1, e2) = >>=-eq-returns _ _ s h in
        let (code', row, c', redeemed, _, _) = token_info-inv r.grant_type r s g e1 in
        not-IsRedeemed_of_IsSpent code' s row s1
          (subst (λ (z : String). IsSpent (crypto.hash z) s.db.device_flows)
            (some_inj _ _ (sym c ∙ c')) b)
          redeemed
