-- ===== src/Auth/Routes/Tables/Device.antt =====
-- Invariants of the table DeviceFlows.
use diracx.Prelude.{String, List, Bool-cases, inl, inr, ◌==◌}
use diracx.Prelude.Table.{exists}
use diracx.Auth.Db.{DeviceFlow, commit}
use diracx.Auth.Db.Device.{fill_device_flows, insert_device_row, update_device_flow_status, clashes}
use diracx.Auth.Db.Authorization.{
  insert_authorization_flow, fill_authorization_flows, update_authorization_flow_status,
}
use diracx.Auth.Db.Refresh.{
  insert_refresh_token, revoke_refresh_token, revoke_user_refresh_tokens, has_jti,
}
use diracx.Auth.Routes.Invariant.{Both, Live, IsInvariant}
use diracx.Auth.Routes.Tables.{DeviceFacts}

module _ (hash : String → String) (Q : List DeviceFlow → Type 0) where
  pub device-Both : DeviceFacts hash Q → IsInvariant hash (Both (λ db. Q db.device_flows))
  unfolding commit insert_device_row fill_device_flows update_device_flow_status
      insert_authorization_flow fill_authorization_flows update_authorization_flow_status
      insert_refresh_token revoke_refresh_token revoke_user_refresh_tokens
  device-Both facts = record {
    on_commit = record { at = λ s h. (h.0, h.0) };
    on_fill_device = λ now user_code id_token v. record {
      at = λ s h. (facts.fill now user_code id_token v s.db.device_flows h.0, h.1);
    };
    on_insert_device = λ new. record {
      at = λ s h. elim (Bool-cases (exists (clashes new) s.db.device_flows)) [
        | inl clash ↦ rw clash h
        | inr free ↦ rw free ((facts.insert new s.db.device_flows free h.0, h.1))
      ];
    };
    on_redeem_device =
        λ code. record { at = λ s h. (facts.redeem code s.db.device_flows h.0, h.1) };
    on_insert_authorization = λ now uuid client scope challenge method uri. record {
      at = λ s h. elim (Bool-cases (exists (λ r. r.uuid == uuid) s.db.authorization_flows)) [
        | inl clash ↦ rw clash h
        | inr free ↦ rw free (h)
      ];
    };
    on_fill_authorization = λ now code uuid id_token v. record { at = λ s h. h };
    on_redeem_authorization = λ code. record { at = λ s h. h };
    on_insert_refresh = λ jti subject scope. record {
      at = λ s h. elim (Bool-cases (exists (has_jti jti) s.db.refresh_tokens)) [
        | inl clash ↦ rw clash h
        | inr free ↦ rw free (h)
      ];
    };
    on_revoke = λ jti. record { at = λ s h. h };
    on_revoke_user = λ subject. record { at = λ s h. h };
  }

  pub device-Live : DeviceFacts hash Q → IsInvariant hash (Live (λ db. Q db.device_flows))
  unfolding commit insert_device_row fill_device_flows update_device_flow_status
      insert_authorization_flow fill_authorization_flows update_authorization_flow_status
      insert_refresh_token revoke_refresh_token revoke_user_refresh_tokens
  device-Live facts = record {
    on_commit = record { at = λ s h. h };
    on_fill_device = λ now user_code id_token v. record {
      at = λ s h. facts.fill now user_code id_token v s.db.device_flows h;
    };
    on_insert_device = λ new. record {
      at = λ s h. elim (Bool-cases (exists (clashes new) s.db.device_flows)) [
        | inl clash ↦ rw clash h
        | inr free ↦ rw free (facts.insert new s.db.device_flows free h)
      ];
    };
    on_redeem_device = λ code. record { at = λ s h. facts.redeem code s.db.device_flows h };
    on_insert_authorization = λ now uuid client scope challenge method uri. record {
      at = λ s h. elim (Bool-cases (exists (λ r. r.uuid == uuid) s.db.authorization_flows)) [
        | inl clash ↦ rw clash h
        | inr free ↦ rw free (h)
      ];
    };
    on_fill_authorization = λ now code uuid id_token v. record { at = λ s h. h };
    on_redeem_authorization = λ code. record { at = λ s h. h };
    on_insert_refresh = λ jti subject scope. record {
      at = λ s h. elim (Bool-cases (exists (has_jti jti) s.db.refresh_tokens)) [
        | inl clash ↦ rw clash h
        | inr free ↦ rw free (h)
      ];
    };
    on_revoke = λ jti. record { at = λ s h. h };
    on_revoke_user = λ subject. record { at = λ s h. h };
  }
