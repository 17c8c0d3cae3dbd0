-- ===== src/Auth/Flows/Revocation.antt =====
-- The revocation of refresh tokens by their users (diracx-logic/src/diracx/logic/auth/management.py).
use diracx.Prelude.{String, ◌⊎◌, inl, inr, Bool-cases, ◌≡◌, ◌≢◌, some, [], ◌∷◌, ◌==◌, eq_iff, arith}
use diracx.Prelude.Table.{select, update}
use diracx.Prelude.Outcome.{permission_error, returns, raises, ◌>>=◌}
use diracx.Auth.Db.{RefreshToken, Session, put_refresh_tokens}
use diracx.Auth.Db.Refresh.{
  has_jti, find_refresh_token, get_refresh_token, revoke_refresh_token, revoke,
}
use diracx.Auth.Flows.{revoke_refresh_token_by_jti}

-- Of a stored token, a user who is named by a subject revokes their own, and is refused on anybody else's without any
-- change.
pub revoke_refresh_token_by_jti-owner :
    (subject jti : String) (s : Session) (row : RefreshToken)
    → subject ≢ ""
    → select (has_jti jti) s.db.refresh_tokens ≡ row ∷ []
    → (subject ≡ row.sub)
        × (revoke_refresh_token_by_jti (some subject) jti s
            ≡ returns tt (put_refresh_tokens (update (has_jti jti) revoke s.db.refresh_tokens) s))
      ⊎ (subject ≢ row.sub)
        × (revoke_refresh_token_by_jti (some subject) jti s ≡ raises permission_error s)
unfolding revoke_refresh_token_by_jti get_refresh_token find_refresh_token revoke_refresh_token
    ◌>>=◌
revoke_refresh_token_by_jti-owner subject jti s row named h =
    elim (Bool-cases (subject == row.sub)) [
      | inl own ↦ inl ((eq_iff subject row.sub).0 own, ground (arith, eq_iff subject ""))
      | inr other ↦
          inr (λ own. ground (arith, eq_iff subject row.sub), ground (arith, eq_iff subject ""))
    ]
