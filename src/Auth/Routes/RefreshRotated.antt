-- ===== src/Auth/Routes/RefreshRotated.antt =====
-- What the token endpoint has checked and written when it exchanges a refresh token.
use mathlib.Core.Path.{subst₂}
use diracx.Prelude.{String, Bool, true, false, ◌≡◌, sym, subst, ◌∙◌, [], ◌∷◌, arith, ◌⊎◌}
use diracx.Prelude.Table.{select, update}
use diracx.Prelude.Outcome.{
  returns, ok, ◌>>=◌, >>=-eq-returns, pure-eq-returns, lift-eq-returns, get_or_raise-eq-returns,
}
use diracx.Auth.Db.{Session, RefreshToken, is_revoked, put_refresh_tokens}
use diracx.Auth.Db.Refresh.{
  has_jti, revoke, find_refresh_token, get_refresh_token, revoke_refresh_token,
}
use diracx.Auth.Exchange.{Crypto, Call, Claims, Terms}
use diracx.Auth.Token.{rotate, TokenInfo, token_info_from_refresh_flow}

module _ (crypto : Crypto) (call : Call) where
  -- A refresh flow that returns: its row is stored, and if the token takes part in the rotation the row
  -- was alive and is now revoked.
  pub record IsRotated (t : String) (s s' : Session) : Type 0 where
    pub claims : Claims
    pub row : RefreshToken
    pub decoded : crypto.read_token call.now t ≡ ok claims
    pub unique : select (has_jti claims.jti) s.db.refresh_tokens ≡ row ∷ []
    pub rotated :
        (claims.legacy_exchange ≡ true) × (s ≡ s')
        ⊎ (claims.legacy_exchange ≡ false)
          × (is_revoked row.status ≡ false)
          × (put_refresh_tokens (update (has_jti claims.jti) revoke s.db.refresh_tokens) s ≡ s')

  get_refresh_token-inv :
      (jti : String) (s : Session) {row : RefreshToken} {s' : Session}
      → get_refresh_token jti s ≡ returns row s'
      → (select (has_jti jti) s.db.refresh_tokens ≡ row ∷ []) × (s ≡ s')
  unfolding get_refresh_token find_refresh_token ◌>>=◌
  get_refresh_token-inv jti s h = ground arith

  rotate-inv :
      (claims : Claims) (row : RefreshToken) (s : Session) {b : Bool} {s' : Session}
      → rotate crypto call claims row s ≡ returns b s'
      → (claims.legacy_exchange ≡ true) × (s ≡ s')
        ⊎ (claims.legacy_exchange ≡ false)
          × (is_revoked row.status ≡ false)
          × (put_refresh_tokens (update (has_jti claims.jti) revoke s.db.refresh_tokens) s ≡ s')
  unfolding rotate revoke_refresh_token ◌>>=◌
  rotate-inv claims row s h = ground arith

  IsRotated-of_steps :
      (t : String) (claims : Claims) (row : RefreshToken) (s s1 s2 s3 s' : Session)
      → crypto.read_token call.now t ≡ ok claims
      → s ≡ s1
      → select (has_jti claims.jti) s1.db.refresh_tokens ≡ row ∷ []
      → s1 ≡ s2
      → ((claims.legacy_exchange ≡ true) × (s2 ≡ s3)
          ⊎ (claims.legacy_exchange ≡ false)
            × (is_revoked row.status ≡ false)
            × (put_refresh_tokens (update (has_jti claims.jti) revoke s2.db.refresh_tokens) s2
                ≡ s3))
      → s3 ≡ s'
      → IsRotated t s s'
  IsRotated-of_steps t claims row s s1 s2 s3 s' decoded p1 unique p2 rotated p3 =
      subst₂ (IsRotated t) (sym (p1 ∙ p2)) p3 (record {
        claims = claims;
        row = row;
        decoded = decoded;
        unique =
            subst (λ (z : Session). select (has_jti claims.jti) z.db.refresh_tokens ≡ row ∷ []) p2
              unique;
        rotated = rotated;
      })

  pub refresh_info-IsRotated :
      (t : String) (s : Session) {f : TokenInfo × Terms} {s' : Session}
      → token_info_from_refresh_flow crypto call t s ≡ returns f s'
      → IsRotated t s s'
  unfolding token_info_from_refresh_flow
  refresh_info-IsRotated t s {f} {s'} h =
      let (claims, s1, e1, k1) = >>=-eq-returns _ _ s h in
      let (row, s2, e2, k2) = >>=-eq-returns _ _ s1 k1 in
      let (include, s3, e3, k3) = >>=-eq-returns _ _ s2 k2 in
      let (sub, s4, e4, k4) = >>=-eq-returns _ _ s3 k3 in
      let (decoded, p1) = lift-eq-returns _ s e1 in
      let (unique, p2) = get_refresh_token-inv claims.jti s1 e2 in
      IsRotated-of_steps t claims row s s1 s2 s3 s' decoded p1 unique p2
        (rotate-inv claims row s2 e3)
        ((get_or_raise-eq-returns _ _ s3 e4).1 ∙ (pure-eq-returns _ s4 k4).1)
