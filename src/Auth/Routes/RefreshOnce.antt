-- ===== src/Auth/Routes/RefreshOnce.antt =====
-- Rotation of refresh tokens: a token that was exchanged is revoked for good, and its reuse revokes all
-- the tokens of its subject.
use diracx.Prelude.{
  ℕ, suc, ◌≤◌, String, Bool, true, false, not, ◌&&◌, ◌≡◌, refl, sym, subst, Option, none, some,
  List, [], ◌∷◌, ◌==◌, eq_iff, arith, if◌then◌else◌, Bool-cases, inl, inr,
}
use diracx.Prelude.Table.{select, update}
use diracx.Prelude.Table.Laws.{select-head, exists-select}
use diracx.Prelude.Outcome.{
  returns, Result, ok, err, has_returned, error_of, invalid_credentials_error, ◌>>=◌,
  >>=-eq-returns, get_or_raise-eq-returns, Outcome-cases,
}
use diracx.Prelude.Keeps.{Keeps-returns}
use diracx.Config.{Config, AuthSettings}
use diracx.Auth.Db.{
  AuthDb, Session, RefreshToken, revoked, is_revoked, open_session, put_refresh_tokens, commit,
}
use diracx.Auth.Db.Refresh.{
  has_jti, revoke, find_refresh_token, get_refresh_token, revoke_user_refresh_tokens,
}
use diracx.Auth.Exchange.{Crypto, Call, Claims, Terms, Payloads}
use diracx.Auth.Token.{
  TokenRequest, GrantType, device_code, authorization_code, refresh_token, rotate, TokenInfo,
  token_info, token_info_from_refresh_flow, get_oidc_token,
}
use diracx.Auth.Routes.{Route, token, run, serve}
use diracx.Auth.Routes.Tables.Refresh.{refresh-Both, refresh-Live}
use diracx.Auth.Routes.TokenFrames.{exchange_token-Keeps}
use diracx.Auth.Routes.Frames.{serve-Keeps}
use diracx.Auth.Routes.RefreshDead.{is_dead_row, IsDead, IsDead-facts, IsDead-of_revoke}
use diracx.Auth.Routes.RefreshRotated.{IsRotated, refresh_info-IsRotated}

-- the two states around a rotation of `jti`
abbrev Revoked' : String → Session → Session → Type 0
Revoked' jti s s' = IsDead jti s'.db.refresh_tokens × ¬ IsDead jti s.db.refresh_tokens

revoked_of_row :
    (jti : String) (row : RefreshToken) (s : Session)
    → select (has_jti jti) s.db.refresh_tokens ≡ row ∷ []
    → is_revoked row.status ≡ false
    → Revoked' jti s (put_refresh_tokens (update (has_jti jti) revoke s.db.refresh_tokens) s)
revoked_of_row jti row s unique alive = (
  IsDead-of_revoke jti s.db.refresh_tokens (exists-select _ s.db.refresh_tokens row [] unique),
  λ b.
      let (hit, dead) =
        select-head (is_dead_row jti) (has_jti jti) s.db.refresh_tokens row [] b.dead unique in
      ground (arith, alive),
)

-- Whether a request presents the token `jti`, as a token that takes part in the rotation.
abbrev is_refresh_grant : GrantType → Bool
is_refresh_grant refresh_token = true
is_refresh_grant _ = false

abbrev is_claim : String → Result Claims → Bool
is_claim jti (err e) = false
is_claim jti (ok claims) = claims.jti == jti && not claims.legacy_exchange

abbrev presents : Crypto → ℕ → String → Option String → Bool
presents crypto now jti none = false
presents crypto now jti (some t) = is_claim jti (crypto.read_token now t)

module _ (crypto : Crypto) (call : Call) (settings : AuthSettings) (jti : String) where
  abbrev Revoked : Session → Session → Type 0
  Revoked = Revoked' jti

  IsRotated-Revoked :
      (t : String) (s s' : Session)
      → is_claim jti (crypto.read_token call.now t) ≡ true
      → IsRotated crypto call t s s'
      → Revoked s s'
  IsRotated-Revoked t s s' p b = elim b.rotated [
    | inl (legacy, _) ↦ absurd (ground (arith, b.decoded, legacy))
    | inr (_, alive, effect) ↦
        let claim : is_claim jti (ok b.claims) ≡ true =
          subst (λ (z : Result Claims). is_claim jti z ≡ true) b.decoded p in
        let same : b.claims.jti ≡ jti = ground (arith, eq_iff b.claims.jti jti) in
        subst (Revoked s) effect (
          subst
            (λ (j : String).
              Revoked' j s
                (put_refresh_tokens (update (has_jti b.claims.jti) revoke s.db.refresh_tokens) s))
            same (revoked_of_row b.claims.jti b.row s b.unique alive))
  ]

  token_info-Revoked :
      (grant : GrantType) (r : TokenRequest) (s : Session) {f : TokenInfo × Terms} {s' : Session}
      → grant ≡ refresh_token
      → presents crypto call.now jti r.refresh_token ≡ true
      → token_info crypto call settings grant r s ≡ returns f s'
      → Revoked s s'
  unfolding token_info
  token_info-Revoked device_code r s g p h = cc
  token_info-Revoked authorization_code r s g p h = cc
  token_info-Revoked refresh_token r s {f} {s'} g p h =
      let (t, s0, e0, k0) = >>=-eq-returns _ _ s h in
      let (given, p0) = get_or_raise-eq-returns _ _ s e0 in
      let claim : presents crypto call.now jti (some t) ≡ true =
        subst (λ (o : Option String). presents crypto call.now jti o ≡ true) given p in
      subst (λ (z : Session). Revoked z s') (sym p0)
        (IsRotated-Revoked t s0 s' claim (refresh_info-IsRotated crypto call t s0 k0))

  get_oidc_token-Revoked :
      (config : Config) (available : List String) (r : TokenRequest) (s : Session) {p : Payloads}
      {s' : Session}
      → r.grant_type ≡ refresh_token
      → presents crypto call.now jti r.refresh_token ≡ true
      → get_oidc_token crypto call settings config available r s ≡ returns p s'
      → Revoked s s'
  unfolding get_oidc_token
  get_oidc_token-Revoked config available r s g p h =
      let (found, s1, e1, e2) = >>=-eq-returns _ _ s h in
      let (dead, alive) = token_info-Revoked r.grant_type r s g p e1 in
      (
        Keeps-returns (λ (z : Session). IsDead jti z.db.refresh_tokens) _ s1
            (exchange_token-Keeps crypto (refresh-Live crypto.hash _ (IsDead-facts jti)) call
              settings config available _ _ _)
            e2 dead,
        alive,
      )

module _ (crypto : Crypto) (settings : AuthSettings) (jti : String) where
  -- The request is a refresh with the token `jti`, taking part in the rotation, and is issued tokens.
  unfoldable pub rotates : AuthDb → Route → Bool
  rotates db (token config call available r) =
      is_refresh_grant r.grant_type
      && presents crypto call.now jti r.refresh_token
      && has_returned (get_oidc_token crypto call settings config available r (open_session db))
  rotates db _ = false

  -- how many of the requests, served in order, are
  unfoldable pub rotations : AuthDb → List Route → ℕ
  unfolding rotates
  rotations db [] = 0
  rotations db (r ∷ rs) =
      let later = rotations (serve crypto settings db r) rs in
      if rotates db r then suc later else later

  module _ (config : Config) (call : Call) (available : List String) (r : TokenRequest)
      (db : AuthDb) where
    rotates_facts :
        rotates db (token config call available r) ≡ true
        → (r.grant_type ≡ refresh_token)
          × (presents crypto call.now jti r.refresh_token ≡ true)
          × (has_returned (get_oidc_token crypto call settings config available r (open_session db))
              ≡ true)
    unfolding rotates
    rotates_facts b = ground arith

    serve-issued :
        {p : Payloads} {s' : Session}
        → get_oidc_token crypto call settings config available r (open_session db) ≡ returns p s'
        → serve crypto settings db (token config call available r) ≡ s'.db
    unfolding serve run ◌>>=◌
    serve-issued e = ground arith

    token_rotates :
        rotates db (token config call available r) ≡ true
        → IsDead jti (serve crypto settings db (token config call available r)).refresh_tokens
          × ¬ IsDead jti db.refresh_tokens
    token_rotates b =
        let (g, presented, ok') = rotates_facts b in
        let (p, s', e) = Outcome-cases _ ok' in
        let (dead, alive) =
          get_oidc_token-Revoked crypto call settings jti config available r (open_session db) g
            presented e in
        (subst (λ (d : AuthDb). IsDead jti d.refresh_tokens) (sym (serve-issued e)) dead, alive)

  rotates-dead : (db : AuthDb) (r : Route) → IsDead jti db.refresh_tokens → rotates db r ≡ false
  unfolding rotates
  rotates-dead db (token config call available r) b =
      elim (Bool-cases (rotates db (token config call available r))) [
        | inl does ↦ absurd ((token_rotates config call available r db does).1 b)
        | inr fails ↦ fails
      ]
  rotates-dead db _ b = refl

  IsDead-of_rotates :
      (db : AuthDb) (r : Route)
      → rotates db r ≡ true
      → IsDead jti (serve crypto settings db r).refresh_tokens
  unfolding rotates
  IsDead-of_rotates db (token config call available r) b =
      (token_rotates config call available r db b).0
  IsDead-of_rotates db _ b = cc

  serve-IsDead :
      (db : AuthDb) (r : Route)
      → IsDead jti db.refresh_tokens
      → IsDead jti (serve crypto settings db r).refresh_tokens
  serve-IsDead =
      serve-Keeps crypto settings (λ db. IsDead jti db.refresh_tokens)
        (refresh-Both crypto.hash _ (IsDead-facts jti))

  -- If a refresh token is stored as revoked, no sequence of requests exchanges it as one that takes part in the
  -- rotation.
  pub rotations-dead :
      (db : AuthDb) (rs : List Route) → IsDead jti db.refresh_tokens → rotations db rs ≡ 0
  unfolding rotations
  rotations-dead db [] b = refl
  rotations-dead db (r ∷ rs) b =
      rw (rotates-dead db r b)
        (rotations-dead (serve crypto settings db r) rs (serve-IsDead db r b))

  -- Over any sequence of requests, a refresh token that takes part in the rotation is exchanged at most once.
  pub rotations-le-one : (db : AuthDb) (rs : List Route) → rotations db rs ≤ 1
  unfolding rotations
  rotations-le-one db [] = omega arith
  rotations-le-one db (r ∷ rs) = elim (Bool-cases (rotates db r)) [
    | inl now ↦
        rw now (
          omega
            (arith, rotations-dead (serve crypto settings db r) rs (IsDead-of_rotates db r now)))
    | inr other ↦ rw other (rotations-le-one (serve crypto settings db r) rs)
  ]

module _ (crypto : Crypto) (settings : AuthSettings) where
  -- A token request with a rotating refresh token that is revoked raises InvalidCredentialsError, so that no
  -- token is handed out, and leaves a database in which every refresh token of the row's subject is revoked, and
  -- which is otherwise the one before.
  pub serve-reuse :
      (config : Config) (call : Call) (available : List String) (r : TokenRequest) (db : AuthDb)
      (t : String) (claims : Claims) (row : RefreshToken)
      → r.grant_type ≡ refresh_token
      → r.refresh_token ≡ some t
      → crypto.read_token call.now t ≡ ok claims
      → claims.legacy_exchange ≡ false
      → select (has_jti claims.jti) db.refresh_tokens ≡ row ∷ []
      → row.status ≡ revoked
      → (error_of (run crypto settings (token config call available r) (open_session db))
          ≡ some invalid_credentials_error)
        × (serve crypto settings db (token config call available r) ≡ record db {
          refresh_tokens = update (λ x. x.sub == row.sub) revoke db.refresh_tokens;
        })
  unfolding serve run get_oidc_token token_info token_info_from_refresh_flow rotate
      get_refresh_token find_refresh_token revoke_user_refresh_tokens commit ◌>>=◌
  serve-reuse config call available r db t claims row g given decoded rotating found dead =
      (ground arith, ground arith)
