-- ===== src/Auth/Routes/RefreshDead.antt =====
-- The row of a refresh token that was revoked: it stays revoked, whatever the routes write.
use diracx.Prelude.{
  String, Bool, true, false, not, ◌||◌, ◌≡◌, refl, sym, subst, ◌∙◌, List, [], ◌∷◌, ◌++◌, ◌==◌,
  eq_iff, arith, Bool-cases, inl, inr, all,
}
use diracx.Prelude.Table.{update, exists}
use diracx.Prelude.Table.Laws.{all-append, all-update, exists-append, exists-update}
use diracx.Auth.Db.{RefreshToken, created, is_revoked}
use diracx.Auth.Db.Refresh.{has_jti, revoke}
use diracx.Auth.Routes.Tables.{RefreshFacts}

abbrev pub is_dead_row : String → RefreshToken → Bool
is_dead_row jti r = not (has_jti jti r) || is_revoked r.status

-- The table has a row of the token, and it is revoked.
pub record IsDead (jti : String) (t : List RefreshToken) : Type 0 where
  pub stored : exists (has_jti jti) t ≡ true
  pub dead : all (is_dead_row jti) t ≡ true

module _ (jti : String) where
  revoke-IsDead :
      (p : RefreshToken → Bool) (t : List RefreshToken)
      → IsDead jti t
      → IsDead jti (update p revoke t)
  revoke-IsDead p t b = record {
    stored = exists-update (has_jti jti) p revoke t (λ r. refl) ∙ b.stored;
    dead = all-update (is_dead_row jti) p revoke t (λ r p q. ground arith) b.dead;
  }

  append-IsDead :
      (new : RefreshToken) (t : List RefreshToken)
      → exists (has_jti new.jti) t ≡ false
      → new.status ≡ created
      → IsDead jti t
      → IsDead jti (t ++ new ∷ [])
  append-IsDead new t free c b = elim (Bool-cases (new.jti == jti)) [
    | inl same ↦ cc (
        subst (λ (z : String). exists (has_jti z) t ≡ true) (sym ((eq_iff new.jti jti).0 same))
          b.stored)
    | inr other ↦ record {
      stored = ground (arith, exists-append (has_jti jti) t (new ∷ []), b.stored);
      dead = ground (arith, all-append (is_dead_row jti) t (new ∷ []), b.dead);
    }
  ]

  pub IsDead-facts : RefreshFacts (IsDead jti)
  IsDead-facts = record {
    insert = append-IsDead;
    revoke_one = λ j t. revoke-IsDead (has_jti j) t;
    revoke_all = λ subject t. revoke-IsDead _ t;
  }

  -- the statement that revokes the token leaves it dead
  revoke-all_rows :
      (t : List RefreshToken) → all (is_dead_row jti) (update (has_jti jti) revoke t) ≡ true
  unfolding update
  revoke-all_rows [] = refl
  revoke-all_rows (r ∷ t) = ground (arith, revoke-all_rows t)

  pub IsDead-of_revoke :
      (t : List RefreshToken)
      → exists (has_jti jti) t ≡ true
      → IsDead jti (update (has_jti jti) revoke t)
  IsDead-of_revoke t h = record {
    stored = exists-update (has_jti jti) (has_jti jti) revoke t (λ r. refl) ∙ h;
    dead = revoke-all_rows t;
  }
