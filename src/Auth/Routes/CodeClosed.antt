-- ===== src/Auth/Routes/CodeClosed.antt =====
-- An authorization flow that is done stays done, over any sequence of requests.
use diracx.Prelude.{
  String, Bool, true, false, not, ◌||◌, ◌≡◌, refl, sym, subst, ◌∙◌, List, [], ◌∷◌, ◌++◌, ◌==◌,
  eq_iff, arith, all, Bool-cases, inl, inr,
}
use diracx.Prelude.Table.{update, exists}
use diracx.Prelude.Table.Laws.{all-append, all-update, exists-append, exists-update}
use diracx.Config.{AuthSettings}
use diracx.Auth.Db.{AuthDb, AuthorizationFlow}
use diracx.Auth.Exchange.{Crypto}
use diracx.Auth.Routes.{Route, serve_all}
use diracx.Auth.Routes.DeviceSpent.{is_done}
use diracx.Auth.Routes.Tables.{AuthorizationFacts}
use diracx.Auth.Routes.Tables.Authorization.{authorization-Both}
use diracx.Auth.Routes.Frames.{serve_all-Keeps}

abbrev is_flow : String → AuthorizationFlow → Bool
is_flow uuid r = r.uuid == uuid

abbrev is_closed_row : String → AuthorizationFlow → Bool
is_closed_row uuid r = not (is_flow uuid r) || is_done r.status

-- The table has a flow of the identifier, and it is done.
pub record IsClosed (uuid : String) (t : List AuthorizationFlow) : Type 0 where
  pub stored : exists (is_flow uuid) t ≡ true
  pub closed : all (is_closed_row uuid) t ≡ true

module _ (uuid : String) where
  update-IsClosed :
      (p : AuthorizationFlow → Bool) (f : AuthorizationFlow → AuthorizationFlow)
      (t : List AuthorizationFlow)
      → ((r : AuthorizationFlow) → is_flow uuid (f r) ≡ is_flow uuid r)
      → ((r : AuthorizationFlow)
          → p r ≡ true
          → is_closed_row uuid r ≡ true
          → is_closed_row uuid (f r) ≡ true)
      → IsClosed uuid t
      → IsClosed uuid (update p f t)
  update-IsClosed p f t same keep b = record {
    stored = exists-update (is_flow uuid) p f t same ∙ b.stored;
    closed = all-update (is_closed_row uuid) p f t keep b.closed;
  }

  append-IsClosed :
      (new : AuthorizationFlow) (t : List AuthorizationFlow)
      → exists (λ r. r.uuid == new.uuid) t ≡ false
      → IsClosed uuid t
      → IsClosed uuid (t ++ new ∷ [])
  append-IsClosed new t free b = elim (Bool-cases (new.uuid == uuid)) [
    | inl same ↦ cc (
        subst (λ (z : String). exists (is_flow z) t ≡ true) (sym ((eq_iff new.uuid uuid).0 same))
          b.stored)
    | inr other ↦ record {
      stored = ground (arith, exists-append (is_flow uuid) t (new ∷ []), b.stored);
      closed = ground (arith, all-append (is_closed_row uuid) t (new ∷ []), b.closed);
    }
  ]

  IsClosed-facts : (hash : String → String) → AuthorizationFacts hash (IsClosed uuid)
  IsClosed-facts hash = record {
    fill = λ now code u id_token v t b. update-IsClosed _ _ t (λ r. refl) (λ r p q. ground arith) b;
    insert = λ new t free is_new no_code b. append-IsClosed new t free b;
    redeem = λ code t b. update-IsClosed _ _ t (λ r. refl) (λ r p q. ground arith) b;
  }

-- An authorization flow that is done stays stored and done, whatever requests are served.
pub serve_all-IsClosed :
    (crypto : Crypto) (settings : AuthSettings) (uuid : String) (db : AuthDb) (rs : List Route)
    → IsClosed uuid db.authorization_flows
    → IsClosed uuid (serve_all crypto settings db rs).authorization_flows
serve_all-IsClosed crypto settings uuid =
    serve_all-Keeps crypto settings (λ db. IsClosed uuid db.authorization_flows)
      (authorization-Both crypto.hash _ (IsClosed-facts uuid crypto.hash))
