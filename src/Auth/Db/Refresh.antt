-- ===== src/Auth/Db/Refresh.antt =====
-- The methods of `AuthDB` on the table RefreshTokens (diracx-db/src/diracx/db/sql/auth/db.py).
use diracx.Prelude.{
  String, Bool, true, false, not, ◌&&◌, Option, none, some, List, [], ◌∷◌, ◌++◌, ◌==◌,
  if◌then◌else◌,
}
use diracx.Prelude.Table.{select, update, exists}
use diracx.Prelude.Outcome.{
  Error, integrity_error, no_result_found, token_not_found_error, returns, raises, Action, raise,
  one, handle,
}
use diracx.Auth.Db.{created, revoked, is_revoked, RefreshToken, Session, put_refresh_tokens}

unfoldable pub insert_refresh_token : String → String → String → Action Session (Unit {0})
insert_refresh_token jti subject scope s =
    let new : RefreshToken = record { jti = jti; status = created; scope = scope; sub = subject } in
    if exists (λ r. r.jti == jti) s.db.refresh_tokens
    then raises integrity_error s
    else returns tt (put_refresh_tokens (s.db.refresh_tokens ++ new ∷ []) s)

abbrev pub has_jti : String → RefreshToken → Bool
has_jti jti r = r.jti == jti

-- `except NoResultFound as e: raise TokenNotFoundError(jti) from e`
abbrev pub as_token_not_found : Error → Error
as_token_not_found no_result_found = token_not_found_error
as_token_not_found e = e

unfoldable pub find_refresh_token : String → Action Session RefreshToken
find_refresh_token jti s = one (select (has_jti jti) s.db.refresh_tokens) s

unfoldable pub get_refresh_token : String → Action Session RefreshToken
get_refresh_token jti = handle (find_refresh_token jti) (λ e. raise (as_token_not_found e))

-- `if subject:` is false of `None` and of the empty text
abbrev pub is_truthy : Option String → Bool
is_truthy none = false
is_truthy (some t) = not (t == "")

abbrev pub is_live_token_of : Option String → RefreshToken → Bool
is_live_token_of none r = true
is_live_token_of (some subject) r =
    if subject == "" then true else r.sub == subject && not (is_revoked r.status)

unfoldable pub get_user_refresh_tokens : Option String → Action Session (List RefreshToken)
get_user_refresh_tokens subject s =
    returns (select (is_live_token_of subject) s.db.refresh_tokens) s

abbrev pub revoke : RefreshToken → RefreshToken
revoke r = record r { status = revoked }

unfoldable pub revoke_refresh_token : String → Action Session (Unit {0})
revoke_refresh_token jti s =
    returns tt (put_refresh_tokens (update (has_jti jti) revoke s.db.refresh_tokens) s)

unfoldable pub revoke_user_refresh_tokens : String → Action Session (Unit {0})
revoke_user_refresh_tokens subject s =
    returns tt (put_refresh_tokens (update (λ r. r.sub == subject) revoke s.db.refresh_tokens) s)
