-- ===== src/Guarantees/SingleUse.antt =====
-- A refresh token is good for one refresh, and for none after a logout.
use mathlib.Core.Path.{subst}
use identity_access_service.Base.Rows.{first-update}
use identity_access_service.Services.Users.{revoke_at}
use identity_access_service.Base.{
  String, true, some, List, ◌≡◌, refl, arith, Option-cases, Bool-cases, inl, inr, is_some, sym,
  nat_eq,
}
use identity_access_service.Models.{Uuid, RefreshToken, aware}
use identity_access_service.Errors.{ok, err}
use identity_access_service.Db.{Db, user_by_id, token_by_id, token_has_id}
use identity_access_service.Db.Session.{run, open_session, ◌>>=◌, set_tokens}
use identity_access_service.Db.Session.{insert_audit_log}
use identity_access_service.Services.Audit.{record_audit_event}
use identity_access_service.Core.Context.{Context, Client}
use identity_access_service.Core.Security.{parse_refresh_token, verify_refresh_token_secret}
use identity_access_service.Services.Auth.Issue.{AuthResult}
use identity_access_service.Services.Auth.Tokens.{
  get_valid_refresh_token, refresh, logout, logout_token, logout_parsed, logout_stored,
  revoke_token, user_of, record_revocation, invalid_token,
}
use identity_access_service.Services.Auth.Tokens.Rotation.{refresh_rotates, rotated}
use identity_access_service.Requests.{Request, serve_all}
use identity_access_service.Guarantees.Revocation.{IsRevoked, issue-IsRevoked, serve_all-IsRevoked}

-- The text parses to the id of a revoked token.
unfoldable pub IsSpent : String → Db → Type 0
IsSpent text db =
    (id : Uuid) × (secret : String) × (parse_refresh_token text ≡ some (id, secret))
    × IsRevoked id db

module _ (c : Context) (text : String) (client : Client) (db : Db) where
  pub spent_is_refused : IsSpent text db → run (refresh c text client) db ≡ (err invalid_token, db)
  unfolding IsSpent run refresh get_valid_refresh_token ◌>>=◌
  spent_is_refused (id, secret, parsed, (t, found, revoked)) = ground arith

  served-IsSpent : (rs : List Request) → IsSpent text db → IsSpent text (serve_all rs db)
  unfolding IsSpent
  served-IsSpent rs (id, secret, parsed, revoked) =
      (id, secret, parsed, serve_all-IsRevoked id rs db revoked)

  revoke-IsRevoked :
      (id : Uuid) (t : RefreshToken)
      → token_by_id id db ≡ some t
      → IsRevoked id (set_tokens (token_has_id t.id) (revoke_at (aware c.now)) db)
  unfolding token_by_id
  revoke-IsRevoked id t found = (
    revoke_at (aware c.now) t,
    ground (
      arith,
      first-update (token_has_id t.id) (token_has_id id) (revoke_at (aware c.now)) (λ x. refl)
          db.refresh_tokens,
      nat_eq.reflects t.id t.id,
    ),
    refl,
  )

  refresh-IsSpent :
      {r : AuthResult}
      → (run (refresh c text client) db).0 ≡ ok r
      → IsSpent text (run (refresh c text client) db).1
  unfolding IsSpent rotated token_by_id
  refresh-IsSpent h =
      let (t, u, usable, owner, fits, after) = refresh_rotates c text client db h in
      let spent = issue-IsRevoked usable.id _ _ fits (revoke-IsRevoked usable.id t usable.found) in
      (
        usable.id,
        usable.secret,
        usable.parsed,
        subst (IsRevoked usable.id) (sym after) (spent.0, spent.1, spent.2),
      )

  logout_token-IsRevoked :
      (id : Uuid) (t : RefreshToken)
      → token_by_id id db ≡ some t
      → (logout_token c t client (open_session db)).0 ≡ ok tt
      → IsRevoked id (logout_token c t client (open_session db)).1.committed
  unfolding logout_token revoke_token user_of record_revocation record_audit_event insert_audit_log
      ◌>>=◌ token_by_id user_by_id
  logout_token-IsRevoked id t found h = elim (Option-cases (user_by_id t.user_id db)) [
    | inl e ↦ absurd (ground arith)
    | inr (u, owner) ↦ let spent = revoke-IsRevoked id t found in (spent.0, ground arith, spent.2)
  ]

  -- A logout that succeeds with a token whose secret it knows leaves the token revoked.
  logout-IsSpent :
      (id : Uuid) (secret : String) (t : RefreshToken)
      → parse_refresh_token text ≡ some (id, secret)
      → token_by_id id db ≡ some t
      → verify_refresh_token_secret c secret t.token_hash ≡ true
      → (run (logout c text client) db).0 ≡ ok tt
      → IsSpent text (run (logout c text client) db).1
  unfolding IsSpent run logout logout_parsed logout_stored ◌>>=◌
  logout-IsSpent id secret t parsed found verified h = (
    id,
    secret,
    parsed,
    elim (Bool-cases (is_some t.revoked_at)) [
      | inl gone ↦
          let same : logout c text client (open_session db) ≡ (ok tt, open_session db) =
            ground arith in
          subst (λ p. IsRevoked id p.1.committed) (sym same) (t, found, gone)
      | inr live ↦
          let same : logout c text client (open_session db)
              ≡ logout_token c t client (open_session db) =
            ground arith in
          subst (λ p. IsRevoked id p.1.committed) (sym same)
            (logout_token-IsRevoked id t found (subst (λ p. p.0 ≡ ok tt) same h))
    ],
  )

-- Once a refresh has answered with tokens, the token that it was given is spent for good: after any
-- further requests another refresh with it is refused as invalid and changes nothing.
pub refresh_is_single_use :
    (c : Context) (text : String) (client : Client) (db : Db) {r : AuthResult} (rs : List Request)
    (c' : Context) (client' : Client)
    → (run (refresh c text client) db).0 ≡ ok r
    → run (refresh c' text client') (serve_all rs (run (refresh c text client) db).1)
      ≡ (err invalid_token, serve_all rs (run (refresh c text client) db).1)
refresh_is_single_use c text client db rs c' client' h =
    spent_is_refused c' text client' _
      (served-IsSpent c text client _ rs (refresh-IsSpent c text client db h))

-- After a logout that succeeds with a stored token and its secret, the token is spent for good: after
-- any further requests a refresh with it is refused as invalid and changes nothing.
pub logout_ends_session :
    (c : Context) (text : String) (client : Client) (db : Db) (id : Uuid) (secret : String)
    (t : RefreshToken) (rs : List Request) (c' : Context) (client' : Client)
    → parse_refresh_token text ≡ some (id, secret)
    → token_by_id id db ≡ some t
    → verify_refresh_token_secret c secret t.token_hash ≡ true
    → (run (logout c text client) db).0 ≡ ok tt
    → run (refresh c' text client') (serve_all rs (run (logout c text client) db).1)
      ≡ (err invalid_token, serve_all rs (run (logout c text client) db).1)
logout_ends_session c text client db id secret t rs c' client' parsed found verified h =
    spent_is_refused c' text client' _ (
      served-IsSpent c text client _ rs
        (logout-IsSpent c text client db id secret t parsed found verified h))
