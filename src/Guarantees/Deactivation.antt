-- ===== src/Guarantees/Deactivation.antt =====
-- A deactivation ends every session of the user.
use mathlib.Core.Path.{subst}
use identity_access_service.Base.{
  String, true, some, List, ◌≡◌, refl, sym, arith, nat_eq, update, Bool-cases, inl, inr,
}
use identity_access_service.Base.Rows.{first-update}
use identity_access_service.Models.{Uuid, User, RefreshToken, role_eq, aware}
use identity_access_service.Errors.{ok, err}
use identity_access_service.Db.{Db, token_by_id, token_has_id}
use identity_access_service.Db.Session.{◌>>=◌, run, open_session, insert_audit_log}
use identity_access_service.Core.Context.{Context, Client}
use identity_access_service.Core.Principal.{CurrentPrincipal}
use identity_access_service.Core.Security.{parse_refresh_token}
use identity_access_service.Services.Audit.{record_audit_event}
use identity_access_service.Services.Tenants.{admin_roles}
use identity_access_service.Services.Tenants.Visible.{resolve_reads}
use identity_access_service.Services.Users.{
  deactivate, deactivate_user, user_in_tenant_by_id, get_visible_user, ensure_manageable_target,
  live_token_of, revoke_at,
}
use identity_access_service.Services.Users.Visible.{user_in_tenant_by_id_sound}
use identity_access_service.Services.Auth.Tokens.{refresh, invalid_token}
use identity_access_service.Requests.{Request, serve_all}
use identity_access_service.Guarantees.SingleUse.{IsSpent, spent_is_refused}
use identity_access_service.Guarantees.Revocation.{IsRevoked, serve_all-IsRevoked}

module _ (c : Context) (tenant_id user_id : Uuid) (actor : CurrentPrincipal) (client : Client)
    (db : Db) where
  deactivate-revokes :
      (u : User)
      → (deactivate c u actor client (open_session db)).0 ≡ ok tt
      → (deactivate c u actor client (open_session db)).1.committed.refresh_tokens
        ≡ update (live_token_of u.id) (revoke_at (aware c.now)) db.refresh_tokens
  unfolding deactivate record_audit_event insert_audit_log ◌>>=◌
  deactivate-revokes u h = ground arith

  deactivate_user-deactivates :
      (u : User)
      → user_in_tenant_by_id tenant_id user_id db ≡ some u
      → u.is_active ≡ true
      → (run (deactivate_user c tenant_id user_id actor client) db).0 ≡ ok tt
      → deactivate_user c tenant_id user_id actor client (open_session db)
        ≡ deactivate c u actor client (open_session db)
  unfolding run deactivate_user ensure_manageable_target get_visible_user ◌>>=◌
  deactivate_user-deactivates u found active h =
      ground (arith, resolve_reads actor tenant_id admin_roles (open_session db))

  -- A token of the user is revoked, whether it was live or not.
  all-IsRevoked :
      (id : Uuid) (t : RefreshToken) (after : Db)
      → token_by_id id db ≡ some t
      → t.user_id ≡ user_id
      → after.refresh_tokens
        ≡ update (live_token_of user_id) (revoke_at (aware c.now)) db.refresh_tokens
      → IsRevoked id after
  unfolding token_by_id
  all-IsRevoked id t after found mine same =
      let now = aware c.now in
      let moved =
        first-update (live_token_of user_id) (token_has_id id) (revoke_at now) (λ x. refl)
          db.refresh_tokens in
      elim (Bool-cases (live_token_of user_id t)) [
        | inl live ↦ (revoke_at now t, rw same (ground arith), refl)
        | inr gone ↦ (t, rw same (ground arith), ground (arith, nat_eq.reflects t.user_id user_id))
      ]

  deactivate_user-IsRevoked :
      (u : User) (id : Uuid) (t : RefreshToken)
      → user_in_tenant_by_id tenant_id user_id db ≡ some u
      → u.is_active ≡ true
      → token_by_id id db ≡ some t
      → t.user_id ≡ user_id
      → (run (deactivate_user c tenant_id user_id actor client) db).0 ≡ ok tt
      → IsRevoked id (run (deactivate_user c tenant_id user_id actor client) db).1
  unfolding run
  deactivate_user-IsRevoked u id t found active there mine h =
      let same = deactivate_user-deactivates u found active h in
      let e = (user_in_tenant_by_id_sound tenant_id user_id db found).0 in
      let done = subst (λ p. p.0 ≡ ok tt) same h in
      let revokes =
        subst
          (λ k.
            (deactivate c u actor client (open_session db)).1.committed.refresh_tokens
            ≡ update (live_token_of k) (revoke_at (aware c.now)) db.refresh_tokens)
          e (deactivate-revokes u done) in
      subst (λ p. IsRevoked id p.1.committed) (sym same) (all-IsRevoked id t _ there mine revokes)

-- After a deactivation of an active user that succeeds, every refresh token that was stored for the
-- user is spent for good: after any further requests a refresh with it is refused as invalid and
-- changes nothing.
pub deactivation_ends_sessions :
    (c : Context) (tenant_id user_id : Uuid) (actor : CurrentPrincipal) (client : Client) (db : Db)
    (u : User) (text : String) (id : Uuid) (secret : String) (t : RefreshToken) (rs : List Request)
    (c' : Context) (client' : Client)
    → user_in_tenant_by_id tenant_id user_id db ≡ some u
    → u.is_active ≡ true
    → parse_refresh_token text ≡ some (id, secret)
    → token_by_id id db ≡ some t
    → t.user_id ≡ user_id
    → (run (deactivate_user c tenant_id user_id actor client) db).0 ≡ ok tt
    → run
        (refresh c' text client')
        (serve_all rs (run (deactivate_user c tenant_id user_id actor client) db).1)
      ≡ (
        err invalid_token,
        serve_all rs (run (deactivate_user c tenant_id user_id actor client) db).1,
      )
unfolding IsSpent
deactivation_ends_sessions c tenant_id user_id actor client db u text id secret t rs c' client'
      found active parsed there mine h =
    let revoked =
      deactivate_user-IsRevoked c tenant_id user_id actor client db u id t found active there mine
        h in
    spent_is_refused c' text client' _ (id, secret, parsed, serve_all-IsRevoked id rs _ revoked)
