-- ===== src/Services/Auth/Tokens/Rotation.antt =====
-- What a successful `AuthService.refresh` does.
use identity_access_service.Base.{String, false, some, ◌∷◌, [], ◌≡◌, arith, Option-cases, inl, inr}
use identity_access_service.Models.{User, RefreshToken, token_revoked, str, aware}
use identity_access_service.Uuid.{str_uuid}
use identity_access_service.Errors.{ok, Result-cases}
use identity_access_service.Db.{Db, user_by_id, tenant_by_id, token_has_id, token_refused}
use identity_access_service.Db.Session.{
  run, open_session, ◌>>=◌, insert_token, insert_audit_log, add_token, set_tokens, add_audit_log,
}
use identity_access_service.Core.Context.{Context, Client}
use identity_access_service.Services.Audit.{Event, audit_row, log_size, record_audit_event}
use identity_access_service.Services.Users.{revoke_at}
use identity_access_service.Services.Auth.Issue.{
  AuthResult, token_row, tenant_of, issue_tokens_for_user,
}
use identity_access_service.Services.Auth.Tokens.{
  user_of, get_valid_refresh_token, revoke_token, record_revocation, refresh,
}
use identity_access_service.Services.Auth.Tokens.Usable.{
  IsUsable, get_valid_refresh_token_iff, get_valid_refresh_token_reads,
}

module _ (c : Context) (text : String) (client : Client) (db : Db) where
  abbrev rotation_event : RefreshToken → User → Event
  rotation_event t u = record {
    action = token_revoked;
    resource_type = "refresh_token";
    resource_id = str_uuid t.id;
    tenant_id = some u.tenant_id;
    actor_user_id = some t.user_id;
    details = some (("reason", str "rotation") ∷ []);
  }

  abbrev pub revoked_only : RefreshToken → Db
  revoked_only t = set_tokens (token_has_id t.id) (revoke_at (aware c.now)) db

  -- The used token is revoked, a new one of its user is added, and one event is recorded.
  unfoldable pub rotated : RefreshToken → User → Db
  rotated t u =
      add_audit_log (audit_row c client (rotation_event t u) (log_size db))
        (add_token (token_row c u) (revoked_only t))

  refresh_after :
      (t : RefreshToken) {r : AuthResult}
      → (get_valid_refresh_token c text (open_session db)).0 ≡ ok t
      → (run (refresh c text client) db).0 ≡ ok r
      → (u : User) × (user_by_id t.user_id db ≡ some u)
        × (token_refused (token_row c u) (revoked_only t) ≡ false)
        × ((run (refresh c text client) db).1 ≡ rotated t u)
  unfolding run refresh rotated user_of issue_tokens_for_user tenant_of insert_token revoke_token
      record_revocation record_audit_event insert_audit_log ◌>>=◌ user_by_id tenant_by_id log_size
  refresh_after t got h = elim (Option-cases (user_by_id t.user_id db)) [
    | inl e ↦ absurd (ground (arith, get_valid_refresh_token_reads c text (open_session db)))
    | inr (u, owner) ↦ (
      u,
      owner,
      ground (arith, get_valid_refresh_token_reads c text (open_session db)),
      ground (arith, get_valid_refresh_token_reads c text (open_session db)),
    )
  ]

  -- A refresh that answers with tokens was given a usable refresh token of some user, and leaves the
  -- database in which that token is revoked at the current time, a new token of the same user is added,
  -- and one audit event of the reason "rotation" is recorded; nothing else changes. The new token meets
  -- the constraints.
  pub refresh_rotates :
      {r : AuthResult}
      → (run (refresh c text client) db).0 ≡ ok r
      → (t : RefreshToken) × (u : User) × IsUsable c text db t
        × (user_by_id t.user_id db ≡ some u)
        × (token_refused (token_row c u) (revoked_only t) ≡ false)
        × ((run (refresh c text client) db).1 ≡ rotated t u)
  unfolding run refresh ◌>>=◌
  refresh_rotates {r} h = elim (Result-cases (get_valid_refresh_token c text (open_session db)).0) [
    | inl (e, bad) ↦ absurd (ground arith)
    | inr (t, got) ↦
        let (u, owner, fits, after) = refresh_after t got h in
        (t, u, (get_valid_refresh_token_iff c text (open_session db) t).0 got, owner, fits, after)
  ]
