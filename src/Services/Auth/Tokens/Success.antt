-- ===== src/Services/Auth/Tokens/Success.antt =====
-- A refresh with a usable token answers with new tokens.
use identity_access_service.Base.{String, true, ◌≡◌, refl, arith, ◌==◌, nat_eq}
use identity_access_service.Base.Rows.{any-update, row_is_some, first_sound}
use identity_access_service.Models.{RefreshToken, aware}
use identity_access_service.Errors.{ok}
use identity_access_service.Db.{
  Db, user_by_id, tenant_by_id, user_has_id, token_has_id, token_refused, audit_refused,
  dangling_tenant, dangling_user,
}
use identity_access_service.Db.Session.{run, open_session, ◌>>=◌, insert_token, insert_audit_log}
use identity_access_service.Core.Context.{Context, Client}
use identity_access_service.Core.Security.{create_refresh_token}
use identity_access_service.Services.Audit.{audit_row, log_size, record_audit_event}
use identity_access_service.Services.Users.{revoke_at}
use identity_access_service.Services.Auth.Issue.{token_row, tenant_of, issue_tokens_for_user}
use identity_access_service.Services.Auth.Tokens.{
  user_of, get_valid_refresh_token, revoke_token, record_revocation, refresh,
}
use identity_access_service.Services.Auth.Tokens.Usable.{
  IsUsable, get_valid_refresh_token_iff, get_valid_refresh_token_reads,
}
use identity_access_service.Services.Auth.Login.Success.{IsFresh, login_result}

module _ (c : Context) (text : String) (client : Client) (db : Db) where
  refresh-ok :
      {t : RefreshToken} (u : IsUsable c text db t)
      → (get_valid_refresh_token c text (open_session db)).0 ≡ ok t
      → IsFresh c db
      → (run (refresh c text client) db).0 ≡ ok (login_result c u.user u.tenant)
  unfolding run refresh user_of issue_tokens_for_user tenant_of insert_token revoke_token
      record_revocation record_audit_event insert_audit_log ◌>>=◌ tenant_by_id user_by_id log_size
      token_row token_refused create_refresh_token audit_row audit_refused dangling_tenant
      dangling_user
  refresh-ok {t} u got f =
      let same : (u.user.id == t.user_id) ≡ true =
        first_sound (user_has_id t.user_id) db.users u.owner in
      ground (
        arith,
        get_valid_refresh_token_reads c text (open_session db),
        f.token,
        f.event,
        u.owner,
        u.home,
        row_is_some (user_has_id t.user_id) (user_has_id u.user.id) db.users u.owner
            (ground (arith, nat_eq.reflects u.user.id u.user.id)),
        any-update (token_has_id t.id) (token_has_id c.new_token_id) (revoke_at (aware c.now))
            (λ x. refl) db.refresh_tokens,
      )

  -- A refresh with a usable token answers with tokens for the token's user, provided that the ids drawn
  -- for the new token and for the audit event are not taken.
  pub refresh_succeeds :
      {t : RefreshToken} (u : IsUsable c text db t)
      → IsFresh c db
      → (run (refresh c text client) db).0 ≡ ok (login_result c u.user u.tenant)
  refresh_succeeds {t} u f =
      refresh-ok u ((get_valid_refresh_token_iff c text (open_session db) t).1 u) f
