-- ===== src/Api/Audit.antt =====
-- app/api/v1/endpoints/audit.py
pub mod Ranges
use identity_access_service.Base.{Bool, not, Option, List, [], ◌∷◌, ◌++◌, ◌&&◌, if◌then◌else◌}
use identity_access_service.Base.Int.{ℤ, at_least, at_most}
use identity_access_service.Errors.{ErrorDetail, request_validation_error}
use identity_access_service.Models.{Uuid, AuditAction, sys_admin}
use identity_access_service.Db.Session.{Action, raise_if, ◌>>=◌, ◌>>◌}
use identity_access_service.Core.Context.{Context}
use identity_access_service.Services.Audit.Listing.{
  Filters, AuditLogListResponse, list_system_audit_logs, list_tenant_audit_logs,
}
use identity_access_service.Api.Http.{Reply, reply, except}
use identity_access_service.Api.Dependencies.{Credentials, get_current_principal, require_roles}
use identity_access_service.Api.Tenants.{tenant_404_403}

-- `LimitQuery`: `Query(ge=1, le=100)`
unfoldable pub limit_query : ℤ → Bool
unfolding at_least at_most
limit_query limit = at_least 1 limit && at_most 100 limit

-- `OffsetQuery`: `Query(ge=0)`
unfoldable pub offset_query : ℤ → Bool
unfolding at_least
offset_query offset = at_least 0 offset

abbrev pub is_empty {ℓ} : {A : Type ℓ} → List A → Bool
is_empty [] = Bool.true
is_empty (x ∷ xs) = Bool.false

module _ (c : Context) where
  -- what the framework reports of the two
  unfoldable pub query_errors : ℤ → ℤ → List ErrorDetail
  unfolding limit_query offset_query
  query_errors limit offset =
      (if limit_query limit then [] else c.refusal ("query" ∷ "limit" ∷ []) ∷ [])
      ++ (if offset_query offset then [] else c.refusal ("query" ∷ "offset" ∷ []) ∷ [])

  -- The framework resolves the dependencies first, and reports the parameters then.
  unfoldable pub validate_query : ℤ → ℤ → Action Unit
  unfolding query_errors
  validate_query limit offset =
      raise_if (not (is_empty (query_errors limit offset)))
        (request_validation_error (query_errors limit offset))

  unfoldable pub list_system_audit_logs_endpoint :
      Option Credentials → Filters → ℤ → ℤ → Action (Reply AuditLogListResponse)
  list_system_audit_logs_endpoint credentials filters limit offset = do
    require_roles c (sys_admin ∷ []) credentials
    validate_query limit offset
    logs ← list_system_audit_logs filters limit offset
    reply 200 logs

  unfoldable pub list_tenant_audit_logs_endpoint :
      Option Credentials
      → Uuid
      → Option AuditAction
      → Option Uuid
      → ℤ
      → ℤ
      → Action (Reply AuditLogListResponse)
  list_tenant_audit_logs_endpoint credentials tenant_id action actor_user_id limit offset = do
    principal ← get_current_principal c credentials
    validate_query limit offset
    logs ←
        except tenant_404_403
          (list_tenant_audit_logs principal tenant_id action actor_user_id limit offset)
    reply 200 logs
