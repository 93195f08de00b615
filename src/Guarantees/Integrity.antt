-- ===== src/Guarantees/Integrity.antt =====
-- The constraints of app/models hold in every database that requests lead to.
mod Growth
pub mod Preserved
use identity_access_service.Base.{Bool, true, false, List, [], ◌≡◌, is_some, All, ◌||◌}
use identity_access_service.Base.Rows.{Distinct}
use identity_access_service.Models.{Tenant, User, RefreshToken, AuditLog}
use identity_access_service.Db.{
  Db, tenant_by_id, user_by_id, tenant_clash, user_clash, token_clash, audit_clash, dangling_tenant,
  dangling_user,
}

abbrev pub HasTenant : Db → User → Type 0
HasTenant db u = is_some (tenant_by_id u.tenant_id db) ≡ true

abbrev pub HasUser : Db → RefreshToken → Type 0
HasUser db t = is_some (user_by_id t.user_id db) ≡ true

abbrev pub HasSubjects : Db → AuditLog → Type 0
HasSubjects db a = (dangling_tenant a.tenant_id db || dangling_user a.actor_user_id db) ≡ false

-- Primary keys and unique constraints keep the rows apart, and no foreign key dangles.
pub record IsValid (db : Db) : Type 0 where
  pub tenants_distinct : Distinct tenant_clash db.tenants
  pub users_distinct : Distinct user_clash db.users
  pub tokens_distinct : Distinct token_clash db.refresh_tokens
  pub logs_distinct : Distinct audit_clash db.audit_logs
  pub users_owned : All (HasTenant db) db.users
  pub tokens_owned : All (HasUser db) db.refresh_tokens
  pub logs_owned : All (HasSubjects db) db.audit_logs
