-- ===== src/Db.antt =====
-- The database as the services see it through a SQLAlchemy `Session`: four tables, the transaction,
-- and the constraints that app/models declares, which the database checks at a flush.
pub mod Session
pub mod Keeps
pub mod Outcomes
pub mod Raises
use identity_access_service.Base.{
  List, [], Bool, Option, String, first, any, is_none, ◌||◌, ◌&&◌, ◌==◌, not, nat_eq, string_eq,
  some, none, true, false,
}
use identity_access_service.Models.{Uuid, Tenant, User, RefreshToken, AuditLog}

-- A table is the list of its rows, the newest first. SQL promises no order without an ORDER BY.
pub record Db : Type 0 where
  pub tenants : List Tenant
  pub users : List User
  pub refresh_tokens : List RefreshToken
  pub audit_logs : List AuditLog

abbrev pub empty : Db
empty = record { tenants = []; users = []; refresh_tokens = []; audit_logs = [] }

-- The WHERE clauses of the services' statements.
abbrev pub tenant_has_slug : String → Tenant → Bool
tenant_has_slug slug t = t.slug == slug

abbrev pub tenant_has_id : Uuid → Tenant → Bool
tenant_has_id id t = t.id == id

abbrev pub user_has_id : Uuid → User → Bool
user_has_id id u = u.id == id

abbrev pub user_has_email : Uuid → String → User → Bool
user_has_email tenant_id email u = u.tenant_id == tenant_id && u.email == email

abbrev pub token_has_id : Uuid → RefreshToken → Bool
token_has_id id t = t.id == id

-- `select(Tenant).where(Tenant.slug == slug)`
unfoldable pub tenant_by_slug : String → Db → Option Tenant
tenant_by_slug slug db = first (tenant_has_slug slug) db.tenants

-- `db.get(Tenant, id)`, and the attribute `user.tenant`
unfoldable pub tenant_by_id : Uuid → Db → Option Tenant
tenant_by_id id db = first (tenant_has_id id) db.tenants

unfoldable pub user_by_id : Uuid → Db → Option User
user_by_id id db = first (user_has_id id) db.users

unfoldable pub user_by_email : Uuid → String → Db → Option User
user_by_email tenant_id email db = first (user_has_email tenant_id email) db.users

unfoldable pub token_by_id : Uuid → Db → Option RefreshToken
token_by_id id db = first (token_has_id id) db.refresh_tokens

-- Two rows of a table that a primary key or a unique constraint keeps apart.
abbrev pub tenant_clash : Tenant → Tenant → Bool
tenant_clash t row = row.id == t.id || row.slug == t.slug

abbrev pub user_clash : User → User → Bool
user_clash u row = row.id == u.id || (row.tenant_id == u.tenant_id && row.email == u.email)

abbrev pub token_clash : RefreshToken → RefreshToken → Bool
token_clash t row = row.id == t.id

abbrev pub audit_clash : AuditLog → AuditLog → Bool
audit_clash a row = row.id == a.id

-- A foreign key that is not NULL and has no row.
unfoldable pub dangling_tenant : Option Uuid → Db → Bool
dangling_tenant none db = false
dangling_tenant (some id) db = is_none (tenant_by_id id db)

unfoldable pub dangling_user : Option Uuid → Db → Bool
dangling_user none db = false
dangling_user (some id) db = is_none (user_by_id id db)

-- Whether the database refuses a new row.
unfoldable pub tenant_refused : Tenant → Db → Bool
tenant_refused t db = any (tenant_clash t) db.tenants

unfoldable pub user_refused : User → Db → Bool
unfolding dangling_tenant
user_refused u db = any (user_clash u) db.users || dangling_tenant (some u.tenant_id) db

unfoldable pub token_refused : RefreshToken → Db → Bool
unfolding dangling_user
token_refused t db = any (token_clash t) db.refresh_tokens || dangling_user (some t.user_id) db

unfoldable pub audit_refused : AuditLog → Db → Bool
unfolding dangling_tenant dangling_user
audit_refused a db =
    any (audit_clash a) db.audit_logs
    || (dangling_tenant a.tenant_id db || dangling_user a.actor_user_id db)
