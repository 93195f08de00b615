-- ===== src/Models.antt =====
-- app/models: the rows of the four tables. A row's `created_at` and `updated_at`, which the database
-- sets, are left out, but for the `created_at` by which the audit log is sorted.
mod Enums
mod Time
unfoldable pub use Enums.*
pub use Time.*
use identity_access_service.Base.{
  ℕ, Bool, Option, List, String, ◌||◌, ◌&&◌, ◌==◌, nat_eq, string_eq,
}

-- A `uuid.UUID` is the number that it holds, below 2 ^ 128.
abbrev pub Uuid : Type 0
Uuid = ℕ

-- app/models/tenant.py
pub record Tenant : Type 0 where
  pub id : Uuid
  pub slug : String
  pub name : String
  pub is_active : Bool

-- app/models/user.py
pub record User : Type 0 where
  pub id : Uuid
  pub tenant_id : Uuid
  pub email : String
  pub full_name : String
  pub password_hash : String
  pub role : Role
  pub is_active : Bool
  pub failed_login_attempts : ℕ
  pub locked_until : Option Datetime
  pub last_login_at : Option Datetime

-- app/models/refresh_token.py
pub record RefreshToken : Type 0 where
  pub id : Uuid
  pub user_id : Uuid
  pub token_hash : String
  pub expires_at : Datetime
  pub revoked_at : Option Datetime
  pub last_used_at : Option Datetime

-- The values that the code puts under `details`, a JSON column.
pub data Value : Type 0 where
  null : Value
  bool : Bool → Value
  int : ℕ → Value
  str : String → Value
  isoformat : Datetime → Value

abbrev pub Details : Type 0
Details = List (String × Value)

-- app/models/audit_log.py
pub record AuditLog : Type 0 where
  pub id : Uuid
  pub tenant_id : Option Uuid
  pub actor_user_id : Option Uuid
  pub action : AuditAction
  pub resource_type : String
  pub resource_id : String
  pub details : Option Details
  pub ip_address : Option String
  pub user_agent : Option String
  pub created_at : ℕ
