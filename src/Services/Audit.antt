-- ===== src/Services/Audit.antt =====
-- app/services/audit.py: `record_audit_event`, and the listings below.
pub mod Listing
pub mod Pages
pub mod Visible
use identity_access_service.Base.{ℕ, String, Option, none, length, take}
use identity_access_service.Models.{Uuid, AuditAction, AuditLog, Details}
use identity_access_service.Db.{Db}
use identity_access_service.Db.Session.{Action, query, insert_audit_log, ◌>>=◌}
use identity_access_service.Core.Context.{Context, Client}

-- the arguments of `record_audit_event`
pub record Event : Type 0 where
  pub action : AuditAction
  pub resource_type : String
  pub resource_id : String
  pub tenant_id : Option Uuid
  pub actor_user_id : Option Uuid
  pub details : Option Details

abbrev pub no_client : Client
no_client = record { ip_address = none; user_agent = none }

-- the row of an event, when `position` rows stand before it
unfoldable pub audit_row : Context → Client → Event → ℕ → AuditLog
audit_row c client e position = record {
  id = c.audit_id position;
  tenant_id = e.tenant_id;
  actor_user_id = e.actor_user_id;
  action = e.action;
  resource_type = take 64 e.resource_type;
  resource_id = take 64 e.resource_id;
  details = e.details;
  ip_address = client.ip_address;
  user_agent = client.user_agent;
  created_at = c.now;
}

unfoldable pub log_size : Db → ℕ
log_size db = length db.audit_logs

-- The row is flushed at the commit, which follows with nothing but more such rows between.
unfoldable pub record_audit_event : Context → Client → Event → Action Unit
record_audit_event c client e = do
  position ← query log_size
  insert_audit_log (audit_row c client e position)
