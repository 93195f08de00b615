-- ===== src/Models/Enums.antt =====
-- app/models/enums.py
use identity_access_service.Base.{
  String, Bool, true, false, ◌≡◌, ◌↔◌, arith, Equality, eq_of_discrete,
}

pub data Role : Type 0 where
  sys_admin tenant_admin user : Role

-- `role.value`
unfoldable pub role_value : Role → String
role_value sys_admin = "SYS_ADMIN"
role_value tenant_admin = "TENANT_ADMIN"
role_value user = "USER"

abbrev role_beq : Role → Role → Bool
role_beq sys_admin sys_admin = true
role_beq tenant_admin tenant_admin = true
role_beq user user = true
role_beq _ _ = false

pub role_beq_iff : (a b : Role) → (role_beq a b ≡ true) ↔ (a ≡ b)
role_beq_iff a b = (λ h. ground arith, λ h. ground arith)

instance abbrev pub role_eq : Equality Role
role_eq = record { same = role_beq; reflects = role_beq_iff }

pub data AuditAction : Type 0 where
  login_success login_failure : AuditAction
  user_created user_deactivated : AuditAction
  role_changed token_revoked : AuditAction
  tenant_created tenant_updated : AuditAction

pub AuditAction-discrete : Discrete AuditAction
AuditAction-discrete = hlevel

instance abbrev pub audit_action_eq : Equality AuditAction
audit_action_eq = eq_of_discrete AuditAction-discrete
