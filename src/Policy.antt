-- ===== src/Policy.antt =====
-- The access policy that the services are to enforce: the changes of the database that each kind of
-- caller may make. It is stated without the services: `Policy.*` proves that each of them makes no other
-- change, and `Guarantees` what follows for every state that requests lead to.
pub mod Common
pub mod SignUp
pub mod SignIn
pub mod Managing
pub mod Operating
use identity_access_service.Base.{
  String, Bool, true, false, Option, some, none, List, ◌≡◌, ◌≢◌, ◌⊎◌, update,
}
use identity_access_service.Models.{
  Uuid, Tenant, User, RefreshToken, AuditLog, Role, sys_admin, tenant_admin, Datetime,
}
use identity_access_service.Db.{
  Db, tenant_by_id, user_by_id, tenant_refused, user_refused, token_refused, audit_refused,
  token_has_id,
}
use identity_access_service.Db.Session.{
  add_tenant, add_user, add_token, add_audit_log, set_tenant, set_user, set_tokens,
}
use identity_access_service.Core.Principal.{CurrentPrincipal}
use identity_access_service.Services.Users.{live_token_of, revoke_at, user_in_tenant_by_id}

-- Who makes a change: a client of the public endpoints, a signed-in principal, or the operator at the
-- command line.
pub data Authority : Type 0 where
  anonymous : Authority
  signed_in : CurrentPrincipal → Authority
  operator : Authority

-- The caller may manage the users of a tenant: a system administrator those of every tenant, a tenant
-- administrator those of its own, as long as no system administrator is concerned.
abbrev pub MayManage : CurrentPrincipal → Uuid → Role → Type 0
MayManage p tenant_id role =
    (p.role ≡ sys_admin) ⊎ (p.role ≡ tenant_admin) × (p.tenant_id ≡ tenant_id) × (role ≢ sys_admin)

-- Who may open a tenant with no user: a system administrator, and the operator.
abbrev pub MayOpenTenant : Authority → Type 0
MayOpenTenant anonymous = ⊥
MayOpenTenant (signed_in p) = p.role ≡ sys_admin
MayOpenTenant operator = Unit

-- Who may change a tenant's name and whether it is active.
abbrev pub MayEditTenant : Authority → Type 0
MayEditTenant anonymous = ⊥
MayEditTenant (signed_in p) = p.role ≡ sys_admin
MayEditTenant operator = Unit

-- Who may add a user to a tenant that is there.
abbrev pub MayEnrol : Authority → User → Type 0
MayEnrol anonymous u = ⊥
MayEnrol (signed_in p) u = MayManage p u.tenant_id u.role
MayEnrol operator u = u.role ≡ sys_admin

-- Only the lockout and the time of the last login differ.
pub record SameAccount (u v : User) : Type 0 where
  pub id : v.id ≡ u.id
  pub tenant_id : v.tenant_id ≡ u.tenant_id
  pub email : v.email ≡ u.email
  pub full_name : v.full_name ≡ u.full_name
  pub password_hash : v.password_hash ≡ u.password_hash
  pub role : v.role ≡ u.role
  pub is_active : v.is_active ≡ u.is_active

-- The user's identity, role and tenant are the same.
pub record SameIdentity (u v : User) : Type 0 where
  pub id : v.id ≡ u.id
  pub tenant_id : v.tenant_id ≡ u.tenant_id
  pub email : v.email ≡ u.email
  pub role : v.role ≡ u.role

pub record SameTenant (t v : Tenant) : Type 0 where
  pub id : v.id ≡ t.id
  pub slug : v.slug ≡ t.slug

-- One permitted change. Every row that is added passes the constraints of the database.
pub data Permitted (a : Authority) : Db → Db → Type 0 where
  -- every caller leaves a trace
  log : (db : Db) (e : AuditLog) → audit_refused e db ≡ false → Permitted a db (add_audit_log e db)
  -- self sign-up: a tenant of its own, with the caller as its administrator
  sign_up :
      (db : Db) (t : Tenant) (u : User)
      → a ≡ anonymous
      → tenant_refused t db ≡ false
      → user_refused u (add_tenant t db) ≡ false
      → u.tenant_id ≡ t.id
      → u.role ≡ tenant_admin
      → Permitted a db (add_user u (add_tenant t db))
  open_tenant :
      (db : Db) (t : Tenant)
      → MayOpenTenant a
      → tenant_refused t db ≡ false
      → Permitted a db (add_tenant t db)
  edit_tenant :
      (db : Db) (id : Uuid) (f : Tenant → Tenant)
      → MayEditTenant a
      → ((t : Tenant) → SameTenant t (f t))
      → Permitted a db (set_tenant id f db)
  enrol :
      (db : Db) (u : User)
      → MayEnrol a u
      → user_refused u db ≡ false
      → Permitted a db (add_user u db)
  -- a login counts failures, locks and unlocks
  note_login :
      (db : Db) (id : Uuid) (f : User → User)
      → a ≡ anonymous
      → ((u : User) → SameAccount u (f u))
      → Permitted a db (set_user id f db)
  -- a login or a refresh issues a token that is not yet revoked
  issue :
      (db : Db) (t : RefreshToken)
      → a ≡ anonymous
      → token_refused t db ≡ false
      → t.revoked_at ≡ none
      → Permitted a db (add_token t db)
  -- a refresh or a logout revokes the token that it was given
  revoke :
      (db : Db) (id : Uuid) (now : Datetime)
      → a ≡ anonymous
      → Permitted a db (set_tokens (token_has_id id) (revoke_at now) db)
  assign_role :
      (db : Db) (p : CurrentPrincipal) (tenant_id user_id : Uuid) (u : User) (role : Role)
      → a ≡ signed_in p
      → user_in_tenant_by_id tenant_id user_id db ≡ some u
      → MayManage p tenant_id u.role
      → MayManage p tenant_id role
      → Permitted a db (set_user u.id (λ v. record v { role = role }) db)
  -- a suspension ends the sessions of the user
  suspend :
      (db : Db) (p : CurrentPrincipal) (tenant_id user_id : Uuid) (u : User) (now : Datetime)
      → a ≡ signed_in p
      → user_in_tenant_by_id tenant_id user_id db ≡ some u
      → MayManage p tenant_id u.role
      → p.user_id ≢ u.id
      → Permitted a db (
          set_tokens
            (live_token_of u.id)
            (revoke_at now)
            (set_user u.id (λ v. record v { is_active = false }) db))
  -- the operator rewrites a user's name, password, lock and activity, and ends its sessions
  recover :
      (db : Db) (u : User) (f : User → User)
      → a ≡ operator
      → ((v : User) → SameIdentity v (f v))
      → Permitted a db (set_user u.id f db)
  rotate :
      (db : Db) (id : Uuid) (now : Datetime)
      → a ≡ operator
      → Permitted a db (set_tokens (live_token_of id) (revoke_at now) db)

-- A sequence of permitted changes.
pub data Reach (a : Authority) (db : Db) : Db → Type 0 where
  here : Reach a db db
  next : {d e : Db} → Reach a db d → Permitted a d e → Reach a db e
