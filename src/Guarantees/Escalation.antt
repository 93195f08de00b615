-- ===== src/Guarantees/Escalation.antt =====
-- Nobody but a system administrator or the operator makes, changes or unmakes a system administrator.
use mathlib.Core.Path.{subst}
use identity_access_service.Base.{
  String, Bool, true, false, List, ◌≡◌, ◌≢◌, refl, ◌∙◌, ap, arith, All, filter, map, ◌==◌, nat_eq,
}
use identity_access_service.Base.Rows.{filter-update, view-update, All-map}
use identity_access_service.Models.{Uuid, User, Role, sys_admin, role_eq}
use identity_access_service.Db.{Db, user_has_id}
use identity_access_service.Db.Session.{set_user}
use identity_access_service.Core.Principal.{CurrentPrincipal}
use identity_access_service.Policy.{
  Authority, anonymous, signed_in, operator, MayManage, MayEnrol, SameAccount, Permitted, sign_up,
  enrol, note_login, assign_role, suspend, recover, Reach, here, next,
}
use identity_access_service.Requests.{Request, serve, authority}
use identity_access_service.Requests.Refines.{serve-Reach}
use identity_access_service.Guarantees.Integrity.{IsValid}
use identity_access_service.Guarantees.Integrity.Preserved.{Reach-IsValid}
use identity_access_service.Guarantees.Targets.{row_of_managed}

-- A user without the lockout and the time of the last login.
pub record Account : Type 0 where
  pub id : Uuid
  pub tenant_id : Uuid
  pub email : String
  pub full_name : String
  pub password_hash : String
  pub role : Role
  pub is_active : Bool

abbrev pub account_of : User → Account
account_of u = record {
  id = u.id;
  tenant_id = u.tenant_id;
  email = u.email;
  full_name = u.full_name;
  password_hash = u.password_hash;
  role = u.role;
  is_active = u.is_active;
}

abbrev is_system_admin : User → Bool
is_system_admin u = u.role == sys_admin

-- The accounts of the system administrators.
unfoldable pub system_admins : Db → List Account
system_admins db = map account_of (filter is_system_admin db.users)

-- Neither a system administrator nor the operator.
abbrev pub IsUnprivileged : Authority → Type 0
IsUnprivileged anonymous = Unit {0}
IsUnprivileged (signed_in p) = p.role ≢ sys_admin
IsUnprivileged operator = ⊥

managed_is_no_admin :
    (p : CurrentPrincipal) (tenant_id : Uuid) (role : Role)
    → p.role ≢ sys_admin
    → MayManage p tenant_id role
    → (role == sys_admin) ≡ false
managed_is_no_admin p tenant_id role plain may = ground arith

-- A change of one user that is no system administrator before it and after it.
set_user-admins :
    (db : Db) (u : User) (f : User → User)
    → All (λ r. user_has_id u.id r ≡ true → r ≡ u) db.users
    → is_system_admin u ≡ false
    → is_system_admin (f u) ≡ false
    → system_admins (set_user u.id f db) ≡ system_admins db
unfolding system_admins
set_user-admins db u f only before after = ap (map account_of) (
    filter-update is_system_admin (user_has_id u.id) f db.users
      (All-map db.users (λ r is_u same. let e = is_u same in (rw e before, rw e after)) only))

enrolled_is_no_admin :
    (a : Authority) (u : User) → IsUnprivileged a → MayEnrol a u → is_system_admin u ≡ false
enrolled_is_no_admin anonymous u plain may = absurd may
enrolled_is_no_admin (signed_in p) u plain may = managed_is_no_admin p u.tenant_id u.role plain may
enrolled_is_no_admin operator u plain may = absurd plain

pub account_of-same : (u w : User) → SameAccount u w → account_of w ≡ account_of u
account_of-same u w same = ground arith

Permitted-admins :
    {a : Authority} {d e : Db}
    → IsUnprivileged a
    → IsValid d
    → Permitted a d e
    → system_admins e ≡ system_admins d
unfolding system_admins filter
Permitted-admins plain v (sign_up db t u _ _ _ _ admin) = ground arith
Permitted-admins {a} plain v (enrol db u may _) = ground (arith, enrolled_is_no_admin a u plain may)
Permitted-admins plain v (note_login db id f _ same) =
    view-update account_of is_system_admin (user_has_id id) f (λ u. rw (same u).role)
      (λ u. account_of-same u (f u) (same u)) db.users
Permitted-admins plain v (assign_role db p tid uid u role who found may may') =
    let p_plain = subst IsUnprivileged who plain in
    set_user-admins db u _ (row_of_managed db v tid uid found)
      (managed_is_no_admin p tid u.role p_plain may) (managed_is_no_admin p tid role p_plain may')
Permitted-admins plain v (suspend db p tid uid u now who found may _) =
    let before = managed_is_no_admin p tid u.role (subst IsUnprivileged who plain) may in
    set_user-admins db u _ (row_of_managed db v tid uid found) before before
Permitted-admins plain v (recover db u f who _) = absurd (subst IsUnprivileged who plain)
Permitted-admins plain v _ = refl

Reach-admins :
    {a : Authority} {d e : Db}
    → IsUnprivileged a
    → IsValid d
    → Reach a d e
    → system_admins e ≡ system_admins d
Reach-admins plain v here = refl
Reach-admins plain v (next r p) =
    Permitted-admins plain (Reach-IsValid r v) p ∙ Reach-admins plain v r

-- At a database whose constraints hold, a request by anyone but a system administrator or the
-- operator leaves the accounts of the system administrators as they are: none is added, removed,
-- deactivated or given another e-mail address, password or tenant.
pub serve-system_admins :
    (r : Request) (db : Db)
    → IsValid db
    → IsUnprivileged (authority r db)
    → system_admins (serve r db) ≡ system_admins db
serve-system_admins r db v plain = Reach-admins plain v (serve-Reach r db)
