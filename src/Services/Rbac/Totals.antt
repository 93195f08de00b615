-- ===== src/Services/Rbac/Totals.antt =====
-- The summaries: how their counts fit together, and on which rows they depend.
use identity_access_service.Base.{
  ◌+◌, ◌≤◌, true, Bool, Option, none, some, List, [], ◌∷◌, filter, length, ◌≡◌, refl, ◌∙◌, sym, ap,
  arith, ◌&&◌, nat_eq,
}
use identity_access_service.Models.{
  Uuid, Tenant, User, Role, sys_admin, tenant_admin, user, role_eq,
}
use identity_access_service.Errors.{ok}
use identity_access_service.Db.{Db}
use identity_access_service.Db.Session.{Session, open_session, ◌>>=◌}
use identity_access_service.Core.Principal.{CurrentPrincipal}
use identity_access_service.Services.Users.{user_in_tenant}
use identity_access_service.Services.Rbac.{
  SystemAdminSummaryResponse, has_role, is_value, count_users, count_tenants,
  build_tenant_admin_summary, build_system_admin_summary,
}

abbrev counted : Option Role → Option Bool → User → Bool
counted role is_active u = has_role role u && is_value is_active u.is_active

-- Every user has one of three roles.
by_role :
    (us : List User)
    → length (filter (counted none none) us)
      ≡ length (filter (counted (some sys_admin) none) us)
        + length (filter (counted (some tenant_admin) none) us)
        + length (filter (counted (some user) none) us)
unfolding filter
by_role [] = omega arith
by_role (u ∷ us) = ground (arith, by_role us)

filter_all {ℓ} : {A : Type ℓ} (xs : List A) → filter (λ x. true) xs ≡ xs
unfolding filter
filter_all [] = refl
filter_all (x ∷ xs) = rw (filter_all xs) refl

narrower {ℓ} :
    {A : Type ℓ} (p q : A → Bool) (xs : List A)
    → ((x : A) → q x ≡ true → p x ≡ true)
    → length (filter q xs) ≤ length (filter p xs)
unfolding filter
narrower p q [] h = omega arith
narrower p q (x ∷ xs) h = ground (arith, h x, narrower p q xs h)

filter-filter {ℓ} :
    {A : Type ℓ} (p q : A → Bool) (xs : List A)
    → filter (λ x. p x && q x) xs ≡ filter q (filter p xs)
unfolding filter
filter-filter p q [] = refl
filter-filter p q (x ∷ xs) = ground (arith, filter-filter p q xs)

count_users_of_tenant :
    (tenant_id : Uuid) (role : Option Role) (is_active : Option Bool) (db : Db)
    → count_users (some tenant_id) role is_active db
      ≡ length (filter (counted role is_active) (filter (user_in_tenant tenant_id) db.users))
unfolding count_users
count_users_of_tenant tenant_id role is_active db =
    ap length (filter-filter (user_in_tenant tenant_id) (counted role is_active) db.users)

-- The summary of the system answers from the rows as they are: its users are the sum of those of the
-- three roles, and the active tenants are among the tenants.
pub build_system_admin_summary_totals :
    (s : Session)
    → (r : SystemAdminSummaryResponse) × (build_system_admin_summary s ≡ (ok r, s))
      × (r.total_users ≡ length s.db.users)
      × (r.total_tenants ≡ length s.db.tenants)
      × (r.total_users ≡ r.system_admins + r.tenant_admins + r.standard_users)
      × (r.active_tenants ≤ r.total_tenants)
unfolding build_system_admin_summary count_users count_tenants ◌>>=◌
build_system_admin_summary_totals s = (
  _,
  refl,
  ap length (filter_all s.db.users),
  ap length (filter_all s.db.tenants),
  by_role s.db.users,
  narrower (λ (t : Tenant). true) (λ (t : Tenant). is_value (some true) t.is_active) s.db.tenants
      (λ t _. refl),
)

-- The summary of a tenant reads only the users of that tenant: at two databases in which these are the
-- same, it is the same.
pub build_tenant_admin_summary_local :
    (p : CurrentPrincipal) (d e : Db)
    → filter (user_in_tenant p.tenant_id) d.users ≡ filter (user_in_tenant p.tenant_id) e.users
    → (build_tenant_admin_summary p (open_session d)).0
      ≡ (build_tenant_admin_summary p (open_session e)).0
unfolding build_tenant_admin_summary ◌>>=◌
build_tenant_admin_summary_local p d e same =
    rw
      (
        count none none,
        count none (some true),
        count (some tenant_admin) none,
        count (some user) none,
      )
      refl
  where
    count :
        (role : Option Role) (is_active : Option Bool)
        → count_users (some p.tenant_id) role is_active d
          ≡ count_users (some p.tenant_id) role is_active e
    count role is_active =
        count_users_of_tenant p.tenant_id role is_active d
        ∙ ap (λ us. length (filter (counted role is_active) us)) same
        ∙ sym (count_users_of_tenant p.tenant_id role is_active e)
