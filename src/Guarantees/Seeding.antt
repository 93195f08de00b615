-- ===== src/Guarantees/Seeding.antt =====
-- The bootstrap command leaves an administrator that can sign in.
pub mod Again
pub mod SignIn
use mathlib.Core.Path.{subst}
use identity_access_service.Base.{
  Bool, true, none, some, ◌≡◌, refl, sym, arith, ◌||◌, nat_eq, string_eq, first, update,
  Option-cases, Bool-cases, inl, inr,
}
use identity_access_service.Base.Rows.{first-update, first_sound}
use identity_access_service.Models.{Tenant, User, sys_admin, role_eq}
use identity_access_service.Errors.{Result, ok}
use identity_access_service.Errors.{Result-cases}
use identity_access_service.Db.{
  Db, tenant_by_slug, user_by_email, tenant_has_id, tenant_has_slug, user_has_id, user_has_email,
}
use identity_access_service.Db.Session.{
  Session, ◌>>=◌, run, open_session, insert_tenant, insert_user, insert_audit_log,
}
use identity_access_service.Core.Context.{Context, Client}
use identity_access_service.Core.Security.{hash_password, verify_password}
use identity_access_service.Services.Audit.{record_audit_event}
use identity_access_service.Services.Tenants.{refresh_tenant}
use identity_access_service.Services.Users.{refresh_user}
use identity_access_service.Services.Auth.Login.{LoginRequest, login}
use identity_access_service.Services.Auth.Login.Outcomes.{IsChecked, verifies}
use identity_access_service.Services.Auth.Login.Success.{
  IsFresh, login_succeeds, login_result, signed_in,
}
use identity_access_service.Services.Bootstrap.{
  BootstrapAdminPayload, BootstrapAdminResult, ensure_system_admin, ensure_tenant, ensure_user,
  bootstrap_user, recover, rotate, record_tenant_created, record_user_created,
}

module _ (c : Context) (payload : BootstrapAdminPayload) where
  -- The tenant is stored under the slug, and active.
  pub ensure_tenant-found :
      (s : Session) {t : Tenant} {b : Bool}
      → (ensure_tenant c payload (tenant_by_slug payload.tenant_slug s.db) s).0 ≡ ok (t, b)
      → (tenant_by_slug payload.tenant_slug
            (ensure_tenant c payload (tenant_by_slug payload.tenant_slug s.db) s).1.db
          ≡ some t)
        × (t.is_active ≡ true)
  unfolding ensure_tenant tenant_by_slug insert_tenant first ◌>>=◌
  ensure_tenant-found s {t} {b} h =
      elim (Option-cases (first (tenant_has_slug payload.tenant_slug) s.db.tenants)) [
        | inl none_there ↦ (
          ground (arith, string_eq.reflects payload.tenant_slug payload.tenant_slug),
          ground arith,
        )
        | inr (tenant, there) ↦ (
          ground (
            arith,
            first-update (tenant_has_id tenant.id) (tenant_has_slug payload.tenant_slug)
                (λ t. record t { is_active = true }) (λ t. refl) s.db.tenants,
            nat_eq.reflects tenant.id tenant.id,
          ),
          ground arith,
        )
      ]

  -- An administrator that can sign in; with the password of the command if that was stored.
  pub record IsSeeded (stored : Bool) (w : User) : Type 0 where
    pub is_admin : w.role ≡ sys_admin
    pub active : w.is_active ≡ true
    pub unlocked : w.locked_until ≡ none
    pub named : w.full_name ≡ payload.full_name
    pub no_failures : w.failed_login_attempts ≡ 0
    pub password : stored ≡ true → w.password_hash ≡ hash_password c payload.password

  pub ensure_user-found :
      (tenant : Tenant) (s : Session) {u : User} {added rotated : Bool}
      → (ensure_user c payload tenant (user_by_email tenant.id payload.email s.db) s).0
        ≡ ok (u, added, rotated)
      → (w : User) × (user_by_email tenant.id payload.email
            (ensure_user c payload tenant (user_by_email tenant.id payload.email s.db) s).1.db
          ≡ some w)
        × IsSeeded (added || rotated) w
        × ((ensure_user c payload tenant
              (user_by_email tenant.id payload.email s.db)
              s).1.db.tenants
            ≡ s.db.tenants)
  unfolding ensure_user recover rotate user_by_email insert_user first ◌>>=◌
  ensure_user-found tenant s h =
      elim (Option-cases (first (user_has_email tenant.id payload.email) s.db.users)) [
        | inl none_there ↦ (
          bootstrap_user c payload tenant.id,
          ground (
            arith,
            nat_eq.reflects tenant.id tenant.id,
            string_eq.reflects payload.email payload.email,
          ),
          record {
            is_admin = refl;
            active = refl;
            unlocked = refl;
            named = refl;
            no_failures = refl;
            password = λ e. refl;
          },
          ground arith,
        )
        | inr (v, there) ↦
            let at = user_has_id v.id in
            let mine = user_has_email tenant.id payload.email in
            let once = first-update at mine (recover c payload) (λ u. refl) s.db.users in
            let same = nat_eq.reflects v.id v.id in
            elim (Bool-cases payload.rotate_password) [
              | inr keep ↦ (
                recover c payload v,
                ground (arith, once, same),
                record {
                  is_admin = ground arith;
                  active = refl;
                  unlocked = refl;
                  named = refl;
                  no_failures = refl;
                  password = λ e. absurd (ground arith);
                },
                ground arith,
              )
              | inl change ↦ (
                record (recover c payload v) { password_hash = hash_password c payload.password },
                ground (
                  arith,
                  once,
                  same,
                  first-update at mine
                      (λ u. record u { password_hash = hash_password c payload.password })
                      (λ u. refl) (update at (recover c payload) s.db.users),
                ),
                record {
                  is_admin = ground arith;
                  active = refl;
                  unlocked = refl;
                  named = refl;
                  no_failures = refl;
                  password = λ e. refl;
                },
                ground arith,
              )
            ]
      ]

  module _ (db : Db) where
    abbrev pub first_stage : Result (Tenant × Bool) × Session
    first_stage = ensure_tenant c payload (tenant_by_slug payload.tenant_slug db) (open_session db)

    abbrev pub second_stage : Tenant → Result (User × Bool × Bool) × Session
    second_stage tenant =
        ensure_user c payload tenant (user_by_email tenant.id payload.email first_stage.1.db)
          first_stage.1

    seeding_stages :
        {r : BootstrapAdminResult}
        → (run (ensure_system_admin c payload) db).0 ≡ ok r
        → (t : Tenant) × (created : Bool) × (u : User) × (first_stage.0 ≡ ok (t, created))
          × ((second_stage t).0 ≡ ok (u, r.user_created, r.password_rotated))
          × ((run (ensure_system_admin c payload) db).1.tenants ≡ (second_stage t).1.db.tenants)
          × ((run (ensure_system_admin c payload) db).1.users ≡ (second_stage t).1.db.users)
    unfolding run ensure_system_admin record_tenant_created record_user_created record_audit_event
        insert_audit_log refresh_tenant refresh_user ◌>>=◌
    seeding_stages h = elim (Result-cases first_stage.0) [
      | inl (e, bad) ↦ absurd (ground arith)
      | inr ((t, created), good) ↦ elim (Result-cases (second_stage t).0) [
        | inl (e, bad) ↦ absurd (ground arith)
        | inr ((u, added, rotated), good') ↦
            (t, created, u, good, ground arith, ground arith, ground arith)
      ]
    ]

  -- The login with the texts that the command stores, the schema left aside: Seeding.SignIn says when
  -- the validation of a login passes them on as they are.
  abbrev pub admin_login : LoginRequest
  admin_login = record {
    tenant_slug = payload.tenant_slug;
    email = payload.email;
    password = payload.password;
  }

  abbrev pub seeded : Db → Db
  seeded db = (run (ensure_system_admin c payload) db).1

  pub seeding-IsChecked :
      (db : Db) {r : BootstrapAdminResult} (c' : Context)
      → (run (ensure_system_admin c payload) db).0 ≡ ok r
      → (w : User) × IsChecked c' admin_login (seeded db) w
        × IsSeeded (r.user_created || r.password_rotated) w
  unfolding tenant_by_slug user_by_email
  seeding-IsChecked db c' h =
      let (t, created, u, first, second, tenants, users) = seeding_stages db h in
      let (found_tenant, tenant_active) = ensure_tenant-found (open_session db) first in
      let (w, found_user, k, kept) = ensure_user-found t (first_stage db).1 second in
      (
        w,
        record {
          tenant = t;
          found_tenant = rw (tenants, kept) found_tenant;
          tenant_active = tenant_active;
          found_user = rw users found_user;
          user_active = k.active;
          unlocked = rw (k.unlocked) refl;
        },
        k,
      )

  -- The login with the stored texts answers, once a schema lets them pass.
  pub seeded-login :
      (db : Db) {r : BootstrapAdminResult} (c' : Context) (client : Client)
      → (run (ensure_system_admin c payload) db).0 ≡ ok r
      → (r.user_created || r.password_rotated) ≡ true
      → c'.checkpw payload.password (c.hashpw payload.password c.salt) ≡ true
      → IsFresh c' (seeded db)
      → (w : User) × (home : Tenant) × (w.role ≡ sys_admin)
        × (w.email ≡ payload.email)
        × ((run (login c' admin_login client) (seeded db)).0
            ≡ ok (login_result c' (signed_in c' w) home))
  unfolding verify_password hash_password user_by_email
  seeded-login db c' client h stored accepts fresh =
      let (w, checked, k) = seeding-IsChecked db c' h in
      let right : verifies c' admin_login w ≡ true =
        subst (λ hash. c'.checkpw payload.password hash ≡ true) (sym (k.password stored)) accepts in
      let (home, done) = login_succeeds c' admin_login client (seeded db) checked right fresh in
      let mine =
        first_sound (user_has_email checked.tenant.id payload.email) _ checked.found_user in
      (w, home, k.is_admin, ground (arith, mine, string_eq.reflects w.email payload.email), done)
