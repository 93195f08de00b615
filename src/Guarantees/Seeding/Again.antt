-- ===== src/Guarantees/Seeding/Again.antt =====
-- A second run of the bootstrap command.
use mathlib.Core.Bool.{false≢true}
use identity_access_service.Base.{
  Bool, true, false, some, List, [], ◌∷◌, ◌≡◌, refl, ap, sym, arith, All, update, first, nat_eq,
  string_eq, ==_refl, Bool-cases, inl, inr,
}
use identity_access_service.Base.Rows.{Distinct-first, All-map}
use identity_access_service.Models.{Uuid, Tenant, User, role_eq}
use identity_access_service.Errors.{ok}
use identity_access_service.Db.{
  Db, tenant_by_slug, tenant_by_id, user_by_email, user_by_id, tenant_has_id, tenant_has_slug,
  user_has_id, user_has_email, tenant_clash, user_clash,
}
use identity_access_service.Db.Session.{run, open_session, ◌>>=◌, set_tenant, set_user}
use identity_access_service.Core.Context.{Context}
use identity_access_service.Services.Tenants.{refresh_tenant}
use identity_access_service.Services.Users.{refresh_user}
use identity_access_service.Services.Bootstrap.{
  BootstrapAdminPayload, BootstrapAdminResult, ensure_system_admin, ensure_tenant, ensure_user,
  recover, rotate, record_tenant_created, record_user_created,
}
use identity_access_service.Guarantees.Integrity.{IsValid}
use identity_access_service.Guarantees.Integrity.Preserved.{serve_all-IsValid}
use identity_access_service.Requests.{serve, serve_all, seed_system_admin}
use identity_access_service.Guarantees.Seeding.{IsSeeded, seeded, seeding-IsChecked}

-- An assignment that changes no row that it picks.
update_fixed {ℓ} :
    {A : Type ℓ} (p : A → Bool) (f : A → A) (xs : List A)
    → All (λ x. p x ≡ true → f x ≡ x) xs
    → update p f xs ≡ xs
unfolding update
update_fixed p f [] fixed = refl
update_fixed p f (x ∷ xs) (fx, fixed) = elim (Bool-cases (p x)) [
  | inl t ↦ rw (t, fx t, update_fixed p f xs fixed) refl
  | inr n ↦ rw (n, update_fixed p f xs fixed) refl
]

-- By the key of a row that a query finds, only that row is picked.
tenant_fixed :
    (db : Db) (slug : _) (f : Tenant → Tenant) {t : Tenant}
    → IsValid db
    → tenant_by_slug slug db ≡ some t
    → f t ≡ t
    → set_tenant t.id f db ≡ db
unfolding tenant_by_slug
tenant_fixed db slug f {t} v found fixed =
    ap (λ ts. record db { tenants = ts })
      (update_fixed (tenant_has_id t.id) f db.tenants (
        All-map db.tenants
          (λ r same is_t.
            let e : r ≡ t = same (ground arith) (ground (arith, nat_eq.reflects r.id t.id)) in
            rw e fixed)
          (Distinct-first tenant_clash (tenant_has_slug slug) db.tenants v.tenants_distinct found)))

user_fixed :
    (db : Db) (tenant_id : Uuid) (email : _) (f : User → User) {u : User}
    → IsValid db
    → user_by_email tenant_id email db ≡ some u
    → f u ≡ u
    → set_user u.id f db ≡ db
unfolding user_by_email
user_fixed db tenant_id email f {u} v found fixed =
    ap (λ us. record db { users = us })
      (update_fixed (user_has_id u.id) f db.users (
        All-map db.users
          (λ r same is_u.
            let e : r ≡ u = same (ground arith) (ground (arith, nat_eq.reflects r.id u.id)) in
            rw e fixed)
          (Distinct-first user_clash (user_has_email tenant_id email) db.users v.users_distinct
            found)))

some-first {ℓ} :
    {A : Type ℓ} (p q : A → Bool) (xs : List A) {u : A}
    → first p xs ≡ some u
    → q u ≡ true
    → (w : A) × (first q xs ≡ some w)
unfolding first
some-first p q [] h qu = absurd (cc)
some-first p q (x ∷ xs) {u} h qu = elim (Bool-cases (q x)) [
  | inl t ↦ (x, rw t refl)
  | inr f ↦ elim (Bool-cases (p x)) [
    | inl t ↦ let e : x ≡ u = ground arith in absurd (ground arith)
    | inr n ↦ let (w, found) = some-first p q xs (rw n at h) qu in (w, rw f found)
  ]
]

module _ (c : Context) (payload : BootstrapAdminPayload) (db : Db) where
  first_again :
      {t : Tenant}
      → IsValid db
      → tenant_by_slug payload.tenant_slug db ≡ some t
      → t.is_active ≡ true
      → ensure_tenant c payload (tenant_by_slug payload.tenant_slug db) (open_session db)
        ≡ (ok (t, false), record (open_session db) { db = db })
  unfolding ensure_tenant ◌>>=◌
  first_again {t} v found active =
      let same : record t { is_active = true } ≡ t =
        ap (λ b. record t { is_active = b }) (sym active) in
      rw
        (
          found,
          tenant_fixed db payload.tenant_slug (λ t. record t { is_active = true }) v found same,
          same,
        )
        refl

  recover_same : {w : User} → IsSeeded c payload false w → recover c payload w ≡ w
  unfolding recover
  recover_same {w} k = rw (← k.named, ← k.active, ← k.no_failures, ← k.unlocked) refl

  second_again :
      (t : Tenant) {w : User}
      → IsValid db
      → payload.rotate_password ≡ false
      → user_by_email t.id payload.email db ≡ some w
      → IsSeeded c payload false w
      → ensure_user c payload t (user_by_email t.id payload.email db) (open_session db)
        ≡ (ok (w, false, false), open_session db)
  unfolding ensure_user recover rotate ◌>>=◌
  second_again t {w} v keep found k =
      let same : recover c payload w ≡ w = recover_same k in
      rw
        (found, k.is_admin, keep, user_fixed db t.id payload.email (recover c payload) v found same)
        refl

  again :
      {t : Tenant} {w : User}
      → IsValid db
      → payload.rotate_password ≡ false
      → tenant_by_slug payload.tenant_slug db ≡ some t
      → t.is_active ≡ true
      → user_by_email t.id payload.email db ≡ some w
      → IsSeeded c payload false w
      → (r : BootstrapAdminResult) × (run (ensure_system_admin c payload) db ≡ (ok r, db))
        × (r.tenant_created ≡ false)
        × (r.user_created ≡ false)
        × (r.password_rotated ≡ false)
  unfolding run ensure_system_admin record_tenant_created record_user_created refresh_tenant
      refresh_user tenant_by_id user_by_id tenant_by_slug user_by_email ◌>>=◌
  again {t} {w} v keep found active user k =
      let (t', refreshed) =
        some-first (tenant_has_slug payload.tenant_slug) (tenant_has_id t.id) db.tenants found
          (==_refl t.id) in
      let (w', reread) =
        some-first (user_has_email t.id payload.email) (user_has_id w.id) db.users user
          (==_refl w.id) in
      (
        record {
          tenant_id = t'.id;
          tenant_slug = t'.slug;
          user_id = w'.id;
          email = w'.email;
          tenant_created = false;
          user_created = false;
          password_rotated = false;
        },
        rw (first_again v found active, second_again t v keep user k, refreshed, reread) refl,
        refl,
        refl,
        refl,
      )

-- The same command without `--reset-password`.
abbrev pub without_reset : BootstrapAdminPayload → BootstrapAdminPayload
without_reset payload = record payload { rotate_password = false }

-- After a run of the bootstrap command that succeeded, at a database whose constraints hold, another
-- run for the same administrator without a reset, whatever its draws, succeeds, reports that it
-- created and rotated nothing, and leaves the database exactly as it is.
pub seeding_is_idempotent :
    (c : Context) (payload : BootstrapAdminPayload) (db : Db) {r : BootstrapAdminResult}
    (later : Context)
    → IsValid db
    → (run (ensure_system_admin c payload) db).0 ≡ ok r
    → (r' : BootstrapAdminResult) × (run
          (ensure_system_admin later (without_reset payload))
          (seeded c payload db)
        ≡ (ok r', seeded c payload db))
      × (r'.tenant_created ≡ false)
      × (r'.user_created ≡ false)
      × (r'.password_rotated ≡ false)
unfolding serve serve_all
seeding_is_idempotent c payload db later v h =
    let (w, at, k) = seeding-IsChecked c payload db c h in
    again later (without_reset payload) (seeded c payload db)
      (serve_all-IsValid (seed_system_admin c payload ∷ []) db v) refl at.found_tenant
      at.tenant_active at.found_user
      (record {
        is_admin = k.is_admin;
        active = k.active;
        unlocked = k.unlocked;
        named = k.named;
        no_failures = k.no_failures;
        password = λ no. absurd (false≢true no);
      })
