-- ===== src/Services/Audit/Visible.antt =====
-- `list_tenant_audit_logs`: to whom it answers, and of which tenant the events are.
use mathlib.Core.Path.{subst}
use identity_access_service.Base.{
  ℕ, true, Option, some, List, All, ◌≡◌, refl, ap, ◌∙◌, arith, nat_eq, inl, inr,
}
use identity_access_service.Base.Rows.{All-map}
use identity_access_service.Base.Pages.{All-sort, All-offset, All-limit, All-map_of, All-filter}
use identity_access_service.Base.Int.{ℤ}
use identity_access_service.Models.{Uuid, AuditAction, AuditLog, Tenant}
use identity_access_service.Errors.{ok, Result-cases}
use identity_access_service.Db.{Db, tenant_by_id}
use identity_access_service.Db.Session.{Session, ◌>>=◌}
use identity_access_service.Core.Principal.{CurrentPrincipal}
use identity_access_service.Services.Tenants.{resolve_visible_tenant, admin_roles}
use identity_access_service.Services.Tenants.Visible.{
  MaySee, resolve_visible_tenant_iff, resolve_reads,
}
use identity_access_service.Services.Audit.Listing.{
  Filters, AuditLogListResponse, AuditLogResponse, has_tenant, build_statement, serialize_log,
  newest_first, safe_limit, safe_offset, list_tenant_audit_logs, list_system_audit_logs,
}
use identity_access_service.Services.Audit.Pages.{page_at, list_system_audit_logs_lem}

-- The rows that a statement for a tenant selects are of that tenant.
has_tenant_sound :
    (tenant_id : Uuid) (a : AuditLog)
    → has_tenant (some tenant_id) a ≡ true
    → a.tenant_id ≡ some tenant_id
unfolding has_tenant
has_tenant_sound tenant_id a h = ground (arith, nat_eq.reflects)

build_statement_sound :
    (filters : Filters) (tenant_id : Uuid) (db : Db)
    → filters.tenant_id ≡ some tenant_id
    → All (λ a. a.tenant_id ≡ some tenant_id) (build_statement filters db)
unfolding build_statement
build_statement_sound filters tenant_id db only =
    All-map _ (λ a kept. ground (arith, has_tenant_sound tenant_id a)) (All-filter _ db.audit_logs)

abbrev pub IsShownWith : Tenant → AuditLogResponse → Type 0
IsShownWith t i = i.tenant ≡ some (record { id = t.id; name = t.name; slug = t.slug })

-- An event of a stored tenant is shown with that tenant.
serialize_log-tenant :
    (db : Db) (tenant_id : Uuid) (t : Tenant)
    → tenant_by_id tenant_id db ≡ some t
    → (a : AuditLog) → a.tenant_id ≡ some tenant_id
    → IsShownWith t (serialize_log db a)
unfolding serialize_log
serialize_log-tenant db tenant_id t stored a of = rw (of, stored) refl

page_at-IsShownWith :
    (rows : List AuditLog) (db : Db) (size start : ℕ) (t : Tenant)
    → All (λ a. IsShownWith t (serialize_log db a)) rows
    → All (IsShownWith t) (page_at rows db size start).items
page_at-IsShownWith rows db size start t all =
    All-map_of _ (serialize_log db) _
      (All-limit _ size _ (All-offset _ start _ (All-sort newest_first _ rows all)))

module _ (p : CurrentPrincipal) (tenant_id : Uuid) (action : Option AuditAction)
    (actor_user_id : Option Uuid) (l o : ℤ) (s : Session) where
  abbrev of_tenant : Filters
  of_tenant = record { action = action; tenant_id = some tenant_id; actor_user_id = actor_user_id }

  -- For a principal to whom the tenant is shown, its listing is that of the system for the tenant.
  list_tenant_is_system :
      {t : Tenant}
      → (resolve_visible_tenant p tenant_id admin_roles s).0 ≡ ok t
      → list_tenant_audit_logs p tenant_id action actor_user_id l o s
        ≡ list_system_audit_logs of_tenant l o s
  unfolding list_tenant_audit_logs list_system_audit_logs ◌>>=◌
  list_tenant_is_system shown = rw (shown, resolve_reads p tenant_id admin_roles s) refl

  -- A tenant's listing that answers was asked for by a system administrator or by an administrator of
  -- that tenant, and the tenant is stored; every event of the page is of that tenant; nothing is
  -- changed.
  pub list_tenant_audit_logs_sound :
      {page : AuditLogListResponse}
      → (list_tenant_audit_logs p tenant_id action actor_user_id l o s).0 ≡ ok page
      → MaySee p tenant_id admin_roles
        × ((list_tenant_audit_logs p tenant_id action actor_user_id l o s).1 ≡ s)
        × (t : Tenant) × (tenant_by_id tenant_id s.db ≡ some t)
        × All (IsShownWith t) page.items
  unfolding list_tenant_audit_logs ◌>>=◌
  list_tenant_audit_logs_sound {page} h =
      elim (Result-cases (resolve_visible_tenant p tenant_id admin_roles s).0) [
        | inl (e, refused) ↦ absurd (ground arith)
        | inr (t, shown) ↦
            let (stored, may) = (resolve_visible_tenant_iff p tenant_id admin_roles s t).0 shown in
            let same = list_tenant_is_system shown ∙ list_system_audit_logs_lem of_tenant s l o in
            let all =
              All-map _ (serialize_log-tenant s.db tenant_id t stored)
                (build_statement_sound of_tenant tenant_id s.db refl) in
            let e : page_at (build_statement of_tenant s.db) s.db (safe_limit l) (safe_offset o)
                ≡ page =
              cc in
            (
              may,
              ap (λ r. r.1) same,
              t,
              stored,
              subst (λ (q : AuditLogListResponse). All (IsShownWith t) q.items) e
                  (page_at-IsShownWith _ s.db _ _ t all),
            )
      ]
