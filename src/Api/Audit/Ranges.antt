-- ===== src/Api/Audit/Ranges.antt =====
-- The endpoint of the system's listing: who gets a page, and of which numbers.
use identity_access_service.Base.{
  ℕ, true, Option, [], ◌∷◌, ◌≡◌, refl, ◌∙◌, sym, ap, arith, ◌≤◌, Bool-cases, inl, inr,
}
use identity_access_service.Base.Int.{ℤ, pos, negsuc}
use identity_access_service.Errors.{ok}
use identity_access_service.Models.{sys_admin}
use identity_access_service.Db.Session.{Session, Action, ◌>>=◌, ◌>>◌, raise_if}
use identity_access_service.Db.Outcomes.{bind_answers}
use identity_access_service.Core.Context.{Context}
use identity_access_service.Core.Principal.{CurrentPrincipal}
use identity_access_service.Services.Audit.Listing.{
  Filters, AuditLogListResponse, list_system_audit_logs, build_statement, safe_limit, safe_offset,
}
use identity_access_service.Services.Audit.Pages.{
  list_system_audit_logs_lem, safe_limit_id, safe_offset_id, page_at,
}
use identity_access_service.Api.Http.{Reply, reply}
use identity_access_service.Api.Dependencies.{Credentials, get_current_principal, require_roles}
use identity_access_service.Api.Dependencies.Reads.{require_roles_sound}
use identity_access_service.Api.Audit.{
  limit_query, offset_query, validate_query, list_system_audit_logs_endpoint,
}

limit_query_sound : (l : ℤ) → limit_query l ≡ true → (n : ℕ) × (l ≡ pos n) × (1 ≤ n) × (n ≤ 100)
unfolding limit_query
limit_query_sound (pos n) h = (n, refl, ground arith, ground arith)
limit_query_sound (negsuc n) h = absurd (ground arith)

offset_query_sound : (o : ℤ) → offset_query o ≡ true → (n : ℕ) × (o ≡ pos n)
unfolding offset_query
offset_query_sound (pos n) h = (n, refl)
offset_query_sound (negsuc n) h = absurd (ground arith)

module _ (c : Context) (who : Option Credentials) (filters : Filters) (l o : ℤ) where
  validate_query_sound :
      (s : Session) {u : Unit}
      → (validate_query c l o s).0 ≡ ok u
      → (limit_query l ≡ true) × (offset_query o ≡ true)
  unfolding validate_query raise_if
  validate_query_sound s {u} h = elim (Bool-cases (limit_query l)) [
    | inl lt ↦ elim (Bool-cases (offset_query o)) [
      | inl ot ↦ (lt, ot)
      | inr of ↦ absurd (cc (rw (lt, of) at h))
    ]
    | inr lf ↦ absurd (cc (rw lf at h))
  ]

  list_and_reply : Action (Reply AuditLogListResponse)
  list_and_reply = list_system_audit_logs filters l o >>= reply 200

  list_and_reply_sound :
      (s : Session) {r : Reply AuditLogListResponse}
      → (list_and_reply s).0 ≡ ok r
      → limit_query l ≡ true
      → offset_query o ≡ true
      → (l ≡ pos r.body.limit) × (o ≡ pos r.body.offset)
  unfolding list_and_reply ◌>>=◌ reply
  list_and_reply_sound s {r} h lt ot =
      let (n, is_n, low, high) = limit_query_sound l lt in
      let (m, is_m) = offset_query_sound o ot in
      let e : page_at (build_statement filters s.db) s.db (safe_limit l) (safe_offset o) ≡ r.body =
        cc (h, list_system_audit_logs_lem filters s l o) in
      (
        is_n
            ∙ ap pos (sym (ap safe_limit is_n ∙ safe_limit_id n low high))
            ∙ ap (λ (b : AuditLogListResponse). pos b.limit) e,
        is_m
            ∙ ap pos (sym (ap safe_offset is_m ∙ safe_offset_id m))
            ∙ ap (λ (b : AuditLogListResponse). pos b.offset) e,
      )

  -- A page of the system's log goes to a system administrator alone, and its limit and its offset are
  -- the numbers that were asked for: the numbers that the service would replace are refused before.
  pub list_system_audit_logs_endpoint_requires :
      (s : Session) {r : Reply AuditLogListResponse}
      → (list_system_audit_logs_endpoint c who filters l o s).0 ≡ ok r
      → (p : CurrentPrincipal) × ((get_current_principal c who s).0 ≡ ok p)
        × (p.role ≡ sys_admin)
        × (l ≡ pos r.body.limit)
        × (o ≡ pos r.body.offset)
  unfolding list_system_audit_logs_endpoint list_and_reply
  list_system_audit_logs_endpoint_requires s {r} h =
      let (p, allowed, h1) =
        bind_answers (require_roles c (sys_admin ∷ []) who)
          (λ _. validate_query c l o >> list_and_reply) s h in
      let (signed, among) = require_roles_sound c who s (sys_admin ∷ []) allowed in
      let (u, valid, h2) = bind_answers (validate_query c l o) (λ _. list_and_reply) _ h1 in
      let (same_limit, same_offset) =
        list_and_reply_sound _ h2 (validate_query_sound _ valid).0
          (validate_query_sound _ valid).1 in
      (p, signed, ground arith, same_limit, same_offset)
