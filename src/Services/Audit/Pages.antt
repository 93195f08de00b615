-- ===== src/Services/Audit/Pages.antt =====
-- The listings of the audit log: what a page holds, and that the pages make up the log.
use mathlib.Core.List.{Perm, map-append}
use identity_access_service.Base.{
  ℕ, zero, suc, ◌+◌, ◌*◌, ◌≤◌, true, false, List, [], ◌++◌, map, sort, length, ◌≡◌, refl, ap, ◌∙◌,
  arith, nat_eq,
}
use identity_access_service.Base.Pages.{
  offset, limit, pages, pages_cover, sort-perm, IsOrdered, sort-IsOrdered, length-sort,
}
use identity_access_service.Base.Int.{ℤ, pos, max_int}
use identity_access_service.Models.{AuditLog}
use identity_access_service.Errors.{ok}
use identity_access_service.Db.{Db}
use identity_access_service.Db.Session.{Session, Action, pure, ◌>>=◌}
use identity_access_service.Services.Audit.Listing.{
  Filters, AuditLogResponse, AuditLogListResponse, build_statement, build_response, serialize_log,
  newest_first, safe_limit, safe_offset, list_system_audit_logs,
}

newest_first_total : (a b : AuditLog) → newest_first a b ≡ false → newest_first b a ≡ true
newest_first_total a b h = ground arith

newest_first_trans :
    (a b c : AuditLog) → newest_first a b ≡ true → newest_first b c ≡ true → newest_first a c ≡ true
newest_first_trans a b c h k = ground arith

-- A client that asks for pages of `size` rows, one after the other.
unfoldable pub read_pages : Filters → ℕ → ℕ → ℕ → Action (List AuditLogResponse)
read_pages filters size zero start = pure []
read_pages filters size (suc more) start = do
  page ← list_system_audit_logs filters (pos size) (pos start)
  rest ← read_pages filters size more (start + size)
  pure (page.items ++ rest)

-- The page that a statement, a limit and an offset ask for.
abbrev pub page_at : List AuditLog → Db → ℕ → ℕ → AuditLogListResponse
page_at rows db size start = record {
  items = map (serialize_log db) (limit size (offset start (sort newest_first rows)));
  total = length rows;
  limit = size;
  offset = start;
}

pub safe_limit_id : (size : ℕ) → 1 ≤ size → size ≤ 100 → safe_limit (pos size) ≡ size
unfolding safe_limit max_int
safe_limit_id size low high = omega arith

pub safe_offset_id : (start : ℕ) → safe_offset (pos start) ≡ start
unfolding safe_offset max_int
safe_offset_id start = omega arith

module _ (filters : Filters) (s : Session) where
  abbrev selected : List AuditLog
  selected = build_statement filters s.db

  pub list_system_audit_logs_lem :
      (l o : ℤ)
      → list_system_audit_logs filters l o s
        ≡ (ok (page_at selected s.db (safe_limit l) (safe_offset o)), s)
  unfolding list_system_audit_logs build_response ◌>>=◌
  list_system_audit_logs_lem l o = refl

  page_read :
      (size start : ℕ)
      → 1 ≤ size
      → size ≤ 100
      → list_system_audit_logs filters (pos size) (pos start) s
        ≡ (ok (page_at selected s.db size start), s)
  page_read size start low high =
      rw
        (
          list_system_audit_logs_lem (pos size) (pos start),
          safe_limit_id size low high,
          safe_offset_id start,
        )
        refl

  read_pages_lem :
      (size n start : ℕ)
      → 1 ≤ size
      → size ≤ 100
      → read_pages filters size n start s
        ≡ (ok (map (serialize_log s.db) (pages size n start (sort newest_first selected))), s)
  unfolding read_pages pages ◌>>=◌
  read_pages_lem size zero start low high = refl
  read_pages_lem size (suc n) start low high =
      rw
        (
          page_read size start low high,
          read_pages_lem size n (start + size) low high,
          map-append (serialize_log s.db) (limit size (offset start (sort newest_first selected))),
        )
        refl

  -- A client that reads pages of `size` rows, at most a hundred, from the start until it has asked for
  -- as many rows as the filters select, gets every selected row exactly as often as it is stored,
  -- the newest first, and the reading changes nothing.
  pub read_pages_complete :
      (size n : ℕ)
      → 1 ≤ size
      → size ≤ 100
      → length selected ≤ n * size
      → (rows : List AuditLog) × (read_pages filters size n 0 s
          ≡ (ok (map (serialize_log s.db) rows), s))
        × Perm rows selected
        × IsOrdered newest_first rows
  unfolding offset
  read_pages_complete size n low high enough = (
    sort newest_first selected,
    read_pages_lem size n 0 low high
        ∙ ap (λ rows. (ok (map (serialize_log s.db) rows), s))
            (pages_cover size n 0 (sort newest_first selected)
              (omega (arith, enough, length-sort newest_first selected))),
    sort-perm newest_first selected,
    sort-IsOrdered newest_first newest_first_total newest_first_trans selected,
  )
