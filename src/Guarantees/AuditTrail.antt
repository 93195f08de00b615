-- ===== src/Guarantees/AuditTrail.antt =====
-- The audit log only grows.
use identity_access_service.Base.{List, [], ◌∷◌, ◌++◌, ◌≡◌, refl, ap, ◌∙◌, sym}
use mathlib.Core.List.{append_assoc}
use identity_access_service.Models.{AuditLog}
use identity_access_service.Db.{Db}
use identity_access_service.Policy.{Authority, Permitted, log, Reach, here, next}
use identity_access_service.Requests.{Request, serve, serve_all}
use identity_access_service.Requests.Refines.{serve-Reach}

-- The rows of the first list are the oldest rows of the second.
abbrev pub Appends : List AuditLog → List AuditLog → Type 0
Appends old new = (rows : List AuditLog) × (new ≡ rows ++ old)

Appends-trans : {a b c : List AuditLog} → Appends a b → Appends b c → Appends a c
Appends-trans {a} (rows, e) (rows', e') =
    (rows' ++ rows, e' ∙ ap (λ l. rows' ++ l) e ∙ sym (append_assoc rows' rows a))

Permitted-Appends : {a : Authority} {d e : Db} → Permitted a d e → Appends d.audit_logs e.audit_logs
Permitted-Appends (log db row _) = (row ∷ [], refl)
Permitted-Appends _ = ([], refl)

Reach-Appends : {a : Authority} {d e : Db} → Reach a d e → Appends d.audit_logs e.audit_logs
Reach-Appends here = ([], refl)
Reach-Appends (next r p) = Appends-trans (Reach-Appends r) (Permitted-Appends p)

-- Whatever the requests and however they end, the rows of the audit log are there unchanged after
-- them, as the oldest rows.
pub serve_all-Appends :
    (rs : List Request) (db : Db) → Appends db.audit_logs (serve_all rs db).audit_logs
unfolding serve_all
serve_all-Appends [] db = ([], refl)
serve_all-Appends (r ∷ rs) db =
    Appends-trans (Reach-Appends (serve-Reach r db)) (serve_all-Appends rs (serve r db))
