-- ===== src/Policy/Common.antt =====
-- The parts that several services share make only permitted changes, and the parts that only read
-- leave the session as it is.
use identity_access_service.Db.{Db}
use identity_access_service.Db.Session.{Session, insert_audit_log}
use identity_access_service.Db.Keeps.{Keeps, Keeps-query-bind, Keeps-insert}
use identity_access_service.Core.Context.{Context, Client}
use identity_access_service.Services.Audit.{Event, audit_row, log_size, record_audit_event}
use identity_access_service.Policy.{Authority, log, Reach, next}

module _ {a : Authority} {b : Db} where
  pub record_audit_event-Keeps :
      (c : Context) (client : Client) (e : Event) (s : Session)
      → Keeps (Reach a b) (record_audit_event c client e) s
  unfolding record_audit_event insert_audit_log
  record_audit_event-Keeps c client e s =
      Keeps-query-bind log_size (λ n. insert_audit_log (audit_row c client e n)) s
        (Keeps-insert _ _ s λ good r. next r (log s.db (audit_row c client e (log_size s.db)) good))
