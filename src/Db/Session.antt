-- ===== src/Db/Session.antt =====
-- Methods that work on a `Session` and may raise. What was committed before a raise stays committed,
-- and what was not is dropped when the session is closed.
use identity_access_service.Base.{◌∷◌, Bool, Option, none, some, update, if◌then◌else◌}
use identity_access_service.Errors.{Error, Result, ok, err, integrity_error}
use identity_access_service.Models.{Uuid, Tenant, User, RefreshToken, AuditLog}
use identity_access_service.Db.{
  Db, tenant_has_id, user_has_id, tenant_refused, user_refused, token_refused, audit_refused,
}

-- `db` is what the session sees: the committed state with the pending changes. The services flush
-- what they add before they query again, so the two states of a row are one.
pub record Session : Type 0 where
  pub committed : Db
  pub db : Db

abbrev pub open_session : Db → Session
open_session d = record { committed = d; db = d }

abbrev pub Action : Type 0 → Type 0
Action A = Session → Result A × Session

module _ {A : Type 0} where
  unfoldable pub pure : A → Action A
  pure a s = (ok a, s)

  unfoldable pub raise : Error → Action A
  raise e s = (err e, s)

  unfoldable pub query : (Db → A) → Action A
  query f s = (ok (f s.db), s)

  unfoldable pub or_raise : Option A → Error → Action A
  or_raise none e s = (err e, s)
  or_raise (some a) e s = (ok a, s)

unfoldable pub raise_if : Bool → Error → Action Unit
raise_if c e s = (if c then err e else ok tt, s)

-- `self.db.commit()`
unfoldable pub commit : Action Unit
commit s = (ok tt, record s { committed = s.db })

-- Attributes are assigned on rows that the session holds, and rows are added. `refused` is the
-- check of the database at the flush.
unfoldable pub write : (Db → Db) → Action Unit
write f s = (ok tt, record s { db = f s.db })

unfoldable pub insert : (Db → Bool) → (Db → Db) → Action Unit
insert refused f s =
    if refused s.db then (err integrity_error, s) else (ok tt, record s { db = f s.db })

module _ {A B : Type 0} where
  abbrev pub continue : Result A → (A → Action B) → Action B
  continue (ok a) f s = f a s
  continue (err e) f s = (err e, s)

  infixl 5 ◌>>=◌ ◌>>◌
  unfoldable pub ◌>>=◌ : Action A → (A → Action B) → Action B
  unfolding pure raise query or_raise raise_if commit write insert
  ◌>>=◌ m f s = let (r, s') = m s in continue r f s'

  abbrev pub ◌>>◌ : Action A → Action B → Action B
  m >> k = m >>= λ _. k

-- The rows that each kind of write adds or changes.
abbrev pub add_tenant : Tenant → Db → Db
add_tenant t db = record db { tenants = t ∷ db.tenants }

abbrev pub add_user : User → Db → Db
add_user u db = record db { users = u ∷ db.users }

abbrev pub add_token : RefreshToken → Db → Db
add_token t db = record db { refresh_tokens = t ∷ db.refresh_tokens }

abbrev pub add_audit_log : AuditLog → Db → Db
add_audit_log a db = record db { audit_logs = a ∷ db.audit_logs }

abbrev pub set_tenant : Uuid → (Tenant → Tenant) → Db → Db
set_tenant id f db = record db { tenants = update (tenant_has_id id) f db.tenants }

abbrev pub set_user : Uuid → (User → User) → Db → Db
set_user id f db = record db { users = update (user_has_id id) f db.users }

abbrev pub set_tokens : (RefreshToken → Bool) → (RefreshToken → RefreshToken) → Db → Db
set_tokens p f db = record db { refresh_tokens = update p f db.refresh_tokens }

unfoldable pub insert_tenant : Tenant → Action Unit
insert_tenant t = insert (tenant_refused t) (add_tenant t)

unfoldable pub insert_user : User → Action Unit
insert_user u = insert (user_refused u) (add_user u)

unfoldable pub insert_token : RefreshToken → Action Unit
insert_token t = insert (token_refused t) (add_token t)

unfoldable pub insert_audit_log : AuditLog → Action Unit
insert_audit_log a = insert (audit_refused a) (add_audit_log a)

-- A request's result, and the database that it leaves: the session is closed at its end.
unfoldable pub run : {A : Type 0} → Action A → Db → Result A × Db
run m d = let (r, s) = m (open_session d) in (r, s.committed)
