-- ===== src/Guarantees/Lockout/Held.antt =====
-- A locked account: what logins find, and what they leave.
use identity_access_service.Base.{
  ℕ, ◌<◌, leb, String, true, false, Option, some, ◌≡◌, ◌≢◌, refl, ap, sym, ◌∙◌, arith, ==_refl,
  nat_eq,
}
use identity_access_service.Base.Rows.{first-update}
use identity_access_service.Models.{Uuid, Tenant, User, Details, aware}
use identity_access_service.Errors.{ok}
use identity_access_service.Db.{Db, tenant_by_slug, user_by_email, user_has_id, user_has_email}
use identity_access_service.Db.Session.{
  Session, run, open_session, insert_audit_log, set_user, query, write, pure, ◌>>=◌,
}
use identity_access_service.Core.Context.{Context, Client}
use identity_access_service.Services.Audit.{record_audit_event}
use identity_access_service.Services.Auth.Issue.{AuthResult, assign_user}
use identity_access_service.Services.Auth.Login.{
  LoginRequest, login, login_tenant, login_user, login_active, is_user_locked, is_locked_until,
  reject_login, attempt_details,
}
use identity_access_service.Services.Auth.Login.Outcomes.{login_requires}

module _ (slug email : String) where
  -- The account is there, active, and locked until the given instant.
  pub record IsLocked (tenant : Tenant) (until : ℕ) (u : User) (db : Db) : Type 0 where
    pub found_tenant : tenant_by_slug slug db ≡ some tenant
    pub tenant_active : tenant.is_active ≡ true
    pub found_user : user_by_email tenant.id email db ≡ some u
    pub user_active : u.is_active ≡ true
    pub locked : u.locked_until ≡ some (aware until)

  -- Some number of logins for the account, all before an instant, lead from the first database to the
  -- second, whatever their passwords.
  pub data Attempts (until : ℕ) (d : Db) : Db → Type 0 where
    untried : Attempts until d d
    tried :
        {e : Db}
        → Attempts until d e
        → (c : Context) (payload : LoginRequest) (client : Client) → payload.tenant_slug ≡ slug
        → payload.email ≡ email
        → c.now < until
        → Attempts until d (run (login c payload client) e).1

abbrev held_until : ℕ → User → User
held_until until u = record u { locked_until = some (aware until) }

-- A refused login leaves what the session holds, or what was stored, but for its audit event.
module _ (slug email : String) (tenant : Tenant) (c : Context) (payload : LoginRequest)
    (client : Client) (actor : Option Uuid) (details : Details) (s : Session) where
  abbrev rejected : Db
  rejected =
      (reject_login c {A = AuthResult} payload client (some tenant.id) actor details s).1.committed

  rejected_tenants :
      {o : Option Tenant}
      → tenant_by_slug slug s.committed ≡ o
      → tenant_by_slug slug s.db ≡ o
      → tenant_by_slug slug rejected ≡ o
  unfolding reject_login record_audit_event insert_audit_log tenant_by_slug ◌>>=◌
  rejected_tenants before now = ground (arith, before, now)

  rejected_users :
      {o : Option User}
      → user_by_email tenant.id email s.committed ≡ o
      → user_by_email tenant.id email s.db ≡ o
      → user_by_email tenant.id email rejected ≡ o
  unfolding reject_login record_audit_event insert_audit_log user_by_email ◌>>=◌
  rejected_users before now = ground (arith, before, now)

module _ {slug email : String} {tenant : Tenant} where
  locked_login_lem :
      {until : ℕ} {u : User} {db : Db} (c : Context) (payload : LoginRequest) (client : Client)
      → IsLocked slug email tenant until u db
      → payload.tenant_slug ≡ slug
      → payload.email ≡ email
      → c.now < until
      → login c payload client (open_session db)
        ≡ reject_login c payload client
            (some tenant.id)
            (some u.id)
            (attempt_details "account_locked" (held_until until u))
            (record { committed = db; db = set_user u.id (held_until until) db })
  unfolding login login_tenant login_user login_active is_user_locked is_locked_until assign_user
      query write pure ◌>>=◌
  locked_login_lem {until} {u} {db} c payload client k same_slug same_email early =
      let held : leb until c.now ≡ false = ground arith in
      let tenant_there : tenant_by_slug payload.tenant_slug db ≡ some tenant =
        rw same_slug k.found_tenant in
      let user_there : user_by_email tenant.id payload.email db ≡ some u =
        rw same_email k.found_user in
      simp (tenant_there, k.tenant_active, user_there, k.user_active, k.locked, held) refl

  -- A login before that instant finds the lock and leaves it.
  login-IsLocked :
      {until : ℕ} {u : User} {db : Db} (c : Context) (payload : LoginRequest) (client : Client)
      → IsLocked slug email tenant until u db
      → payload.tenant_slug ≡ slug
      → payload.email ≡ email
      → c.now < until
      → IsLocked slug email tenant until u (run (login c payload client) db).1
  unfolding run user_by_email tenant_by_slug
  login-IsLocked {until} {u} {db} c payload client k same_slug same_email early =
      let details = attempt_details "account_locked" (held_until until u) in
      let s : Session = record { committed = db; db = set_user u.id (held_until until) db } in
      let step = locked_login_lem c payload client k same_slug same_email early in
      let again : held_until until u ≡ u = ap (λ l. record u { locked_until = l }) (sym k.locked) in
      let updated =
        first-update (user_has_id u.id) (user_has_email tenant.id email) (held_until until)
          (λ x. refl) db.users in
      let still : user_by_email tenant.id email s.db ≡ some u =
        updated ∙ rw (k.found_user, ==_refl u.id) (ap some again) in
      record {
        found_tenant =
            ap (λ x. tenant_by_slug slug x.1.committed) step
            ∙ rejected_tenants slug email tenant c payload client (some u.id) details s
                k.found_tenant k.found_tenant;
        tenant_active = k.tenant_active;
        found_user =
            ap (λ x. user_by_email tenant.id email x.1.committed) step
            ∙ rejected_users slug email tenant c payload client (some u.id) details s k.found_user
                still;
        user_active = k.user_active;
        locked = k.locked;
      }

  pub Attempts-IsLocked :
      {until : ℕ} {u : User} {d e : Db}
      → IsLocked slug email tenant until u d
      → Attempts slug email until d e
      → IsLocked slug email tenant until u e
  Attempts-IsLocked k untried = k
  Attempts-IsLocked k (tried before c payload client same_slug same_email early) =
      login-IsLocked c payload client (Attempts-IsLocked k before) same_slug same_email early

  pub locked_login_fails :
      {until : ℕ} {u : User} {db : Db} (c : Context) (payload : LoginRequest) (client : Client)
      → IsLocked slug email tenant until u db
      → payload.tenant_slug ≡ slug
      → payload.email ≡ email
      → c.now < until
      → (r : AuthResult) → (run (login c payload client) db).0 ≢ ok r
  unfolding run
  locked_login_fails {until} {u} {db} c payload client k same_slug same_email early r h =
      let (v, checked, verified) = login_requires c payload client (open_session db) h in
      ground (
        arith, k.found_tenant, k.found_user, k.locked, checked.found_tenant, checked.found_user,
        checked.unlocked, same_slug, same_email,
      )
