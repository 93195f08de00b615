-- ===== src/Guarantees/Lockout.antt =====
-- Guessing passwords locks an account, and the right password does not open it before the lock is over.
pub mod Held
use mathlib.Core.Path.{subst}
use identity_access_service.Base.{
  ℕ, ◌+◌, suc, ◌<◌, leb, String, true, false, none, some, ◌≡◌, ◌≢◌, refl, ap, ◌∙◌, arith,
}
use identity_access_service.Models.{Tenant, User, minutes, aware}
use identity_access_service.Errors.{ok, err}
use identity_access_service.Db.{Db, tenant_by_slug, user_by_email}
use identity_access_service.Db.Session.{run, open_session, insert_audit_log, ◌>>=◌}
use identity_access_service.Services.Audit.{record_audit_event}
use identity_access_service.Core.Context.{Context, Client}
use identity_access_service.Core.Security.{verify_password}
use identity_access_service.Services.Auth.Issue.{AuthResult}
use identity_access_service.Guarantees.Lockout.Held.{
  IsLocked, Attempts, Attempts-IsLocked, locked_login_fails,
}
use identity_access_service.Services.Auth.Login.{
  LoginRequest, invalid_login, login, lock_until, login_tenant, login_user, login_active,
  is_user_locked, is_locked_until, reject_login,
}
use identity_access_service.Services.Auth.Login.Outcomes.{IsChecked, login_requires}
use identity_access_service.Services.Auth.Login.Failures.{
  freed, counted, counted_below, counted_at_limit, wrong_password_is_counted,
}

module _ (limit : ℕ) (slug email hash : String) where
  -- A login for the account, under the limit, whose password does not match the hash, and which is
  -- answered as invalid credentials.
  pub record IsGuess (c : Context) (payload : LoginRequest) (client : Client) (db : Db)
      : Type 0 where
    pub same_slug : payload.tenant_slug ≡ slug
    pub same_email : payload.email ≡ email
    pub same_limit : c.max_failed_login_attempts ≡ limit
    pub wrong : verify_password c payload.password hash ≡ false
    pub answered : (run (login c payload client) db).0 ≡ err invalid_login

  -- Some number of guesses leads from the first database to the second.
  pub data Guesses (d : Db) : ℕ → Db → Type 0 where
    start : Guesses d 0 d
    guess :
        {k : ℕ} {e : Db}
        → Guesses d k e
        → (c : Context) (payload : LoginRequest) (client : Client) → IsGuess c payload client e
        → Guesses d (suc k) (run (login c payload client) e).1

-- The account is there, active, and not locked, with this many failures.
pub record IsOpen (slug email : String) (user : User) (tenant : Tenant) (n : ℕ) (db : Db)
    : Type 0 where
  pub found_tenant : tenant_by_slug slug db ≡ some tenant
  pub tenant_active : tenant.is_active ≡ true
  pub found_user :
      user_by_email tenant.id email db ≡ some (record user { failed_login_attempts = n })
  pub user_active : user.is_active ≡ true
  pub unlocked : user.locked_until ≡ none

module _ {limit : ℕ} {slug email : String} {user : User} {tenant : Tenant} where
  checked :
      {n : ℕ} {db : Db} {c : Context} {payload : LoginRequest} {client : Client}
      → IsOpen slug email user tenant n db
      → IsGuess limit slug email user.password_hash c payload client db
      → IsChecked c payload db (record user { failed_login_attempts = n })
  checked {c = c} o g = record {
    tenant = tenant;
    found_tenant = rw (g.same_slug) o.found_tenant;
    tenant_active = o.tenant_active;
    found_user = rw (g.same_email) o.found_user;
    user_active = o.user_active;
    unlocked = rw (o.unlocked) refl;
  }

  after_guess :
      {n : ℕ} {db : Db} {c : Context} {payload : LoginRequest} {client : Client}
      → IsOpen slug email user tenant n db
      → IsGuess limit slug email user.password_hash c payload client db
      → (tenant_by_slug slug (run (login c payload client) db).1 ≡ some tenant)
        × (user_by_email tenant.id email (run (login c payload client) db).1
            ≡ some (counted c (record user { failed_login_attempts = n })))
  unfolding tenant_by_slug checked
  after_guess {n} {db} {c} {payload} {client} o g =
      let (row, tenants) =
        wrong_password_is_counted c payload client db (checked o g) g.wrong g.answered in
      (
        rw tenants o.found_tenant,
        subst
            (λ e.
              user_by_email tenant.id e (run (login c payload client) db).1
              ≡ some (counted c (record user { failed_login_attempts = n })))
            g.same_email
            (row
              ∙ ap (λ l. some (counted c (freed l (record user { failed_login_attempts = n }))))
                  o.unlocked),
      )

  step-IsOpen :
      {n : ℕ} {db : Db} {c : Context} {payload : LoginRequest} {client : Client}
      → IsOpen slug email user tenant n db
      → IsGuess limit slug email user.password_hash c payload client db
      → n + 1 < limit
      → IsOpen slug email user tenant (n + 1) (run (login c payload client) db).1
  step-IsOpen {n} {c = c} o g below =
      let (found, row) = after_guess o g in
      record {
        found_tenant = found;
        tenant_active = o.tenant_active;
        found_user = row ∙ ap some (counted_below c _ (rw (g.same_limit) (ground arith)));
        user_active = o.user_active;
        unlocked = o.unlocked;
      }

  Guesses-IsOpen :
      {n : ℕ} {d : Db} {k : ℕ} {e : Db}
      → IsOpen slug email user tenant n d
      → Guesses limit slug email user.password_hash d k e
      → k + n < limit
      → IsOpen slug email user tenant (k + n) e
  Guesses-IsOpen {n} {d} o start below =
      subst (λ m. IsOpen slug email user tenant m d) (omega arith) o
  Guesses-IsOpen {n} o (guess {k} {e} gs c payload client g) below =
      subst (λ m. IsOpen slug email user tenant m (run (login c payload client) e).1) (omega arith)
        (step-IsOpen (Guesses-IsOpen o gs (omega arith)) g (omega arith))

  last-lock :
      {n : ℕ} {db : Db} {c : Context} {payload : LoginRequest} {client : Client}
      → IsOpen slug email user tenant n db
      → IsGuess limit slug email user.password_hash c payload client db
      → suc n ≡ limit
      → user_by_email tenant.id email (run (login c payload client) db).1
        ≡ some (lock_until c (record user { failed_login_attempts = n + 1 }))
  last-lock {n} {c = c} o g reached =
      (after_guess o g).1 ∙ ap some (counted_at_limit c _ (rw (g.same_limit) (ground arith)))

  -- Take an account of an active tenant that is active and not locked, with n failures, and k + 1
  -- logins for it with a password that does not match its hash, all answered as invalid credentials,
  -- that bring the failures to the configured limit. Until the time of the last of them plus the
  -- configured minutes, no login for the account answers with tokens, whatever its password, and
  -- however many other logins for the account, before that instant too, come between.
  pub lockout_after_limit :
      {n k : ℕ} {d e f : Db} {c : Context} {payload : LoginRequest} {client : Client}
      → IsOpen slug email user tenant n d
      → Guesses limit slug email user.password_hash d k e
      → IsGuess limit slug email user.password_hash c payload client e
      → suc (k + n) ≡ limit
      → Attempts slug email
          (c.now + minutes c.login_lockout_minutes)
          (run (login c payload client) e).1
          f
      → (c' : Context) (payload' : LoginRequest) (client' : Client) (r : AuthResult)
      → payload'.tenant_slug ≡ slug
      → payload'.email ≡ email
      → c'.now < c.now + minutes c.login_lockout_minutes
      → (run (login c' payload' client') f).0 ≢ ok r
  lockout_after_limit {n} {k} {e = e} {c = c} {payload} {client} o gs g reached between c' payload'
        client' r same_slug same_email early =
      let open_before = Guesses-IsOpen o gs (omega arith) in
      let locked : IsLocked slug email tenant (c.now + minutes c.login_lockout_minutes)
          (lock_until c (record user { failed_login_attempts = (k + n) + 1 }))
          (run (login c payload client) e).1 =
        record {
          found_tenant = (after_guess open_before g).0;
          tenant_active = o.tenant_active;
          found_user = last-lock open_before g reached;
          user_active = o.user_active;
          locked = refl;
        } in
      locked_login_fails c' payload' client' (Attempts-IsLocked locked between) same_slug same_email
        early r
