-- ===== src/Services/Auth/Login/Failures.antt =====
-- What a wrong password does to the account: `_register_failed_login_attempt`.
use mathlib.Core.Path.{subst}
use identity_access_service.Base.{
  ◌+◌, ◌<◌, ◌≤◌, String, false, Option, none, some, ◌≡◌, refl, sym, arith, leb, leb→gt, Bool-cases,
  inl, inr, if◌then◌else◌, nat_eq,
}
use identity_access_service.Models.{Uuid, Tenant, User, Datetime, Details, as_utc, instant}
use identity_access_service.Errors.{err}
use identity_access_service.Db.{Db, tenant_by_slug, user_by_email}
use identity_access_service.Db.Session.{Session, run, open_session, ◌>>=◌, query, insert_audit_log}
use identity_access_service.Core.Context.{Context, Client}
use identity_access_service.Core.Security.{verify_password}
use identity_access_service.Services.Audit.{record_audit_event}
use identity_access_service.Services.Auth.Login.{
  LoginRequest, invalid_login, reset_attempts, lock_until, reset_failed_login_attempts,
  reject_login, register_failed_login_attempt, is_locked_until, is_user_locked, login_unlocked,
  login_active, login_user, login_tenant, login,
}
use identity_access_service.Services.Auth.Login.Outcomes.{IsChecked, verifies, is_locked_at}
use identity_access_service.Services.Auth.Login.Effects.{
  Yields, Yields-pure, Yields-query, Yields-assign, Yields-bind, Yields-then, Yields-if,
  Refuses-bind, Refuses-then, Refuses-else, Refuses,
}

-- The user after one more failure.
abbrev pub counted : Context → User → User
counted c u =
    let w = record u { failed_login_attempts = u.failed_login_attempts + 1 } in
    if leb c.max_failed_login_attempts w.failed_login_attempts then lock_until c w else w

pub counted_below :
    (c : Context) (u : User)
    → u.failed_login_attempts + 1 < c.max_failed_login_attempts
    → counted c u ≡ record u { failed_login_attempts = u.failed_login_attempts + 1 }
counted_below c u below = ground arith

pub counted_at_limit :
    (c : Context) (u : User)
    → c.max_failed_login_attempts ≤ u.failed_login_attempts + 1
    → counted c u ≡ lock_until c (record u { failed_login_attempts = u.failed_login_attempts + 1 })
counted_at_limit c u reached = ground arith

-- The user when the lock that it may have has been found to be over.
abbrev pub freed : Option Datetime → User → User
freed none u = u
freed (some until) u = reset_attempts u

freed-password_hash :
    (o : Option Datetime) (user : User) → (freed o user).password_hash ≡ user.password_hash
freed-password_hash none user = refl
freed-password_hash (some until) user = refl

module _ (c : Context) {tenant_id : Uuid} {email : String} where
  register_failed_login_attempt-Yields :
      (user : User) (s : Session)
      → user_by_email tenant_id email s.db ≡ some user
      → Yields tenant_id email
          (register_failed_login_attempt c user)
          s
          (counted c user)
          (counted c user)
  unfolding register_failed_login_attempt
  register_failed_login_attempt-Yields user s found =
      let g =
        Yields-assign user (λ u. record u { failed_login_attempts = u.failed_login_attempts + 1 }) s
          (λ u. refl) (λ u. refl) found in
      Yields-bind _ g (
        Yields-if (leb c.max_failed_login_attempts (user.failed_login_attempts + 1))
          (λ _. Yields-assign _ (lock_until c) _ (λ u. refl) (λ u. refl) g.row)
          (λ _. Yields-pure _ _ _ g.row))

  is_locked_until-Yields :
      (user : User) (o : Option Datetime) (s : Session)
      → is_locked_at c.now o ≡ false
      → user_by_email tenant_id email s.db ≡ some user
      → Yields tenant_id email (is_locked_until c user o) s (false, freed o user) (freed o user)
  unfolding is_locked_until reset_failed_login_attempts
  is_locked_until-Yields user none s over found = Yields-pure _ s user found
  is_locked_until-Yields user (some until) s over found =
      elim (Bool-cases (leb (instant (as_utc until)) c.now)) [
        | inr held ↦ absurd (ground (arith, leb→gt (instant (as_utc until)) c.now held))
        | inl done ↦
            let g = Yields-assign user reset_attempts s (λ u. refl) (λ u. refl) found in
            Yields-then _ _ done (Yields-bind _ g (Yields-pure _ _ _ g.row))
      ]

module _ (c : Context) (payload : LoginRequest) (client : Client) {tenant_id : Uuid}
    {email : String} where
  reject_login-Refuses :
      (t a : Option Uuid) (d : Details) (s : Session) (w : User)
      → user_by_email tenant_id email s.db ≡ some w
      → Refuses tenant_id email (reject_login c payload client t a d) s w
  unfolding reject_login ◌>>=◌ record_audit_event insert_audit_log user_by_email
  reject_login-Refuses t a d s w found = record { at = λ h. (ground arith, ground arith) }

  login_unlocked-Refuses :
      (tenant : Tenant) (user : User) (s : Session)
      → user_by_email tenant_id email s.db ≡ some user
      → verify_password c payload.password user.password_hash ≡ false
      → Refuses tenant_id email (login_unlocked c payload client tenant user) s (counted c user)
  unfolding login_unlocked
  login_unlocked-Refuses tenant user s found wrong =
      let y = register_failed_login_attempt-Yields c user s found in
      Refuses-else _ _ wrong (Refuses-bind _ _ y (reject_login-Refuses _ _ _ _ _ y.row))

  login_active-Refuses :
      (tenant : Tenant) (user : User) (s : Session)
      → user_by_email tenant_id email s.db ≡ some user
      → is_locked_at c.now user.locked_until ≡ false
      → verify_password c payload.password user.password_hash ≡ false
      → Refuses tenant_id email
          (login_active c payload client tenant user)
          s
          (counted c (freed user.locked_until user))
  unfolding login_active is_user_locked
  login_active-Refuses tenant user s found over wrong =
      let y = is_locked_until-Yields c user user.locked_until s over found in
      Refuses-bind _ _ y (
        login_unlocked-Refuses tenant _ _ y.row (
          subst (λ hash. verify_password c payload.password hash ≡ false)
            (sym (freed-password_hash user.locked_until user)) wrong))

-- The account after a wrong password: the failure is counted, from none where a lock is over.
abbrev pub failed : Context → User → User
failed c user = counted c (freed user.locked_until user)

module _ (c : Context) (payload : LoginRequest) (client : Client) where
  login_tenant-Refuses :
      (s : Session) {user : User}
      → (checked : IsChecked c payload s.db user) → verifies c payload user ≡ false
      → Refuses checked.tenant.id payload.email
          (login_tenant c payload client (some checked.tenant))
          s
          (failed c user)
  unfolding login_tenant login_user query
  login_tenant-Refuses s {user} k wrong = Refuses-then _ _ k.tenant_active (
      Refuses-bind _ _ (Yields-query (user_by_email k.tenant.id payload.email) s user k.found_user)
        (subst
          (λ o.
            Refuses k.tenant.id payload.email (login_user c payload client k.tenant o) s
              (failed c user))
          (sym k.found_user)
          (Refuses-then _ _ k.user_active
            (login_active-Refuses c payload client k.tenant user s k.found_user k.unlocked wrong))))

  -- A login with a wrong password, for an active user of an active tenant who is not locked, that
  -- answers invalid credentials: one more failure is counted on the user (from none, where an
  -- earlier lock is over), the user is locked if that reaches the limit, and the tenants stay.
  pub wrong_password_is_counted :
      (db : Db) {user : User}
      → (checked : IsChecked c payload db user) → verifies c payload user ≡ false
      → (run (login c payload client) db).0 ≡ err invalid_login
      → (user_by_email checked.tenant.id payload.email (run (login c payload client) db).1
          ≡ some (failed c user))
        × ((run (login c payload client) db).1.tenants ≡ db.tenants)
  unfolding run login login_tenant query
  wrong_password_is_counted db {user} k wrong h =
      let y =
        Yields-query (tenant_by_slug payload.tenant_slug) (open_session db) user k.found_user in
      (Refuses-bind _ _ y (
          subst
            (λ o.
              Refuses k.tenant.id payload.email (login_tenant c payload client o) (open_session db)
                (failed c user))
            (sym k.found_tenant) (login_tenant-Refuses (open_session db) k wrong))).at
        h
