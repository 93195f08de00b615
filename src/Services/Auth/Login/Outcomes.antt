-- ===== src/Services/Auth/Login/Outcomes.antt =====
-- Who can sign in by `AuthService.login`, and what a sign-in gives.
use mathlib.Core.Path.{subst}
use identity_access_service.Errors.{Result-cases}
use identity_access_service.Base.{
  if◌then◌else◌, ℕ, Bool, true, false, Option, none, some, ◌≡◌, ◌≢◌, refl, arith, leb, leb→le,
  leb→gt, ltb, Bool-cases, inl, inr,
}
use identity_access_service.Models.{Uuid, Tenant, User, Details, Datetime, as_utc, instant}
use identity_access_service.Errors.{ok}
use identity_access_service.Db.{Db, tenant_by_slug, user_by_email}
use identity_access_service.Db.Session.{Session, Action, ◌>>=◌, continue, insert_audit_log}
use identity_access_service.Core.Context.{Context, Client}
use identity_access_service.Core.Security.{verify_password}
use identity_access_service.Services.Audit.{record_audit_event}
use identity_access_service.Services.Auth.Issue.{AuthResult, assign_user}
use identity_access_service.Services.Auth.Login.{
  LoginRequest, reset_attempts, reset_failed_login_attempts, reject_login,
  register_failed_login_attempt, is_locked_until, is_user_locked, login_unlocked, login_active,
  login_user, login_tenant, login,
}

-- The account is locked at the time.
abbrev pub is_locked_at : ℕ → Option Datetime → Bool
is_locked_at now none = false
is_locked_at now (some until) = ltb now (instant until)

-- The request names an active tenant and an active user of it by its slug and e-mail address, and the
-- user is not locked: the password decides.
pub record IsChecked (c : Context) (payload : LoginRequest) (db : Db) (user : User) : Type 0 where
  pub tenant : Tenant
  pub found_tenant : tenant_by_slug payload.tenant_slug db ≡ some tenant
  pub tenant_active : tenant.is_active ≡ true
  pub found_user : user_by_email tenant.id payload.email db ≡ some user
  pub user_active : user.is_active ≡ true
  pub unlocked : is_locked_at c.now user.locked_until ≡ false

abbrev pub verifies : Context → LoginRequest → User → Bool
verifies c payload user = verify_password c payload.password user.password_hash

-- The action always raises.
abbrev pub Fails : {A : Type 0} → Action A → Type 0
Fails {A} m = (s : Session) (r : A) → (m s).0 ≢ ok r

bind-Fails :
    {A B : Type 0} (m : Action A) (f : A → Action B) → ((a : A) → Fails (f a)) → Fails (m >>= f)
unfolding ◌>>=◌
bind-Fails m f fails s r h = elim (Result-cases (m s).0) [
  | inl (e, bad) ↦ absurd (ground arith)
  | inr (a, good) ↦ fails a (m s).1 r (subst (λ x. (continue x f (m s).1).0 ≡ ok r) good h)
]

bind-ok :
    {A B : Type 0} (m : Action A) (f : A → Action B) (s : Session) {a : A} {r : B}
    → (m s).0 ≡ ok a
    → ((m >>= f) s).0 ≡ ok r
    → (f a (m s).1).0 ≡ ok r
unfolding ◌>>=◌
bind-ok m f s {r = r} reads h = subst (λ x. (continue x f (m s).1).0 ≡ ok r) reads h

if-ok :
    {A : Type 0} (b : Bool) (m n : Action A) (s : Session) {r : A}
    → Fails n
    → ((if b then m else n) s).0 ≡ ok r
    → (b ≡ true) × ((m s).0 ≡ ok r)
if-ok true m n s fails h = (refl, h)
if-ok false m n s {r} fails h = absurd (fails s r h)

unless-ok :
    {A : Type 0} (b : Bool) (m n : Action A) (s : Session) {r : A}
    → Fails m
    → ((if b then m else n) s).0 ≡ ok r
    → (b ≡ false) × ((n s).0 ≡ ok r)
unless-ok true m n s {r} fails h = absurd (fails s r h)
unless-ok false m n s fails h = (refl, h)

module _ (c : Context) where
  -- The lock is judged by the instant alone, whether or not the stored time has kept its zone, and the
  -- user's password stays.
  is_locked_until-reads :
      (user : User) (o : Option Datetime) (s : Session)
      → (u : User) × ((is_locked_until c user o s).0 ≡ ok (is_locked_at c.now o, u))
        × (u.password_hash ≡ user.password_hash)
  unfolding is_locked_until reset_failed_login_attempts assign_user ◌>>=◌
  is_locked_until-reads user none s = (user, refl, refl)
  is_locked_until-reads user (some until) s =
      elim (Bool-cases (leb (instant (as_utc until)) c.now)) [
        | inl over ↦
            (reset_attempts user, ground (arith, leb→le (instant (as_utc until)) c.now over), refl)
        | inr held ↦ (
          record user { locked_until = some (as_utc until) },
          ground (arith, leb→gt (instant (as_utc until)) c.now held),
          refl,
        )
      ]

module _ (c : Context) (payload : LoginRequest) (client : Client) where
  -- A rejection answers with no tokens.
  reject_login-Fails :
      {A : Type 0} (t a : Option Uuid) (d : Details)
      → Fails {A = A} (reject_login c payload client t a d)
  unfolding reject_login ◌>>=◌ record_audit_event insert_audit_log
  reject_login-Fails t a d s r h = absurd (ground arith)

  login_unlocked-verified :
      (tenant : Tenant) (user : User) (s : Session) {r : AuthResult}
      → (login_unlocked c payload client tenant user s).0 ≡ ok r
      → verify_password c payload.password user.password_hash ≡ true
  unfolding login_unlocked
  login_unlocked-verified tenant user s h =
      (if-ok _ _ _ s
        (bind-Fails (register_failed_login_attempt c user) _ (λ u. reject_login-Fails _ _ _)) h).0

  login_active-unlocked :
      (tenant : Tenant) (user : User) (s : Session) {r : AuthResult}
      → (login_active c payload client tenant user s).0 ≡ ok r
      → (is_locked_at c.now user.locked_until ≡ false)
        × (verify_password c payload.password user.password_hash ≡ true)
  unfolding login_active is_user_locked
  login_active-unlocked tenant user s h =
      let (u, reads, same) = is_locked_until-reads c user user.locked_until s in
      let (unlocked, h') = unless-ok _ _ _ _ (reject_login-Fails _ _ _) (bind-ok _ _ s reads h) in
      (
        unlocked,
        subst (λ hash. verify_password c payload.password hash ≡ true) same
            (login_unlocked-verified tenant u _ h'),
      )

  login_user_sound :
      (tenant : Tenant) (o : Option User) (s : Session) {r : AuthResult}
      → (login_user c payload client tenant o s).0 ≡ ok r
      → (user : User) × (o ≡ some user)
        × (user.is_active ≡ true)
        × (is_locked_at c.now user.locked_until ≡ false)
        × (verify_password c payload.password user.password_hash ≡ true)
  unfolding login_user
  login_user_sound tenant none s {r} h = absurd (reject_login-Fails _ _ _ s r h)
  login_user_sound tenant (some user) s h =
      let (active, h') = if-ok _ _ _ s (reject_login-Fails _ _ _) h in
      let (unlocked, verified) = login_active-unlocked tenant user s h' in
      (user, refl, active, unlocked, verified)

  login_tenant_sound :
      (o : Option Tenant) (s : Session) {r : AuthResult}
      → (login_tenant c payload client o s).0 ≡ ok r
      → (tenant : Tenant) × (o ≡ some tenant)
        × (tenant.is_active ≡ true)
        × ((login_user c payload client tenant (user_by_email tenant.id payload.email s.db) s).0
            ≡ ok r)
  unfolding login_tenant ◌>>=◌
  login_tenant_sound none s {r} h = absurd (reject_login-Fails _ _ _ s r h)
  login_tenant_sound (some tenant) s h =
      let (active, h') = if-ok _ _ _ s (reject_login-Fails _ _ _) h in (tenant, refl, active, h')

  -- A login that answers with tokens was made for a user whom the request names by an active tenant's
  -- slug and by e-mail address, who is active and not locked at the current time, and with a password
  -- that matches the stored hash.
  pub login_requires :
      (s : Session) {r : AuthResult}
      → (login c payload client s).0 ≡ ok r
      → (user : User) × IsChecked c payload s.db user × (verifies c payload user ≡ true)
  unfolding login ◌>>=◌
  login_requires s h =
      let (tenant, found_tenant, tenant_active, h') =
        login_tenant_sound (tenant_by_slug payload.tenant_slug s.db) s h in
      let (user, found_user, user_active, unlocked, verified) = login_user_sound tenant _ s h' in
      (
        user,
        record {
          tenant = tenant;
          found_tenant = found_tenant;
          tenant_active = tenant_active;
          found_user = found_user;
          user_active = user_active;
          unlocked = unlocked;
        },
        verified,
      )
