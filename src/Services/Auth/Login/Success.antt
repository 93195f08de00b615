-- ===== src/Services/Auth/Login/Success.antt =====
-- A login that nothing stands in the way of answers with tokens.
use mathlib.Core.Path.{subst}
use identity_access_service.Base.{
  ◌*◌, Bool, true, false, Option, none, some, ◌≡◌, refl, sym, ap, ◌∙◌, arith, leb, leb→gt, ◌==◌,
  nat_eq, is_some, Option-cases, Bool-cases, inl, inr, if◌then◌else◌, update, any,
}
use identity_access_service.Base.Rows.{is_some-first-update, row_is_some, first_sound}
use identity_access_service.Models.{Tenant, User, AuditLog, Datetime, aware, as_utc, instant}
use identity_access_service.Errors.{ok}
use identity_access_service.Db.{
  Db, tenant_by_slug, tenant_by_id, user_by_id, user_by_email, user_has_id, user_has_email,
  tenant_has_id, tenant_has_slug, token_refused, audit_refused, token_has_id, dangling_tenant,
  dangling_user,
}
use identity_access_service.Db.Session.{
  Session, Action, run, open_session, ◌>>=◌, continue, query, insert_token, insert_audit_log,
}
use identity_access_service.Core.Context.{Context, Client}
use identity_access_service.Core.Security.{
  verify_password, create_access_token, create_refresh_token,
}
use identity_access_service.Services.Audit.{audit_row, record_audit_event, log_size}
use identity_access_service.Services.Auth.Issue.{
  AuthResult, assign_user, token_row, tenant_of, issue_tokens_for_user,
}
use identity_access_service.Services.Auth.Login.{
  LoginRequest, reset_attempts, reset_failed_login_attempts, is_locked_until, is_user_locked,
  complete_login, login_unlocked, login_active, login_user, login_tenant, login,
}
use identity_access_service.Services.Auth.Login.Outcomes.{IsChecked, verifies, is_locked_at}
use identity_access_service.Services.Auth.Login.Failures.{freed}

-- The ids that are drawn for the token and for the event are not taken.
pub record IsFresh (c : Context) (db : Db) : Type 0 where
  pub token : any (token_has_id c.new_token_id) db.refresh_tokens ≡ false
  pub event : any (λ (row : AuditLog). row.id == c.audit_id (log_size db)) db.audit_logs ≡ false

-- The rows that the new token and the new event refer to are there.
record IsStored (user : User) (db : Db) : Type 0 where
  stored_user : is_some (user_by_id user.id db) ≡ true
  stored_tenant : is_some (tenant_by_id user.tenant_id db) ≡ true

abbrev pub signed_in : Context → User → User
signed_in c user = record (reset_attempts user) { last_login_at = some (aware c.now) }

-- What the client is given.
abbrev pub login_result : Context → User → Tenant → AuthResult
login_result c user tenant = record {
  user = user;
  tenant = tenant;
  access_token = create_access_token c user;
  refresh_token = (create_refresh_token c).plain_token;
  access_token_expires_in = c.access_token_ttl_minutes * 60;
}

module _ (c : Context) (client : Client) where
  complete_login-ok :
      (user : User) (s : Session)
      → IsStored user s.db
      → IsFresh c s.db
      → (tenant : Tenant) × ((complete_login c user client s).0
          ≡ ok (login_result c (signed_in c user) tenant))
  unfolding complete_login reset_failed_login_attempts assign_user issue_tokens_for_user tenant_of
      insert_token insert_audit_log record_audit_event token_row token_refused create_refresh_token
      audit_row audit_refused dangling_tenant dangling_user user_by_id tenant_by_id log_size ◌>>=◌
  complete_login-ok user s k f = elim (Option-cases (tenant_by_id user.tenant_id s.db)) [
    | inl none_there ↦ absurd (ground (arith, k.stored_tenant))
    | inr (tenant, there) ↦
        let at = user_has_id user.id in
        let once = update at reset_attempts s.db.users in
        (
          tenant,
          ground (
            arith,
            k.stored_user,
            f.token,
            f.event,
            is_some-first-update at at reset_attempts (λ u. refl) s.db.users,
            is_some-first-update at at (λ u. record u { last_login_at = some (aware c.now) })
                (λ u. refl) once,
          ),
        )
  ]

bind-step :
    {A B : Type 0} (m : Action A) (f : A → Action B) (s : Session) {a : A} {s' : Session}
    → m s ≡ (ok a, s')
    → (m >>= f) s ≡ f a s'
unfolding ◌>>=◌
bind-step m f s e = ap (λ p. continue p.0 f p.1) e

then-step :
    {A : Type 0} (b : Bool) (m n : Action A) (s : Session) → b ≡ true → (if b then m else n) s ≡ m s
then-step true m n s t = refl
then-step false m n s t = absurd (cc)

module _ (c : Context) where
  abbrev after_lock : Option Datetime → User → Session → Session
  after_lock none user s = s
  after_lock (some until) user s = (reset_failed_login_attempts user s).1

  is_locked_until-step :
      (user : User) (o : Option Datetime) (s : Session)
      → is_locked_at c.now o ≡ false
      → is_locked_until c user o s ≡ (ok (false, freed o user), after_lock o user s)
  unfolding is_locked_until reset_failed_login_attempts assign_user ◌>>=◌
  is_locked_until-step user none s over = refl
  is_locked_until-step user (some until) s over =
      elim (Bool-cases (leb (instant (as_utc until)) c.now)) [
        | inr held ↦ absurd (ground (arith, leb→gt (instant (as_utc until)) c.now held))
        | inl done ↦ then-step (leb (instant (as_utc until)) c.now) _ _ s done
      ]

  after_lock-IsStored :
      (o : Option Datetime) (user : User) (s : Session)
      → IsStored user s.db
      → IsStored (freed o user) (after_lock o user s).db
  unfolding reset_failed_login_attempts assign_user user_by_id tenant_by_id ◌>>=◌
  after_lock-IsStored none user s k = k
  after_lock-IsStored (some until) user s k = record {
    stored_user =
        is_some-first-update (user_has_id user.id) (user_has_id user.id) reset_attempts (λ u. refl)
          s.db.users
        ∙ k.stored_user;
    stored_tenant = k.stored_tenant;
  }

  after_lock-IsFresh :
      (o : Option Datetime) (user : User) (s : Session)
      → IsFresh c s.db
      → IsFresh c (after_lock o user s).db
  unfolding reset_failed_login_attempts assign_user log_size ◌>>=◌
  after_lock-IsFresh none user s f = f
  after_lock-IsFresh (some until) user s f = record { token = f.token; event = f.event }

  freed-same :
      (o : Option Datetime) (user : User)
      → (signed_in c (freed o user) ≡ signed_in c user)
        × ((freed o user).password_hash ≡ user.password_hash)
  freed-same none user = (refl, refl)
  freed-same (some until) user = (refl, refl)

module _ (c : Context) (payload : LoginRequest) (client : Client) where
  login_active-ok :
      (tenant : Tenant) (user : User) (s : Session)
      → is_locked_at c.now user.locked_until ≡ false
      → verifies c payload user ≡ true
      → IsStored user s.db
      → IsFresh c s.db
      → (home : Tenant) × ((login_active c payload client tenant user s).0
          ≡ ok (login_result c (signed_in c user) home))
  unfolding login_active is_user_locked login_unlocked
  login_active-ok tenant user s over right k f =
      let o = user.locked_until in
      let (same, same_hash) = freed-same c o user in
      let (home, done) =
        complete_login-ok c client (freed o user) (after_lock c o user s)
          (after_lock-IsStored c o user s k) (after_lock-IsFresh c o user s f) in
      let right' : verify_password c payload.password (freed o user).password_hash ≡ true =
        subst (λ hash. verify_password c payload.password hash ≡ true) (sym same_hash) right in
      (
        home,
        ap (λ p. p.0) (bind-step _ _ s (is_locked_until-step c user o s over))
            ∙ ap (λ p. p.0)
                (then-step (verify_password c payload.password (freed o user).password_hash) _ _
                  (after_lock c o user s) right')
            ∙ done
            ∙ ap (λ u. ok (login_result c u home)) same,
      )

module _ (c : Context) (payload : LoginRequest) (client : Client) (db : Db) where
  checked-IsStored : {user : User} → IsChecked c payload db user → IsStored user db
  unfolding tenant_by_slug tenant_by_id user_by_id user_by_email
  checked-IsStored {user} k =
      let mine = first_sound (user_has_email k.tenant.id payload.email) db.users k.found_user in
      record {
        stored_user =
            row_is_some (user_has_email k.tenant.id payload.email) (user_has_id user.id) db.users
              k.found_user (ground (arith, nat_eq.reflects user.id user.id));
        stored_tenant =
            row_is_some (tenant_has_slug payload.tenant_slug) (tenant_has_id user.tenant_id)
              db.tenants k.found_tenant
              (ground (
                arith,
                nat_eq.reflects k.tenant.id user.tenant_id,
                nat_eq.reflects user.tenant_id k.tenant.id,
              ));
      }

  login-step :
      {user : User}
      → (k : IsChecked c payload db user)
      → login c payload client (open_session db)
        ≡ login_active c payload client k.tenant user (open_session db)
  unfolding login login_tenant login_user query
  login-step {user} k =
      bind-step _ _ (open_session db) refl
      ∙ ap (λ o. login_tenant c payload client o (open_session db)) k.found_tenant
      ∙ then-step k.tenant.is_active _ _ (open_session db) k.tenant_active
      ∙ bind-step _ _ (open_session db) refl
      ∙ ap (λ o. login_user c payload client k.tenant o (open_session db)) k.found_user
      ∙ then-step user.is_active _ _ (open_session db) k.user_active

  -- A login with the right password, for an active user of an active tenant who is not locked, answers
  -- with tokens for that user, whose failures are reset and whose last login is the current time,
  -- provided that the ids drawn for the token and the audit event are not taken.
  pub login_succeeds :
      {user : User}
      → IsChecked c payload db user
      → verifies c payload user ≡ true
      → IsFresh c db
      → (home : Tenant) × ((run (login c payload client) db).0
          ≡ ok (login_result c (signed_in c user) home))
  unfolding run
  login_succeeds {user} k right f =
      let (home, done) =
        login_active-ok c payload client k.tenant user (open_session db) k.unlocked right
          (checked-IsStored k) f in
      (home, ap (λ p. p.0) (login-step k) ∙ done)
