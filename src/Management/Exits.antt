-- ===== src/Management/Exits.antt =====
-- The exit of the command and the database.
use identity_access_service.Base.{
  String, Option, none, some, ◌≡◌, ◌≢◌, ◌⊎◌, inl, inr, refl, ap, sym, ◌∙◌, arith, ◌==◌, string_eq,
  ==→eq, ==→ne, ne→==, ==_refl, nat_eq, is_some, Bool, true, ◌↔◌, Option-cases, first, update,
  Bool-cases,
}
use identity_access_service.Errors.{Error, Result, ok, err, Result-cases}
use identity_access_service.Db.{
  Db, tenant_by_slug, tenant_by_id, user_by_email, user_by_id, user_has_id, user_has_email,
  tenant_has_id, tenant_has_slug,
}
use identity_access_service.Db.Session.{
  Session, Action, run, open_session, commit, pure, query, ◌>>=◌, insert_tenant, insert_user,
  insert_audit_log, ◌>>◌,
}
use identity_access_service.Models.{Tenant, User, Uuid}
use identity_access_service.Core.Context.{Context}
use identity_access_service.Guarantees.Seeding.{
  first_stage, second_stage, ensure_tenant-found, ensure_user-found,
}
use identity_access_service.Base.Rows.{row_is_some, is_some-first-update}
use identity_access_service.Core.Security.{hash_password}
use identity_access_service.Services.Audit.{record_audit_event}
use identity_access_service.Services.Tenants.{refresh_tenant}
use identity_access_service.Services.Users.{refresh_user}
use identity_access_service.Services.Bootstrap.{
  BootstrapAdminPayload, BootstrapAdminResult, ensure_system_admin, ensure_tenant, ensure_user,
  rotate, recover, record_tenant_created, record_user_created,
}
use identity_access_service.Management.{
  Arguments, Choice, chosen, value_error, prompt_for_password, choose_password, payload_of, exit_of,
  ready, main_with, main, status_of,
}

prompt_sound :
    (typed again : String) {p : String}
    → prompt_for_password typed again ≡ chosen p
    → (p ≢ "") × (typed ≡ p) × (again ≡ p)
unfolding prompt_for_password
prompt_sound typed again {p} h = elim (Bool-cases (typed == "")) [
  | inl t ↦ absurd (cc (rw t at h))
  | inr f ↦ elim (Bool-cases (typed == again)) [
    | inr n ↦ absurd (cc (rw (f, n) at h))
    | inl e ↦
        let same : typed ≡ p = cc (rw (f, e) at h) in
        (rw (← same) (==→ne f), same, sym (==→eq e) ∙ same)
  ]
]

-- A password that is not empty, and is the one of the command line or, where that has none or an empty
-- one, was typed twice.
abbrev pub IsChosen : Option String → String → String → String → Type 0
IsChosen given typed again p =
    (p ≢ "")
    × ((given ≡ some p) ⊎ (((given ≡ none) ⊎ (given ≡ some "")) × (typed ≡ p) × (again ≡ p)))

prompt_complete :
    (typed again p : String)
    → p ≢ ""
    → typed ≡ p
    → again ≡ p
    → prompt_for_password typed again ≡ chosen p
unfolding prompt_for_password
prompt_complete typed again p nonempty first second =
    rw (first, second, ne→== nonempty, ==_refl p) refl

choose_password_complete :
    (given : Option String) (typed again p : String)
    → IsChosen given typed again p
    → choose_password given typed again ≡ chosen p
unfolding choose_password
choose_password_complete given typed again p (nonempty, inl same) = rw (same, ne→== nonempty) refl
choose_password_complete given typed again p (nonempty, inr (inl same, first, second)) =
    rw same (prompt_complete typed again p nonempty first second)
choose_password_complete given typed again p (nonempty, inr (inr same, first, second)) =
    rw same (prompt_complete typed again p nonempty first second)

choose_password_sound :
    (given : Option String) (typed again : String) {p : String}
    → choose_password given typed again ≡ chosen p
    → IsChosen given typed again p
unfolding choose_password
choose_password_sound none typed again h =
    let (nonempty, first, second) = prompt_sound typed again h in
    (nonempty, inr (inl refl, first, second))
choose_password_sound (some g) typed again {p} h = elim (Bool-cases (g == "")) [
  | inl t ↦
      let (nonempty, first, second) = prompt_sound typed again (rw t at h) in
      (nonempty, inr (inr (ap some (==→eq t)), first, second))
  | inr f ↦ let same : g ≡ p = cc (rw f at h) in (rw (← same) (==→ne f), inl (ap some same))
]

same_tenants :
    (id : Uuid) (a b : Db)
    → a.tenants ≡ b.tenants
    → is_some (tenant_by_id id a) ≡ is_some (tenant_by_id id b)
unfolding tenant_by_id
same_tenants id a b same = ap (λ ts. is_some (first (tenant_has_id id) ts)) same

module _ (c : Context) (payload : BootstrapAdminPayload) where
  ensure_tenant_keeps :
      (o : Option Tenant) (s : Session) → (ensure_tenant c payload o s).1.committed ≡ s.committed
  unfolding ensure_tenant insert_tenant ◌>>=◌
  ensure_tenant_keeps o s = ground arith

  ensure_user_keeps :
      (t : Tenant) (o : Option User) (s : Session)
      → (ensure_user c payload t o s).1.committed ≡ s.committed
  unfolding ensure_user rotate insert_user ◌>>=◌
  ensure_user_keeps t o s = ground arith

  -- The rows that the command refreshes are there: it has just found or added them.
  tenant_there :
      (s : Session) {t : Tenant} {b : Bool}
      → (ensure_tenant c payload (tenant_by_slug payload.tenant_slug s.db) s).0 ≡ ok (t, b)
      → is_some (
          tenant_by_id t.id
            (ensure_tenant c payload (tenant_by_slug payload.tenant_slug s.db) s).1.db)
        ≡ true
  unfolding tenant_by_slug tenant_by_id
  tenant_there s {t} h =
      row_is_some (tenant_has_slug payload.tenant_slug) (tenant_has_id t.id) _
        (ensure_tenant-found c payload s h).0 (==_refl t.id)

  user_there :
      (t : Tenant) (s : Session) {u : User} {added rotated : Bool}
      → (ensure_user c payload t (user_by_email t.id payload.email s.db) s).0
        ≡ ok (u, added, rotated)
      → is_some
          (user_by_id u.id (ensure_user c payload t (user_by_email t.id payload.email s.db) s).1.db)
        ≡ true
  unfolding ensure_user recover rotate insert_user user_by_email user_by_id first ◌>>=◌
  user_there t s {u} h =
      elim (Option-cases (first (user_has_email t.id payload.email) s.db.users)) [
        | inl none_there ↦ ground (arith, nat_eq.reflects u.id u.id)
        | inr (v, there) ↦
            let at = user_has_id v.id in
            ground (
              arith,
              row_is_some (user_has_email t.id payload.email) at s.db.users there (==_refl v.id),
              is_some-first-update at at (recover c payload) (λ u. refl) s.db.users,
              is_some-first-update at at
                  (λ u. record u { password_hash = hash_password c payload.password }) (λ u. refl)
                  (update at (recover c payload) s.db.users),
            )
      ]

  -- `ensure_system_admin` behind its two stages
  finish : Tenant → Bool → User → Bool → Bool → Action BootstrapAdminResult
  finish tenant created user added rotated = do
    record_tenant_created c payload tenant user created
    record_user_created c payload tenant user added
    commit
    tenant' ← refresh_tenant tenant.id
    user' ← refresh_user user.id
    pure (record {
      tenant_id = tenant'.id;
      tenant_slug = tenant'.slug;
      user_id = user'.id;
      email = user'.email;
      tenant_created = created;
      user_created = added;
      password_rotated = rotated;
    })

  finish_keeps :
      (t : Tenant) (created : Bool) (u : User) (added rotated : Bool) (s : Session) {e : Error}
      → is_some (tenant_by_id t.id s.db) ≡ true
      → is_some (user_by_id u.id s.db) ≡ true
      → (finish t created u added rotated s).0 ≡ err e
      → (finish t created u added rotated s).1.committed ≡ s.committed
  unfolding finish record_tenant_created record_user_created record_audit_event insert_audit_log
      refresh_tenant refresh_user tenant_by_id user_by_id ◌>>=◌
  finish_keeps t created u added rotated s there stored h = ground (arith, there, stored)

  finishes :
      (db : Db) (t : Tenant) (created : Bool) (u : User) (added rotated : Bool)
      → (first_stage c payload db).0 ≡ ok (t, created)
      → (second_stage c payload db t).0 ≡ ok (u, added, rotated)
      → ensure_system_admin c payload (open_session db)
        ≡ finish t created u added rotated (second_stage c payload db t).1
  unfolding ensure_system_admin finish query ◌>>=◌
  finishes db t created u added rotated good good2 = rw (good, good2) refl

  -- Until the commit nothing is stored, and behind it nothing is raised.
  failure_keeps :
      (db : Db) {e : Error}
      → (run (ensure_system_admin c payload) db).0 ≡ err e
      → (run (ensure_system_admin c payload) db).1 ≡ db
  unfolding run ensure_system_admin ◌>>=◌
  failure_keeps db {e} h =
      let kept = ensure_tenant_keeps (tenant_by_slug payload.tenant_slug db) (open_session db) in
      elim (Result-cases (first_stage c payload db).0) [
        | inl (x, bad) ↦ ground (arith, kept)
        | inr ((t, created), good) ↦
            let s = (first_stage c payload db).1 in
            let kept2 = ensure_user_keeps t (user_by_email t.id payload.email s.db) s in
            elim (Result-cases (second_stage c payload db t).0) [
              | inl (x, bad) ↦ ground (arith, kept, kept2)
              | inr ((u, added, rotated), good2) ↦
                  let (w, _, _, tenants) = ensure_user-found c payload t s good2 in
                  let there : is_some (tenant_by_id t.id (second_stage c payload db t).1.db)
                      ≡ true =
                    same_tenants t.id _ _ tenants ∙ tenant_there (open_session db) good in
                  let done = finishes db t created u added rotated good good2 in
                  ap (λ x. x.1.committed) done
                  ∙ finish_keeps t created u added rotated _ there (user_there t s good2)
                      (ap (λ x. x.0) (sym done) ∙ h)
                  ∙ kept2
                  ∙ kept
            ]
      ]

exit_of_ok :
    (r : Result BootstrapAdminResult)
    → status_of (exit_of r) ≡ 0
    → (a : BootstrapAdminResult) × (r ≡ ok a)
unfolding exit_of
exit_of_ok (ok a) h = (a, refl)
exit_of_ok (err e) h = absurd (ground arith)

exit_of_err :
    (r : Result BootstrapAdminResult) → status_of (exit_of r) ≢ 0 → (e : Error) × (r ≡ err e)
unfolding exit_of ready
exit_of_err (ok a) h = absurd (h refl)
exit_of_err (err e) h = (e, refl)

module _ (c : Context) (args : Arguments) where
  main_with_ok :
      (choice : Choice) (db : Db)
      → status_of (main_with c args choice db).0 ≡ 0
      → (p : String) × (choice ≡ chosen p)
        × (r : BootstrapAdminResult) × (run (ensure_system_admin c (payload_of args p)) db
            ≡ (ok r, (main_with c args choice db).1))
  unfolding main_with
  main_with_ok (value_error message) db h = absurd (ground arith)
  main_with_ok (chosen p) db h =
      let (r, e) = exit_of_ok (run (ensure_system_admin c (payload_of args p)) db).0 h in
      (p, refl, r, ap (λ x. (x, (run (ensure_system_admin c (payload_of args p)) db).1)) e)

  main_with_keeps :
      (choice : Choice) (db : Db)
      → status_of (main_with c args choice db).0 ≢ 0
      → (main_with c args choice db).1 ≡ db
  unfolding main_with
  main_with_keeps (value_error m) db h = refl
  main_with_keeps (chosen p) db h =
      let (e, raised) = exit_of_err (run (ensure_system_admin c (payload_of args p)) db).0 h in
      failure_keeps c (payload_of args p) db raised

module _ (c : Context) (args : Arguments) (typed again : String) (db : Db) where
  answered :
      (p : String) (r : BootstrapAdminResult)
      → IsChosen args.password typed again p
      → run (ensure_system_admin c (payload_of args p)) db ≡ (ok r, (main c args typed again db).1)
      → status_of (main c args typed again db).0 ≡ 0
  unfolding main main_with exit_of ready
  answered p r whence done =
      let choice : choose_password args.password typed again ≡ chosen p =
        choose_password_complete args.password typed again p whence in
      ap (λ o. status_of (main_with c args o db).0) choice ∙ ap (λ x. status_of (exit_of x.0)) done

  -- The command exits with 0 exactly where there is a password that is not empty, and that the operator
  -- gave on the command line or, without one there, typed twice, with which the bootstrap answers and
  -- leaves the database that the command leaves.
  pub main_succeeds : (status_of (main c args typed again db).0 ≡ 0) ↔ (
      (p : String) × IsChosen args.password typed again p
      × (r : BootstrapAdminResult) × (run (ensure_system_admin c (payload_of args p)) db
          ≡ (ok r, (main c args typed again db).1)))
  unfolding main
  main_succeeds = (
    λ h.
        let (p, picked, r, done) =
          main_with_ok c args (choose_password args.password typed again) db h in
        (p, choose_password_sound args.password typed again picked, r, done),
    λ (p, whence, r, done). answered p r whence done,
  )

  -- Whenever the command ends otherwise than with the status 0, by a failure that it reports or by an
  -- exception that nothing catches, it has changed nothing.
  pub main_failure_keeps :
      status_of (main c args typed again db).0 ≢ 0 → (main c args typed again db).1 ≡ db
  unfolding main
  main_failure_keeps h = main_with_keeps c args (choose_password args.password typed again) db h
