-- ===== src/Guarantees/Integrity/Preserved.antt =====
-- Every permitted change keeps the constraints, and so does every request.
use identity_access_service.Base.{
  Bool, false, List, [], ◌∷◌, ◌≡◌, refl, arith, All, nat_eq, string_eq, ||_false,
}
use identity_access_service.Base.Rows.{Distinct-update, All-map, All-update}
use identity_access_service.Models.{Uuid, Tenant, User, RefreshToken, Datetime}
use identity_access_service.Db.{
  Db, empty, tenant_clash, user_clash, token_clash, tenant_refused, user_refused, token_refused,
  audit_refused, tenant_has_id, user_has_id,
}
use identity_access_service.Db.Session.{set_tenant, set_user, set_tokens, add_tenant, add_user}
use identity_access_service.Services.Users.{revoke_at}
use identity_access_service.Policy.{
  Authority, Permitted, log, sign_up, open_tenant, edit_tenant, enrol, note_login, issue, revoke,
  assign_role, suspend, recover, rotate, Reach, here, next, SameTenant,
}
use identity_access_service.Requests.{Request, serve, serve_all}
use identity_access_service.Requests.Refines.{serve-Reach}
use identity_access_service.Guarantees.Integrity.{IsValid, HasTenant, HasUser, HasSubjects}
use identity_access_service.Guarantees.Integrity.Growth.{
  Grows, set_user-Grows, set_tokens-Grows, user-Grows, tenant-Grows, token-Grows, log-Grows,
  Permitted-Grows, HasTenant-grows, HasUser-grows, HasSubjects-grows,
}

-- The foreign keys of the rows that were there.
module _ {d e : Db} (g : Grows d e) (v : IsValid d) where
  kept_users : All (HasTenant e) d.users
  kept_users = All-map d.users (HasTenant-grows g) v.users_owned

  kept_tokens : All (HasUser e) d.refresh_tokens
  kept_tokens = All-map d.refresh_tokens (HasUser-grows g) v.tokens_owned

  kept_logs : All (HasSubjects e) d.audit_logs
  kept_logs = All-map d.audit_logs (HasSubjects-grows g) v.logs_owned

set_tokens-IsValid :
    (db : Db) (p : RefreshToken → Bool) (now : Datetime)
    → Grows db (set_tokens p (revoke_at now) db)
    → IsValid db
    → IsValid (set_tokens p (revoke_at now) db)
set_tokens-IsValid db p now g v = record {
  tenants_distinct = v.tenants_distinct;
  users_distinct = v.users_distinct;
  tokens_distinct =
      Distinct-update token_clash p (revoke_at now) db.refresh_tokens (λ x y. refl) (λ x y. refl)
        v.tokens_distinct;
  logs_distinct = v.logs_distinct;
  users_owned = kept_users g v;
  tokens_owned = All-update p (revoke_at now) db.refresh_tokens (λ t h. h) (kept_tokens g v);
  logs_owned = kept_logs g v;
}

set_tenant-IsValid :
    (db : Db) (id : Uuid) (f : Tenant → Tenant)
    → ((t : Tenant) → SameTenant t (f t))
    → Grows db (set_tenant id f db)
    → IsValid db
    → IsValid (set_tenant id f db)
set_tenant-IsValid db id f same g v = record {
  tenants_distinct =
      Distinct-update tenant_clash (tenant_has_id id) f db.tenants
        (λ x y. rw ((same y).id, (same y).slug)) (λ x y. rw ((same x).id, (same x).slug))
        v.tenants_distinct;
  users_distinct = v.users_distinct;
  tokens_distinct = v.tokens_distinct;
  logs_distinct = v.logs_distinct;
  users_owned = kept_users g v;
  tokens_owned = kept_tokens g v;
  logs_owned = kept_logs g v;
}

add_tenant-IsValid :
    (db : Db) (t : Tenant)
    → tenant_refused t db ≡ false
    → Grows db (add_tenant t db)
    → IsValid db
    → IsValid (add_tenant t db)
unfolding tenant_refused
add_tenant-IsValid db t fits g v = record {
  tenants_distinct = (fits, v.tenants_distinct);
  users_distinct = v.users_distinct;
  tokens_distinct = v.tokens_distinct;
  logs_distinct = v.logs_distinct;
  users_owned = kept_users g v;
  tokens_owned = kept_tokens g v;
  logs_owned = kept_logs g v;
}

add_user-IsValid :
    (db : Db) (u : User)
    → user_refused u db ≡ false
    → Grows db (add_user u db)
    → IsValid db
    → IsValid (add_user u db)
unfolding user_refused
add_user-IsValid db u fits g v = record {
  tenants_distinct = v.tenants_distinct;
  users_distinct = ((||_false _ _ fits).0, v.users_distinct);
  tokens_distinct = v.tokens_distinct;
  logs_distinct = v.logs_distinct;
  users_owned = (g.tenants u.tenant_id (ground arith), kept_users g v);
  tokens_owned = kept_tokens g v;
  logs_owned = kept_logs g v;
}

-- The user's row changes, and the constraints look at what does not.
update_user-IsValid :
    (db : Db) (id : Uuid) (f : User → User)
    → ((u : User) → (f u).id ≡ u.id)
    → ((u : User) → (f u).tenant_id ≡ u.tenant_id)
    → ((u : User) → (f u).email ≡ u.email)
    → Grows db (set_user id f db)
    → IsValid db
    → IsValid (set_user id f db)
update_user-IsValid db id f same_id same_tenant same_email g v = record {
  tenants_distinct = v.tenants_distinct;
  users_distinct =
      Distinct-update user_clash (user_has_id id) f db.users
        (λ x y. rw (same_id y, same_tenant y, same_email y))
        (λ x y. rw (same_id x, same_tenant x, same_email x)) v.users_distinct;
  tokens_distinct = v.tokens_distinct;
  logs_distinct = v.logs_distinct;
  users_owned =
      All-update (user_has_id id) f db.users (λ u h. rw (same_tenant u) h) (kept_users g v);
  tokens_owned = kept_tokens g v;
  logs_owned = kept_logs g v;
}

-- A permitted change of a database that is valid leaves it valid.
pub Permitted-IsValid : {a : Authority} {d e : Db} → Permitted a d e → IsValid d → IsValid e
unfolding audit_refused token_refused
Permitted-IsValid (log db row fits) v =
    let g = log-Grows db row in
    record {
      tenants_distinct = v.tenants_distinct;
      users_distinct = v.users_distinct;
      tokens_distinct = v.tokens_distinct;
      logs_distinct = ((||_false _ _ fits).0, v.logs_distinct);
      users_owned = kept_users g v;
      tokens_owned = kept_tokens g v;
      logs_owned = (HasSubjects-grows g row (||_false _ _ fits).1, kept_logs g v);
    }
Permitted-IsValid (sign_up db t u _ t_fits u_fits _ _) v =
    add_user-IsValid (add_tenant t db) u u_fits (user-Grows (add_tenant t db) u)
      (add_tenant-IsValid db t t_fits (tenant-Grows db t) v)
Permitted-IsValid (open_tenant db t _ fits) v = add_tenant-IsValid db t fits (tenant-Grows db t) v
Permitted-IsValid (edit_tenant db id f may same) v =
    set_tenant-IsValid db id f same (Permitted-Grows (edit_tenant db id f may same)) v
Permitted-IsValid (enrol db u _ fits) v = add_user-IsValid db u fits (user-Grows db u) v
Permitted-IsValid (note_login db id f a same) v =
    update_user-IsValid db id f (λ u. (same u).id) (λ u. (same u).tenant_id) (λ u. (same u).email)
      (Permitted-Grows (note_login db id f a same)) v
Permitted-IsValid (issue db t _ fits _) v =
    let g = token-Grows db t in
    record {
      tenants_distinct = v.tenants_distinct;
      users_distinct = v.users_distinct;
      tokens_distinct = ((||_false _ _ fits).0, v.tokens_distinct);
      logs_distinct = v.logs_distinct;
      users_owned = kept_users g v;
      tokens_owned = (g.users t.user_id (ground arith), kept_tokens g v);
      logs_owned = kept_logs g v;
    }
Permitted-IsValid (revoke db id now a) v =
    set_tokens-IsValid db _ now (Permitted-Grows (revoke db id now a)) v
Permitted-IsValid (assign_role db p tid uid u role a found may may') v =
    update_user-IsValid db u.id _ (λ w. refl) (λ w. refl) (λ w. refl)
      (Permitted-Grows (assign_role db p tid uid u role a found may may')) v
Permitted-IsValid (suspend db p tid uid u now a found may other) v =
    set_tokens-IsValid _ _ now (set_tokens-Grows _ _ now) (
      update_user-IsValid db u.id _ (λ w. refl) (λ w. refl) (λ w. refl)
        (set_user-Grows db u.id _ (λ w. refl)) v)
Permitted-IsValid (recover db u f a same) v =
    update_user-IsValid db u.id f (λ w. (same w).id) (λ w. (same w).tenant_id) (λ w. (same w).email)
      (Permitted-Grows (recover db u f a same)) v
Permitted-IsValid (rotate db id now a) v =
    set_tokens-IsValid db _ now (Permitted-Grows (rotate db id now a)) v

pub Reach-IsValid : {a : Authority} {d e : Db} → Reach a d e → IsValid d → IsValid e
Reach-IsValid here v = v
Reach-IsValid (next r p) v = Permitted-IsValid p (Reach-IsValid r v)

-- If primary keys and unique constraints keep the rows of each table apart and no foreign key
-- dangles, then so it is after any sequence of requests.
pub serve_all-IsValid : (rs : List Request) (db : Db) → IsValid db → IsValid (serve_all rs db)
unfolding serve_all
serve_all-IsValid [] db v = v
serve_all-IsValid (r ∷ rs) db v =
    serve_all-IsValid rs (serve r db) (Reach-IsValid (serve-Reach r db) v)

-- Whatever requests are made of an empty database, in whatever order and whatever ids are drawn, the
-- primary keys and unique constraints keep the rows apart, and every foreign key has its row.
pub requests-IsValid : (rs : List Request) → IsValid (serve_all rs empty)
requests-IsValid rs = serve_all-IsValid rs empty (record {
  tenants_distinct = tt;
  users_distinct = tt;
  tokens_distinct = tt;
  logs_distinct = tt;
  users_owned = tt;
  tokens_owned = tt;
  logs_owned = tt;
})
