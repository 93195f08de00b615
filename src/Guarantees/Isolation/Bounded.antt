-- ===== src/Guarantees/Isolation/Bounded.antt =====
-- Every change that the policy permits a principal that is no system administrator lies within the
-- tenant of the principal.
use mathlib.Core.Path.{subst}
use identity_access_service.Base.{
  true, false, some, ◌≡◌, ◌≢◌, refl, arith, All, filter, first, nat_eq,
}
use identity_access_service.Base.Rows.{first-any}
use identity_access_service.Models.{Uuid, User, Role, Datetime, sys_admin}
use identity_access_service.Db.{Db, user_has_id, user_by_id, user_refused, user_clash}
use identity_access_service.Db.Session.{set_user, set_tokens, add_user}
use identity_access_service.Core.Principal.{CurrentPrincipal}
use identity_access_service.Services.Users.{user_in_tenant_by_id, live_token_of, revoke_at}
use identity_access_service.Services.Users.Visible.{user_in_tenant_by_id_sound}
use identity_access_service.Policy.{
  signed_in, MayManage, Permitted, log, sign_up, open_tenant, edit_tenant, enrol, note_login, issue,
  revoke, assign_role, suspend, recover, rotate, Reach, here, next,
}
use identity_access_service.Requests.{Request, serve, authority}
use identity_access_service.Requests.Refines.{serve-Reach}
use identity_access_service.Guarantees.Integrity.{IsValid}
use identity_access_service.Guarantees.Integrity.Preserved.{Reach-IsValid}
use identity_access_service.Guarantees.Targets.{row_of_managed}
use identity_access_service.Guarantees.Isolation.{
  IsWithin, IsWithin-trans, strangers, tokens_of, user_by_id_sound, set_user-strangers,
  set_user-found, other_id, revoke-tokens_of,
}

enrolled_in :
    (p : CurrentPrincipal)
    → p.role ≢ sys_admin
    → (u : User) → MayManage p u.tenant_id u.role
    → u.tenant_id ≡ p.tenant_id
enrolled_in p plain u may = ground arith

module _ (p : CurrentPrincipal) (plain : p.role ≢ sys_admin) where
  -- The user that the caller may manage is in the caller's tenant.
  managed_tenant :
      {p' : CurrentPrincipal} (tid uid : Uuid) (u : User) (role : Role) (db : Db)
      → signed_in p ≡ signed_in p'
      → user_in_tenant_by_id tid uid db ≡ some u
      → MayManage p' tid role
      → u.tenant_id ≡ p.tenant_id
  managed_tenant tid uid u role db who found may =
      ground (arith, user_in_tenant_by_id_sound tid uid db found)

  set_user-IsWithin :
      (db : Db) (u : User) (f : User → User)
      → All (λ r. user_has_id u.id r ≡ true → r ≡ u) db.users
      → ((r : User) → (f r).id ≡ r.id)
      → ((r : User) → (f r).tenant_id ≡ r.tenant_id)
      → u.tenant_id ≡ p.tenant_id
      → IsWithin p.tenant_id db (set_user u.id f db)
  unfolding tokens_of
  set_user-IsWithin db u f only same_id same_tenant mine =
      subst (λ t. IsWithin t db (set_user u.id f db)) mine
        (record {
          tenants = refl;
          users = set_user-strangers db u f only same_id same_tenant;
          found = λ id w there other.
              set_user-found db u f only same_id same_tenant id w there
                (other_id db u w id only there other);
          tokens = λ id w there other. refl;
        })

  end_sessions-IsWithin :
      (db : Db) (u : User) (now : Datetime)
      → All (λ r. user_has_id u.id r ≡ true → r ≡ u) db.users
      → u.tenant_id ≡ p.tenant_id
      → IsWithin p.tenant_id db (set_tokens (live_token_of u.id) (revoke_at now) db)
  unfolding strangers user_by_id
  end_sessions-IsWithin db u now only mine =
      subst (λ t. IsWithin t db (set_tokens (live_token_of u.id) (revoke_at now) db)) mine
        (record {
          tenants = refl;
          users = refl;
          found = λ id w there other. there;
          tokens = λ id w there other.
              revoke-tokens_of db u.id id now (other_id db u w id only there other);
        })

  enrol-IsWithin :
      (db : Db) (u : User)
      → user_refused u db ≡ false
      → u.tenant_id ≡ p.tenant_id
      → IsWithin p.tenant_id db (add_user u db)
  unfolding strangers user_by_id tokens_of filter first user_refused
  enrol-IsWithin db u fits mine = record {
    tenants = refl;
    users = ground (arith, nat_eq.reflects u.tenant_id p.tenant_id);
    found = λ id w there other. ground (
      arith,
      first-any (user_has_id id) (user_clash u) db.users there,
      user_by_id_sound id db there,
      nat_eq.reflects u.id id,
      nat_eq.reflects w.id u.id,
    );
    tokens = λ id w there other. refl;
  }

  Permitted-IsWithin :
      {d e : Db} → IsValid d → Permitted (signed_in p) d e → IsWithin p.tenant_id d e
  unfolding strangers user_by_id tokens_of
  Permitted-IsWithin v (log db row _) = record {
    tenants = refl;
    users = refl;
    found = λ id w h o. h;
    tokens = λ id w h o. refl;
  }
  Permitted-IsWithin v (sign_up db t u who _ _ _ _) = absurd (cc)
  Permitted-IsWithin v (open_tenant db t may _) = absurd (plain may)
  Permitted-IsWithin v (edit_tenant db id f may _) = absurd (plain may)
  Permitted-IsWithin v (enrol db u may fits) = enrol-IsWithin db u fits (enrolled_in p plain u may)
  Permitted-IsWithin v (note_login db id f who _) = absurd (cc)
  Permitted-IsWithin v (issue db t who _ _) = absurd (cc)
  Permitted-IsWithin v (revoke db id now who) = absurd (cc)
  Permitted-IsWithin v (assign_role db p' tid uid u role who found may _) =
      set_user-IsWithin db u _ (row_of_managed db v tid uid found) (λ r. refl) (λ r. refl)
        (managed_tenant tid uid u u.role db who found may)
  Permitted-IsWithin v (suspend db p' tid uid u now who found may _) =
      let only = row_of_managed db v tid uid found in
      let mine = managed_tenant tid uid u u.role db who found may in
      let g =
        set_user-IsWithin db u (λ r. record r { is_active = false }) only (λ r. refl) (λ r. refl)
          mine in
      let h = end_sessions-IsWithin db u now only mine in
      record { tenants = g.tenants; users = g.users; found = g.found; tokens = h.tokens }
  Permitted-IsWithin v (recover db u f who _) = absurd (cc)
  Permitted-IsWithin v (rotate db id now who) = absurd (cc)

  pub Reach-IsWithin : {d e : Db} → IsValid d → Reach (signed_in p) d e → IsWithin p.tenant_id d e
  Reach-IsWithin v here = record {
    tenants = refl;
    users = refl;
    found = λ id w h o. h;
    tokens = λ id w h o. refl;
  }
  Reach-IsWithin v (next r q) =
      IsWithin-trans (Reach-IsWithin v r) (Permitted-IsWithin (Reach-IsValid r v) q)

-- At a database whose constraints hold, a request of a signed-in principal that is no system
-- administrator changes no tenant, no user of another tenant and no refresh token of such a user.
pub serve-IsWithin :
    (r : Request) (db : Db) (p : CurrentPrincipal)
    → IsValid db
    → authority r db ≡ signed_in p
    → p.role ≢ sys_admin
    → IsWithin p.tenant_id db (serve r db)
serve-IsWithin r db p v who plain =
    Reach-IsWithin p plain v (subst (λ a. Reach a db (serve r db)) who (serve-Reach r db))
