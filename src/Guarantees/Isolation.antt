-- ===== src/Guarantees/Isolation.antt =====
-- Tenants are isolated: what a principal that is no system administrator changes lies in its tenant.
pub mod Bounded
use mathlib.Core.Path.{subst}
use identity_access_service.Base.{
  Bool, true, false, not, Option, some, none, List, [], ◌∷◌, ◌≡◌, ◌≢◌, ◌⊎◌, inl, inr, refl, ◌∙◌, ap,
  sym, arith, All, filter, first, update, ◌==◌, ◌&&◌, ◌||◌, nat_eq, is_some,
}
use identity_access_service.Base.Rows.{
  filter-update, first-update, first_sound, All-map, All-of, first-All, any-first, first-any,
}
use identity_access_service.Models.{Uuid, Tenant, User, RefreshToken, Role, Datetime, sys_admin}
use identity_access_service.Db.{Db, user_has_id, user_by_id, user_refused, user_clash}
use identity_access_service.Db.Session.{set_user, set_tokens, add_user}
use identity_access_service.Core.Principal.{CurrentPrincipal}
use identity_access_service.Services.Users.{
  user_in_tenant, user_in_tenant_by_id, live_token_of, revoke_at,
}
use identity_access_service.Services.Users.Visible.{user_in_tenant_by_id_sound}
use identity_access_service.Policy.{
  Authority, signed_in, MayManage, Permitted, log, sign_up, open_tenant, edit_tenant, enrol,
  note_login, issue, revoke, assign_role, suspend, recover, rotate, Reach, here, next,
}
use identity_access_service.Requests.{Request, serve, authority}
use identity_access_service.Requests.Refines.{serve-Reach}
use identity_access_service.Guarantees.Integrity.{IsValid}
use identity_access_service.Guarantees.Integrity.Preserved.{Reach-IsValid}
use identity_access_service.Guarantees.Targets.{row_of_managed}

-- The users of all other tenants.
abbrev pub is_stranger : Uuid → User → Bool
is_stranger tenant_id u = not (user_in_tenant tenant_id u)

unfoldable pub strangers : Uuid → Db → List User
strangers tenant_id db = filter (is_stranger tenant_id) db.users

-- The refresh tokens of a user.
abbrev pub is_token_of : Uuid → RefreshToken → Bool
is_token_of user_id t = t.user_id == user_id

unfoldable pub tokens_of : Uuid → Db → List RefreshToken
tokens_of user_id db = filter (is_token_of user_id) db.refresh_tokens

-- The second database differs from the first only within the tenant, and in the audit log.
pub record IsWithin (tenant_id : Uuid) (d e : Db) : Type 0 where
  pub tenants : e.tenants ≡ d.tenants
  pub users : strangers tenant_id e ≡ strangers tenant_id d
  pub found :
      (id : Uuid) (w : User)
      → user_by_id id d ≡ some w
      → w.tenant_id ≢ tenant_id
      → user_by_id id e ≡ some w
  pub tokens :
      (id : Uuid) (w : User)
      → user_by_id id d ≡ some w
      → w.tenant_id ≢ tenant_id
      → tokens_of id e ≡ tokens_of id d

pub IsWithin-trans :
    {tenant_id : Uuid} {d e f : Db}
    → IsWithin tenant_id d e
    → IsWithin tenant_id e f
    → IsWithin tenant_id d f
IsWithin-trans g h = record {
  tenants = h.tenants ∙ g.tenants;
  users = h.users ∙ g.users;
  found = λ id w there other. h.found id w (g.found id w there other) other;
  tokens = λ id w there other.
      h.tokens id w (g.found id w there other) other ∙ g.tokens id w there other;
}

pub user_by_id_sound : (id : Uuid) (db : Db) {w : User} → user_by_id id db ≡ some w → w.id ≡ id
unfolding user_by_id
user_by_id_sound id db {w} h = (nat_eq.reflects w.id id).0 (first_sound (user_has_id id) db.users h)

-- A change of one user of the tenant.
module _ (db : Db) (u : User) (f : User → User)
    (only : All (λ r. user_has_id u.id r ≡ true → r ≡ u) db.users)
    (same_id : (r : User) → (f r).id ≡ r.id)
    (same_tenant : (r : User) → (f r).tenant_id ≡ r.tenant_id) where
  pub set_user-strangers : strangers u.tenant_id (set_user u.id f db) ≡ strangers u.tenant_id db
  unfolding strangers
  set_user-strangers = filter-update (is_stranger u.tenant_id) (user_has_id u.id) f db.users (
      All-map db.users
        (λ r is_u same.
          let e = is_u same in
          (
            rw e (ground (arith, nat_eq.reflects u.tenant_id u.tenant_id)),
            rw (same_tenant r, e) (ground (arith, nat_eq.reflects u.tenant_id u.tenant_id)),
          ))
        only)

  pub set_user-found :
      (id : Uuid) (w : User)
      → user_by_id id db ≡ some w
      → id ≢ u.id
      → user_by_id id (set_user u.id f db) ≡ some w
  unfolding user_by_id
  set_user-found id w there other = ground (
    arith,
    first-update (user_has_id u.id) (user_has_id id) f (λ r. rw (same_id r)) db.users,
    user_by_id_sound id db there,
    nat_eq.reflects w.id u.id,
  )

-- A user of another tenant is not the one that changes.
pub other_id :
    (db : Db) (u w : User) (id : Uuid)
    → All (λ r. user_has_id u.id r ≡ true → r ≡ u) db.users
    → user_by_id id db ≡ some w
    → w.tenant_id ≢ u.tenant_id
    → id ≢ u.id
unfolding user_by_id
other_id db u w id only there other same = other (
    ap (λ (r : User). r.tenant_id)
      (first-All (λ r. user_has_id u.id r ≡ true → r ≡ u) (user_has_id id) db.users there only
        ((nat_eq.reflects w.id u.id).1 (user_by_id_sound id db there ∙ same))))

live_of_other :
    (t : RefreshToken) (k id : Uuid) → id ≢ k → live_token_of k t ≡ true → is_token_of id t ≡ false
live_of_other t k id other live =
    ground (arith, nat_eq.reflects t.user_id k, nat_eq.reflects t.user_id id)

pub revoke-tokens_of :
    (db : Db) (k id : Uuid) (now : Datetime)
    → id ≢ k
    → tokens_of id (set_tokens (live_token_of k) (revoke_at now) db) ≡ tokens_of id db
unfolding tokens_of
revoke-tokens_of db k id now other =
    filter-update (is_token_of id) (live_token_of k) (revoke_at now) db.refresh_tokens (
      All-of db.refresh_tokens
        (λ t live. (live_of_other t k id other live, live_of_other t k id other live)))
