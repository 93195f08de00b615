-- ===== src/Services/Auth/Login/Effects.antt =====
-- What an action leaves of a user: the rules for an action that returns, and for one that refuses a login.
use mathlib.Core.Path.{subst}
use identity_access_service.Base.{
  String, Bool, true, false, some, ◌≡◌, refl, sym, ◌∙◌, arith, if◌then◌else◌, nat_eq,
}
use identity_access_service.Base.Rows.{first-update}
use identity_access_service.Models.{Uuid, User}
use identity_access_service.Errors.{ok, err}
use identity_access_service.Db.{Db, user_by_email, user_has_email, user_has_id}
use identity_access_service.Db.Session.{Session, Action, ◌>>=◌, pure, query, continue}
use identity_access_service.Services.Auth.Issue.{AuthResult, assign_user}
use identity_access_service.Services.Auth.Login.{invalid_login}

-- The action returns the value and leaves the user as the one of this e-mail address in the tenant.
pub record Yields (tenant_id : Uuid) (email : String) {A : Type 0} (m : Action A) (s : Session)
    (a : A) (u : User) : Type 0 where
  pub returns : (m s).0 ≡ ok a
  pub row : user_by_email tenant_id email (m s).1.db ≡ some u
  pub tenants : (m s).1.db.tenants ≡ s.db.tenants

module _ {tenant_id : Uuid} {email : String} where
  pub Yields-pure :
      {A : Type 0} (a : A) (s : Session) (u : User)
      → user_by_email tenant_id email s.db ≡ some u
      → Yields tenant_id email (pure a) s a u
  unfolding pure
  Yields-pure a s u found = record { returns = refl; row = found; tenants = refl }

  pub Yields-query :
      {A : Type 0} (f : Db → A) (s : Session) (u : User)
      → user_by_email tenant_id email s.db ≡ some u
      → Yields tenant_id email (query f) s (f s.db) u
  unfolding query
  Yields-query f s u found = record { returns = refl; row = found; tenants = refl }

  pub Yields-assign :
      (user : User) (f : User → User) (s : Session)
      → ((u : User) → (f u).tenant_id ≡ u.tenant_id)
      → ((u : User) → (f u).email ≡ u.email)
      → user_by_email tenant_id email s.db ≡ some user
      → Yields tenant_id email (assign_user user f) s (f user) (f user)
  unfolding user_by_email assign_user ◌>>=◌
  Yields-assign user f s same_tenant same_email found = record {
    returns = refl;
    row = ground (
      arith,
      first-update (user_has_id user.id) (user_has_email tenant_id email) f
          (λ u. rw (same_tenant u, same_email u) refl) s.db.users,
      nat_eq.reflects user.id user.id,
    );
    tenants = refl;
  }

  pub Yields-bind :
      {A B : Type 0} {m : Action A} (f : A → Action B) {s : Session} {a : A} {u : User} {b : B}
      {w : User}
      → Yields tenant_id email m s a u
      → Yields tenant_id email (f a) (m s).1 b w
      → Yields tenant_id email (m >>= f) s b w
  unfolding ◌>>=◌
  Yields-bind {m = m} f {s = s} {b = b} {w = w} g h = record {
    returns = subst (λ x. (continue x f (m s).1).0 ≡ ok b) (sym g.returns) h.returns;
    row =
        subst (λ x. user_by_email tenant_id email (continue x f (m s).1).1.db ≡ some w)
          (sym g.returns) h.row;
    tenants =
        subst (λ x. (continue x f (m s).1).1.db.tenants ≡ s.db.tenants) (sym g.returns)
          (h.tenants ∙ g.tenants);
  }

  pub Yields-then :
      {A : Type 0} (b : Bool) {m : Action A} (n : Action A) {s : Session} {a : A} {u : User}
      → b ≡ true
      → Yields tenant_id email m s a u
      → Yields tenant_id email (if b then m else n) s a u
  Yields-then true n t y = y
  Yields-then false n t y = absurd (cc)

  pub Yields-if :
      {A : Type 0} (b : Bool) {m n : Action A} {s : Session} {f g : A} {u w : User}
      → (b ≡ true → Yields tenant_id email m s f u)
      → (b ≡ false → Yields tenant_id email n s g w)
      → Yields tenant_id email (if b then m else n) s (if b then f else g) (if b then u else w)
  Yields-if true km kn = km refl
  Yields-if false km kn = kn refl

-- If the action answers that the credentials are invalid, it has committed the user in this state, and
-- the tenants as they were.
pub record Refuses (tenant_id : Uuid) (email : String) (m : Action AuthResult) (s : Session)
    (w : User) : Type 0 where
  pub at :
      (m s).0 ≡ err invalid_login
      → (user_by_email tenant_id email (m s).1.committed ≡ some w)
        × ((m s).1.committed.tenants ≡ s.db.tenants)

module _ {tenant_id : Uuid} {email : String} where
  pub Refuses-bind :
      {A : Type 0} {m : Action A} (f : A → Action AuthResult) {s : Session} {a : A} {u : User}
      (w : User)
      → Yields tenant_id email m s a u
      → Refuses tenant_id email (f a) (m s).1 w
      → Refuses tenant_id email (m >>= f) s w
  unfolding ◌>>=◌
  Refuses-bind {m = m} f {s = s} w y k = record {
    at = λ h.
        let (row, tenants) =
          k.at (subst (λ x. (continue x f (m s).1).0 ≡ err invalid_login) y.returns h) in
        (
          subst (λ x. user_by_email tenant_id email (continue x f (m s).1).1.committed ≡ some w)
              (sym y.returns) row,
          subst (λ x. (continue x f (m s).1).1.committed.tenants ≡ s.db.tenants) (sym y.returns)
              (tenants ∙ y.tenants),
        );
  }

  pub Refuses-then :
      (b : Bool) {m : Action AuthResult} (n : Action AuthResult) {s : Session} {w : User}
      → b ≡ true
      → Refuses tenant_id email m s w
      → Refuses tenant_id email (if b then m else n) s w
  Refuses-then true n t k = k
  Refuses-then false n t k = absurd (cc)

  pub Refuses-else :
      (b : Bool) (m : Action AuthResult) {n : Action AuthResult} {s : Session} {w : User}
      → b ≡ false
      → Refuses tenant_id email n s w
      → Refuses tenant_id email (if b then m else n) s w
  Refuses-else true m t k = absurd (cc)
  Refuses-else false m t k = k
