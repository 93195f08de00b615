-- ===== src/Guarantees/Targets.antt =====
-- In a valid database the row that a manager changes is the one that was looked up.
use identity_access_service.Base.{true, some, ◌≡◌, arith, All, ◌==◌, nat_eq, string_eq}
use identity_access_service.Base.Rows.{Distinct-first, All-map}
use identity_access_service.Models.{Uuid, User}
use identity_access_service.Db.{Db, user_clash, user_has_id, user_by_id}
use identity_access_service.Services.Users.{user_in_tenant_by_id, user_of_tenant}
use identity_access_service.Guarantees.Integrity.{IsValid}

clash_of_id :
    (u r : User) → (r.id == u.id) ≡ true → (user_clash u r ≡ true) × (user_clash r u ≡ true)
clash_of_id u r h = ground (arith, nat_eq.reflects r.id u.id, nat_eq.reflects u.id r.id)

module _ (db : Db) (v : IsValid db) {u : User} where
  pub row_of_managed :
      (tenant_id user_id : Uuid)
      → user_in_tenant_by_id tenant_id user_id db ≡ some u
      → All (λ r. user_has_id u.id r ≡ true → r ≡ u) db.users
  unfolding user_in_tenant_by_id
  row_of_managed tenant_id user_id h =
      All-map db.users (λ r only same. let c = clash_of_id u r same in only c.0 c.1)
        (Distinct-first user_clash (user_of_tenant tenant_id user_id) db.users v.users_distinct h)

  pub row_of_id :
      (id : Uuid)
      → user_by_id id db ≡ some u
      → All (λ r. user_has_id u.id r ≡ true → r ≡ u) db.users
  unfolding user_by_id
  row_of_id id h =
      All-map db.users (λ r only same. let c = clash_of_id u r same in only c.0 c.1)
        (Distinct-first user_clash (user_has_id id) db.users v.users_distinct h)
