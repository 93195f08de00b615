-- ===== src/Guarantees/Accounts.antt =====
-- What the public endpoints do to accounts, and who changes passwords.
use mathlib.Core.Path.{subst}
use mathlib.Core.List.{append_assoc}
use identity_access_service.Base.{
  String, List, [], ◌∷◌, ◌++◌, ◌≡◌, ◌≢◌, refl, ◌∙◌, ap, sym, arith, All, map,
}
use identity_access_service.Base.Rows.{map-update}
use identity_access_service.Models.{Uuid, User, tenant_admin}
use identity_access_service.Db.{Db, user_has_id}
use identity_access_service.Policy.{
  Authority, anonymous, operator, SameAccount, Permitted, sign_up, enrol, note_login, assign_role,
  suspend, recover, Reach, here, next,
}
use identity_access_service.Requests.{Request, serve, authority}
use identity_access_service.Requests.Refines.{serve-Reach}
use identity_access_service.Guarantees.Escalation.{Account, account_of, account_of-same}

unfoldable pub accounts : Db → List Account
accounts db = map account_of db.users

abbrev pub IsTenantAdmin : Account → Type 0
IsTenantAdmin a = a.role ≡ tenant_admin

-- The accounts of the first database are there unchanged, below new tenant administrators.
abbrev pub OnlySignsUp : Db → Db → Type 0
OnlySignsUp d e =
    (added : List Account) × (accounts e ≡ added ++ accounts d) × All IsTenantAdmin added

All-append :
    (xs ys : List Account)
    → All IsTenantAdmin xs
    → All IsTenantAdmin ys
    → All IsTenantAdmin (xs ++ ys)
All-append [] ys h k = k
All-append (x ∷ xs) ys (hx, h) k = (hx, All-append xs ys h k)

Permitted-OnlySignsUp : {d e : Db} → Permitted anonymous d e → OnlySignsUp d e
unfolding accounts
Permitted-OnlySignsUp (sign_up db t u _ _ _ _ admin) = (account_of u ∷ [], refl, (admin, tt))
Permitted-OnlySignsUp (note_login db id f _ same) = (
  [],
  map-update account_of (user_has_id id) f (λ u. account_of-same u (f u) (same u)) db.users,
  tt,
)
Permitted-OnlySignsUp (enrol db u may _) = absurd may
Permitted-OnlySignsUp (assign_role db p _ _ u role who _ _ _) = absurd (cc)
Permitted-OnlySignsUp (suspend db p _ _ u now who _ _ _) = absurd (cc)
Permitted-OnlySignsUp (recover db u f who _) = absurd (cc)
Permitted-OnlySignsUp _ = ([], refl, tt)

Reach-OnlySignsUp : {d e : Db} → Reach anonymous d e → OnlySignsUp d e
Reach-OnlySignsUp here = ([], refl, tt)
Reach-OnlySignsUp {d} (next r p) =
    let (xs, e, all) = Reach-OnlySignsUp r in
    let (ys, e', all') = Permitted-OnlySignsUp p in
    (
      ys ++ xs,
      e' ∙ ap (λ l. ys ++ l) e ∙ sym (append_assoc ys xs (accounts d)),
      All-append ys xs all' all,
    )

-- A request without valid credentials, sign-ups included, leaves every account as it is, but for
-- the lockout and the time of the last login, and all accounts that it adds are tenant
-- administrators.
pub serve-OnlySignsUp :
    (r : Request) (db : Db) → authority r db ≡ anonymous → OnlySignsUp db (serve r db)
serve-OnlySignsUp r db who =
    Reach-OnlySignsUp (subst (λ a. Reach a db (serve r db)) who (serve-Reach r db))

-- What identifies a user at a login.
pub record LoginIdentity : Type 0 where
  pub id : Uuid
  pub tenant_id : Uuid
  pub email : String
  pub password_hash : String

abbrev pub login_identity : User → LoginIdentity
login_identity u = record {
  id = u.id;
  tenant_id = u.tenant_id;
  email = u.email;
  password_hash = u.password_hash;
}

unfoldable pub login_identities : Db → List LoginIdentity
login_identities db = map login_identity db.users

abbrev pub OnlyAddsLogins : Db → Db → Type 0
OnlyAddsLogins d e =
    (added : List LoginIdentity) × (login_identities e ≡ added ++ login_identities d)

login_identity-same : (u w : User) → SameAccount u w → login_identity w ≡ login_identity u
login_identity-same u w same = ground arith

Permitted-OnlyAddsLogins :
    {a : Authority} {d e : Db} → a ≢ operator → Permitted a d e → OnlyAddsLogins d e
unfolding login_identities
Permitted-OnlyAddsLogins other (sign_up db t u _ _ _ _ _) = (login_identity u ∷ [], refl)
Permitted-OnlyAddsLogins other (enrol db u _ _) = (login_identity u ∷ [], refl)
Permitted-OnlyAddsLogins other (note_login db id f _ same) = (
  [],
  map-update login_identity (user_has_id id) f (λ u. login_identity-same u (f u) (same u)) db.users,
)
Permitted-OnlyAddsLogins other (assign_role db p _ _ u role _ _ _ _) =
    ([], map-update login_identity (user_has_id u.id) _ (λ w. refl) db.users)
Permitted-OnlyAddsLogins other (suspend db p _ _ u now _ _ _ _) =
    ([], map-update login_identity (user_has_id u.id) _ (λ w. refl) db.users)
Permitted-OnlyAddsLogins other (recover db u f who _) = absurd (other who)
Permitted-OnlyAddsLogins other _ = ([], refl)

Reach-OnlyAddsLogins : {a : Authority} {d e : Db} → a ≢ operator → Reach a d e → OnlyAddsLogins d e
Reach-OnlyAddsLogins other here = ([], refl)
Reach-OnlyAddsLogins {d} other (next r p) =
    let (xs, e) = Reach-OnlyAddsLogins other r in
    let (ys, e') = Permitted-OnlyAddsLogins other p in
    (ys ++ xs, e' ∙ ap (λ l. ys ++ l) e ∙ sym (append_assoc ys xs (login_identities d)))

-- A request on any other authority than the operator's changes no user's id, tenant, e-mail address
-- or password hash, and removes no user: it adds users at most.
pub serve-OnlyAddsLogins :
    (r : Request) (db : Db) → authority r db ≢ operator → OnlyAddsLogins db (serve r db)
serve-OnlyAddsLogins r db other = Reach-OnlyAddsLogins other (serve-Reach r db)
