-- ===== src/Guarantees/Sessions.antt =====
-- A session that is refreshed in time goes on.
use mathlib.Core.Path.{subst}
use identity_access_service.Base.{
  ◌+◌, ◌^◌, ◌<◌, String, true, some, List, [], ◌∷◌, ◌≡◌, refl, sym, ap, ◌∙◌, nat_eq, ==→eq, ==_refl,
  string_eq, first,
}
use identity_access_service.Base.Rows.{first_sound}
use identity_access_service.Models.{Tenant, User, days}
use identity_access_service.Errors.{ok}
use identity_access_service.Db.{Db, user_by_id, tenant_by_id, token_by_id, user_has_id}
use identity_access_service.Db.Session.{run}
use identity_access_service.Core.Context.{Context, Env, Client, with_draws}
use identity_access_service.Core.Security.{
  create_refresh_token, verify_refresh_token_secret, hash_refresh_token_secret,
}
use identity_access_service.Core.Security.RoundTrip.{parse_refresh_token-str_uuid}
use identity_access_service.Services.Auth.Issue.{AuthResult, token_row}
use identity_access_service.Services.Auth.Register.{
  RegisterRequest, register, registered_tenant, registered_user,
}
use identity_access_service.Services.Auth.Tokens.{refresh}
use identity_access_service.Services.Auth.Tokens.Usable.{IsUsable}
use identity_access_service.Services.Auth.Tokens.Rotation.{rotated, refresh_rotates}
use identity_access_service.Services.Auth.Tokens.Success.{refresh_succeeds}
use identity_access_service.Services.Auth.Login.Success.{IsFresh, login_result}
use identity_access_service.Guarantees.SignUp.{signed_up, register-adds}

-- The database holds the token that the request `c` issued, with its user and that user's tenant.
record IsIssued (c : Context) (db : Db) : Type 0 where
  user : User
  found : token_by_id c.new_token_id db ≡ some (token_row c user)
  owner : user_by_id user.id db ≡ some user
  user_active : user.is_active ≡ true
  tenant : Tenant
  home : tenant_by_id user.tenant_id db ≡ some tenant
  tenant_active : tenant.is_active ≡ true

abbrev pub issued_text : Context → String
issued_text c = (create_refresh_token c).plain_token

module _ (c : Context) (later : Env) (db : Db) where
  -- The request with the draws `later` comes before the token of `c` expires and draws ids that are not
  -- taken; the id that `c` drew for the token is a UUID.
  pub record IsTimely : Type 0 where
    pub is_uuid : c.new_token_id < 2 ^ 128
    pub in_time : later.now < c.now + days c.refresh_token_ttl_days
    pub fresh : IsFresh (with_draws c later) db

  issued-IsUsable :
      (i : IsIssued c db)
      → IsTimely
      → IsUsable (with_draws c later) (issued_text c) db (token_row c i.user)
  unfolding create_refresh_token token_row verify_refresh_token_secret hash_refresh_token_secret
  issued-IsUsable i timely = record {
    id = c.new_token_id;
    secret = c.secret;
    parsed = parse_refresh_token-str_uuid c.new_token_id c.secret timely.is_uuid;
    found = i.found;
    verified = ==_refl (c.sha256_hexdigest c.secret);
    unrevoked = refl;
    unexpired = timely.in_time;
    user = i.user;
    owner = i.owner;
    user_active = i.user_active;
    tenant = i.tenant;
    home = i.home;
    tenant_active = i.tenant_active;
  }

-- A refresh leaves the token that it issued.
refresh-IsIssued :
    (c : Context) (text : String) (client : Client) (db : Db) {r : AuthResult}
    → (run (refresh c text client) db).0 ≡ ok r
    → IsIssued c (run (refresh c text client) db).1
unfolding rotated token_by_id user_by_id tenant_by_id first token_row create_refresh_token
refresh-IsIssued c text client db h =
    let (t, user, usable, owner, fits, after) = refresh_rotates c text client db h in
    let same_user : usable.user ≡ user = cc in
    let same_id : user.id ≡ t.user_id =
      ==→eq (first_sound (user_has_id t.user_id) db.users owner) in
    subst (λ after_it. IsIssued c after_it) (sym after)
      (record {
        user = user;
        found = rw (==_refl c.new_token_id) refl;
        owner = rw same_id owner;
        user_active = ap (λ u. u.is_active) (sym same_user) ∙ usable.user_active;
        tenant = usable.tenant;
        home = ap (λ u. tenant_by_id u.tenant_id db) (sym same_user) ∙ usable.home;
        tenant_active = usable.tenant_active;
      })

register-IsIssued :
    (c : Context) (payload : RegisterRequest) (client : Client) (db : Db) {r : AuthResult}
    → (run (register c payload client) db).0 ≡ ok r
    → IsIssued c (signed_up c payload client db)
unfolding token_by_id user_by_id tenant_by_id first token_row create_refresh_token
register-IsIssued c payload client db h =
    let (tenants, users, tokens, _, _, _) = register-adds c payload client db h in
    record {
      user = registered_user c payload;
      found = rw (tokens, ==_refl c.new_token_id) refl;
      owner = rw (users, ==_refl c.new_user_id) refl;
      user_active = refl;
      tenant = registered_tenant c payload;
      home = rw (tenants, ==_refl c.new_tenant_id) refl;
      tenant_active = refl;
    }

module _ (client : Client) where
  -- Each refresh comes in time for the token that the request before it issued.
  abbrev pub AllTimely : Context → List Env → Db → Type 0
  AllTimely c [] db = Unit
  AllTimely c (e ∷ later) db =
      IsTimely c e db
      × AllTimely (with_draws c e) later
          (run (refresh (with_draws c e) (issued_text c) client) db).1

  -- Each refresh is given the refresh token that the answer before it holds, and answers.
  abbrev pub AllAnswer : Context → String → List Env → Db → Type 0
  AllAnswer c text [] db = Unit
  AllAnswer c text (e ∷ later) db =
      (r : AuthResult) × ((run (refresh (with_draws c e) text client) db).0 ≡ ok r)
      × AllAnswer c r.refresh_token later (run (refresh (with_draws c e) text client) db).1

  issued-AllAnswer :
      (c : Context) (later : List Env) (db : Db)
      → IsIssued c db
      → AllTimely c later db
      → AllAnswer c (issued_text c) later db
  issued-AllAnswer c [] db i _ = tt
  issued-AllAnswer c (e ∷ later) db i (timely, others) =
      let now = with_draws c e in
      let text = issued_text c in
      let usable = issued-IsUsable c e db i timely in
      let answered = refresh_succeeds now text client db usable timely.fresh in
      (
        login_result now usable.user usable.tenant,
        answered,
        issued-AllAnswer now later (run (refresh now text client) db).1
            (refresh-IsIssued now text client db answered) others,
      )

  -- After a sign-up that succeeds, refreshes that follow one another, each given the refresh token of
  -- the answer before it, all answer with tokens, provided that each comes before the token it is given
  -- expires, that the ids drawn for tokens are UUIDs, and that no drawn id is taken. No other request
  -- comes between.
  pub session_goes_on :
      (c : Context) (payload : RegisterRequest) (db : Db) (later : List Env) {r : AuthResult}
      → (run (register c payload client) db).0 ≡ ok r
      → AllTimely c later (signed_up c payload client db)
      → AllAnswer c r.refresh_token later (signed_up c payload client db)
  session_goes_on c payload db later {r} h timely =
      let (_, _, _, text, _, _) = register-adds c payload client db h in
      subst (λ t. AllAnswer c t later (signed_up c payload client db)) (sym text)
        (issued-AllAnswer c later (signed_up c payload client db)
          (register-IsIssued c payload client db h) timely)
