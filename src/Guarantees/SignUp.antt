-- ===== src/Guarantees/SignUp.antt =====
-- Whoever has signed up can sign in.
use identity_access_service.Base.{◌*◌, true, ◌∷◌, ◌≡◌, refl, arith, nat_eq, string_eq, first}
use identity_access_service.Models.{Tenant}
use identity_access_service.Errors.{ok}
use identity_access_service.Db.{Db, tenant_by_slug, user_by_email}
use identity_access_service.Db.Session.{
  ◌>>=◌, run, insert_tenant, insert_user, insert_token, insert_audit_log,
}
use identity_access_service.Core.Context.{Context, Client}
use identity_access_service.Core.Security.{create_refresh_token, hash_password, verify_password}
use identity_access_service.Services.Audit.{record_audit_event}
use identity_access_service.Services.Auth.Issue.{
  AuthResult, token_row, issue_tokens_for_user, tenant_of,
}
use identity_access_service.Services.Auth.Register.{
  RegisterRequest, register, registered_tenant, registered_user,
}
use identity_access_service.Services.Auth.Login.{LoginRequest, login}
use identity_access_service.Services.Auth.Login.Outcomes.{IsChecked}
use identity_access_service.Services.Auth.Login.Success.{
  IsFresh, login_succeeds, login_result, signed_in,
}

-- The login of the account that a sign-up made.
abbrev pub same_login : RegisterRequest → LoginRequest
same_login payload = record {
  tenant_slug = payload.tenant_slug;
  email = payload.email;
  password = payload.password;
}

module _ (c : Context) (payload : RegisterRequest) (client : Client) (db : Db) where
  abbrev pub signed_up : Db
  signed_up = (run (register c payload client) db).1

  -- the rows that a sign-up adds, and the refresh token that it answers with
  pub register-adds :
      {r : AuthResult}
      → (run (register c payload client) db).0 ≡ ok r
      → (signed_up.tenants ≡ registered_tenant c payload ∷ db.tenants)
        × (signed_up.users ≡ registered_user c payload ∷ db.users)
        × (signed_up.refresh_tokens ≡ token_row c (registered_user c payload) ∷ db.refresh_tokens)
        × (r.refresh_token ≡ (create_refresh_token c).plain_token)
        × (r.user ≡ registered_user c payload)
        × (r.access_token_expires_in ≡ c.access_token_ttl_minutes * 60)
  unfolding run register insert_tenant insert_user issue_tokens_for_user insert_token tenant_of
      record_audit_event insert_audit_log ◌>>=◌
  register-adds h =
      (ground arith, ground arith, ground arith, ground arith, ground arith, ground arith)

  register-IsChecked :
      {r : AuthResult} (c' : Context)
      → (run (register c payload client) db).0 ≡ ok r
      → IsChecked c' (same_login payload) signed_up (registered_user c payload)
  unfolding tenant_by_slug user_by_email first
  register-IsChecked c' h =
      let (tenants, users, _, _, _, _) = register-adds h in
      record {
        tenant = registered_tenant c payload;
        found_tenant =
            rw tenants (ground (arith, string_eq.reflects payload.tenant_slug payload.tenant_slug));
        tenant_active = refl;
        found_user = rw users (
            ground (
              arith,
              string_eq.reflects payload.email payload.email,
              nat_eq.reflects c.new_tenant_id c.new_tenant_id,
            ));
        user_active = refl;
        unlocked = refl;
      }

  -- After a sign-up that succeeds, a login with the same slug, e-mail address and password answers with
  -- tokens for the new user, provided that the later `checkpw` accepts the password against the hash
  -- that the sign-up made of it, and that the ids drawn by the login are not taken.
  pub sign_up_then_login :
      {r : AuthResult} (c' : Context) (client' : Client)
      → (run (register c payload client) db).0 ≡ ok r
      → c'.checkpw payload.password (c.hashpw payload.password c.salt) ≡ true
      → IsFresh c' signed_up
      → (home : Tenant) × ((run (login c' (same_login payload) client') signed_up).0
          ≡ ok (login_result c' (signed_in c' (registered_user c payload)) home))
  unfolding verify_password hash_password
  sign_up_then_login c' client' h accepts fresh =
      login_succeeds c' (same_login payload) client' signed_up (register-IsChecked c' h) accepts
        fresh
