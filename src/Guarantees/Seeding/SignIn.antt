-- ===== src/Guarantees/Seeding/SignIn.antt =====
-- The administrator that the bootstrap command leaves signs in at the endpoint.
use identity_access_service.Base.{
  ◌*◌, ◌≤◌, ◌||◌, true, some, ◌≡◌, arith, leb, Option-cases, inl, inr,
}
use identity_access_service.Errors.{ok}
use identity_access_service.Models.{Tenant, User, sys_admin}
use identity_access_service.Db.{Db}
use identity_access_service.Db.Session.{run}
use identity_access_service.Core.Context.{Context, Client, Json}
use identity_access_service.Services.Auth.Login.Success.{IsFresh, login_result, signed_in}
use identity_access_service.Services.Bootstrap.{
  BootstrapAdminPayload, BootstrapAdminResult, ensure_system_admin,
}
use identity_access_service.Schemas.Fields.{is_slug, normalize, has_length}
use identity_access_service.Schemas.Body.{LoginBody}
use identity_access_service.Schemas.Body.Logins.{stored_login-valid}
use identity_access_service.Api.Auth.{AuthTokensResponse, build_auth_response}
use identity_access_service.Api.Bodies.{post_login}
use identity_access_service.Guarantees.Typed.{post_login-ok}
use identity_access_service.Guarantees.Seeding.{seeded, seeded-login}

-- The body that the administrator types: the texts that the operator gave to the command.
abbrev pub typed_login : BootstrapAdminPayload → LoginBody
typed_login payload = record {
  tenant_slug = some (Json.string payload.tenant_slug);
  email = some (Json.string payload.email);
  password = some (Json.string payload.password);
}

-- The texts pass the schema of a login as they are, and the lifetime of a token is not zero.
pub record IsAdmissible (c : Context) (payload : BootstrapAdminPayload) : Type 0 where
  pub slug : is_slug c.library payload.tenant_slug ≡ true
  pub normal : normalize c.library payload.email ≡ payload.email
  pub email : c.validate_email payload.email ≡ some payload.email
  pub password : has_length c.library 8 128 payload.password ≡ true
  pub lifetime : 1 ≤ c.access_token_ttl_minutes

-- A response with an admissible address and lifetime is valid.
response_valid :
    (c : Context) (payload : BootstrapAdminPayload) (w : User) (home : Tenant)
    → IsAdmissible c payload
    → w.email ≡ payload.email
    → (response : AuthTokensResponse) × (build_auth_response c.library
          (login_result c (signed_in c w) home)
        ≡ some response)
unfolding build_auth_response
response_valid c payload w home k same =
    let long : leb 1 (c.access_token_ttl_minutes * 60) ≡ true = ground (arith, k.lifetime) in
    let address : c.validate_email w.email ≡ some payload.email = rw same k.email in
    elim (Option-cases (build_auth_response c.library (login_result c (signed_in c w) home))) [
      | inl refused ↦ absurd (ground arith)
      | inr found ↦ found
    ]

-- After the bootstrap command has reported that it created the user or rotated the password, the login
-- endpoint, given the slug, the e-mail address and the password that the command was given, answers 200
-- with tokens for a user that is a system administrator. This holds where the slug keeps the pattern
-- and the lengths, the address is valid and in the form that the schema makes of it, the password has
-- an allowed length, tokens live for a minute at least, the later `checkpw` accepts the password
-- against the hash that the command made of it, and the ids drawn by the login are not taken.
pub seeded_admin_signs_in :
    (c : Context) (payload : BootstrapAdminPayload) (db : Db) {r : BootstrapAdminResult}
    (c' : Context) (client : Client)
    → (run (ensure_system_admin c payload) db).0 ≡ ok r
    → (r.user_created || r.password_rotated) ≡ true
    → IsAdmissible c' payload
    → c'.checkpw payload.password (c.hashpw payload.password c.salt) ≡ true
    → IsFresh c' (seeded c payload db)
    → (w : User) × (home : Tenant) × (response : AuthTokensResponse) × (w.role ≡ sys_admin)
      × (build_auth_response c'.library (login_result c' (signed_in c' w) home) ≡ some response)
      × ((run (post_login c' (typed_login payload) client) (seeded c payload db)).0
          ≡ ok (record { status = 200; body = response }))
seeded_admin_signs_in c payload db c' client h stored k accepts fresh =
    let (w, home, is_admin, email, done) =
      seeded-login c payload db c' client h stored accepts fresh in
    let (response, valid_response) = response_valid c' payload w home k email in
    let accepted =
      stored_login-valid c'.library payload.tenant_slug payload.email payload.password k.slug
        k.normal k.email k.password in
    (
      w,
      home,
      response,
      is_admin,
      valid_response,
      post_login-ok c' client (seeded c payload db) (typed_login payload) accepted done
          valid_response,
    )
