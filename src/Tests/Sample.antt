-- ===== src/Tests/Sample.antt =====
-- A context in which the external functions are concrete, its draws for the n-th request, and a
-- database of two tenants.
use identity_access_service.Base.{ℕ, ◌+◌, ◌*◌, String, none, some, ◌==◌, string_eq, true, [], ◌∷◌}
use identity_access_service.Models.{
  Tenant, User, RefreshToken, sys_admin, tenant_admin, user, naive,
}
use identity_access_service.Db.{Db}
use identity_access_service.Core.Context.{Settings, Library, Env, Context, Client}
use identity_access_service.Core.Principal.{CurrentPrincipal}
use identity_access_service.Api.Dependencies.{Credentials}

abbrev pub settings : Settings
settings = record {
  api_v1_prefix = "/api/v1";
  jwt_secret_key = "key";
  jwt_algorithm = "HS256";
  jwt_issuer = "identity-access-service";
  access_token_ttl_minutes = 15;
  refresh_token_ttl_days = 7;
  max_failed_login_attempts = 2;
  login_lockout_minutes = 15;
  rate_limit_window_seconds = 60;
  login_rate_limit_requests = 10;
  register_rate_limit_requests = 5;
  refresh_rate_limit_requests = 20;
}

-- A stored hash is the password itself, and an access token is its subject, a tenant administrator of
-- the first tenant: only the equations between the functions matter.
abbrev pub library : Library
library = record {
  hashpw = λ password salt. password;
  checkpw = λ password hash. password == hash;
  sha256_hexdigest = λ text. text;
  jwt_encode = λ claims iat exp key algorithm. claims.sub;
  jwt_decode = λ token key algorithm issuer now. some (record {
    sub = token;
    tenant_id = "00000000-0000-0000-0000-000000000001";
    role = "TENANT_ADMIN";
    email = "ann@acme.io";
    type = "access";
    iss = issuer;
  });
  refusal = λ loc. record { loc = loc; msg = "Invalid value."; type = "value_error" };
  validate_email = some;
  parse_bool = λ value. some true;
  lower_other = λ char. String.◌∷◌ char "";
  text_le = λ a b. true;
}

abbrev pub env : ℕ → ℕ → String → Env
env n now secret = record {
  now = now;
  new_tenant_id = n * 10 + 1;
  new_user_id = n * 10 + 2;
  new_token_id = n * 10 + 3;
  secret = secret;
  salt = "salt";
  audit_id = λ k. k;
}

abbrev pub context : ℕ → ℕ → String → Context
context n now secret = record { settings = settings; library = library; env = env n now secret }

abbrev pub client : Client
client = record { ip_address = some "10.0.0.1"; user_agent = none }

abbrev pub acme : Tenant
acme = record { id = 1; slug = "acme"; name = "Acme"; is_active = true }

abbrev pub root : Tenant
root = record { id = 5; slug = "root"; name = "Root"; is_active = true }

-- an administrator of the first tenant
abbrev pub ann : User
ann = record {
  id = 2;
  tenant_id = 1;
  email = "ann@acme.io";
  full_name = "Ann";
  password_hash = "password";
  role = tenant_admin;
  is_active = true;
  failed_login_attempts = 0;
  locked_until = none;
  last_login_at = none;
}

abbrev pub bob : User
bob = record ann { id = 3; email = "bob@acme.io"; full_name = "Bob"; role = user }

-- the system administrator, in the second tenant
abbrev pub sue : User
sue = record ann {
  id = 6;
  tenant_id = 5;
  email = "sue@root.io";
  full_name = "Sue";
  role = sys_admin;
}

abbrev pub ann_token : RefreshToken
ann_token = record {
  id = 13;
  user_id = 2;
  token_hash = "s0";
  expires_at = naive 9_000;
  revoked_at = none;
  last_used_at = none;
}

-- the text that `ann` was given with the row above
abbrev pub ann_text : String
ann_text = "00000000-0000-0000-0000-00000000000d.s0"

abbrev pub database : Db
database = record {
  tenants = acme ∷ root ∷ [];
  users = bob ∷ ann ∷ sue ∷ [];
  refresh_tokens = ann_token ∷ [];
  audit_logs = [];
}

abbrev pub ann_credentials : Credentials
ann_credentials = record { scheme = "Bearer"; credentials = "00000000-0000-0000-0000-000000000002" }

abbrev pub ann_principal : CurrentPrincipal
ann_principal = record {
  user_id = 2;
  tenant_id = 1;
  role = tenant_admin;
  email = "ann@acme.io";
  full_name = "Ann";
  tenant_slug = "acme";
  tenant_name = "Acme";
}
