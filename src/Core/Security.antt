-- ===== src/Core/Security.antt =====
-- app/core/security.py
pub mod RoundTrip
use Prim.Native.Char.{code}
use Prim.Native.String
use identity_access_service.Base.{
  ◌+◌, String, Bool, not, Option, none, some, ◌==◌, nat_eq, string_eq, if◌then◌else◌,
}
use identity_access_service.Uuid.{str_uuid, parse_uuid}
use identity_access_service.Models.{
  Uuid, User, Role, sys_admin, tenant_admin, user, role_value, Datetime, aware, minutes, days,
}
use identity_access_service.Core.Context.{Context, JwtClaims}

pub record RefreshTokenBundle : Type 0 where
  pub token_id : Uuid
  pub plain_token : String
  pub token_hash : String
  pub expires_at : Datetime

pub record AccessTokenClaims : Type 0 where
  pub user_id : Uuid
  pub tenant_id : Uuid
  pub role : Role
  pub email : String

infixl 5 ◌>>=◌
abbrev ◌>>=◌ {ℓ κ} : {A : Type ℓ} {B : Type κ} → Option A → (A → Option B) → Option B
none >>= k = none
some a >>= k = k a

-- `Role(text)`; `none` is its ValueError
unfoldable pub parse_role : String → Option Role
unfolding role_value
parse_role text =
    if text == role_value sys_admin
    then some sys_admin
    else if text == role_value tenant_admin
    then some tenant_admin
    else if text == role_value user
    then some user
    else none

-- `text.split(".", maxsplit=1)`; `none` where there is no dot, and the unpacking fails
unfoldable pub split_dot : String → Option (String × String)
split_dot String.[] = none
split_dot (String.◌∷◌ c s) =
    let rest = split_dot s in
    if code c == b'.'
    then some ("", s)
    else (elim rest [ none ↦ none | some (a, b) ↦ some (String.◌∷◌ c a, b) ])

-- the ValueError of a text that is no refresh token is `none`
unfoldable pub parse_refresh_token : String → Option (Uuid × String)
unfolding split_dot
parse_refresh_token refresh_token = do
  (token_id, secret) ← split_dot refresh_token
  id ← parse_uuid token_id
  some (id, secret)

module _ (c : Context) where
  unfoldable pub hash_password : String → String
  hash_password password = c.hashpw password c.salt

  unfoldable pub verify_password : String → String → Bool
  verify_password password password_hash = c.checkpw password password_hash

  unfoldable pub hash_refresh_token_secret : String → String
  hash_refresh_token_secret secret = c.sha256_hexdigest secret

  -- `hmac.compare_digest` on two texts of ASCII
  unfoldable pub verify_refresh_token_secret : String → String → Bool
  unfolding hash_refresh_token_secret
  verify_refresh_token_secret secret expected_hash =
      hash_refresh_token_secret secret == expected_hash

  unfoldable pub create_refresh_token : RefreshTokenBundle
  unfolding hash_refresh_token_secret
  create_refresh_token = record {
    token_id = c.new_token_id;
    plain_token = String.◌++◌ (str_uuid c.new_token_id) (String.◌++◌ "." c.secret);
    token_hash = hash_refresh_token_secret c.secret;
    expires_at = aware (c.now + days c.refresh_token_ttl_days);
  }

  unfoldable pub create_access_token : User → String
  create_access_token u =
      let claims : JwtClaims = record {
        sub = str_uuid u.id;
        tenant_id = str_uuid u.tenant_id;
        role = role_value u.role;
        email = u.email;
        type = "access";
        iss = c.jwt_issuer;
      } in
      c.jwt_encode claims c.now (c.now + minutes c.access_token_ttl_minutes) c.jwt_secret_key
        c.jwt_algorithm

  -- `none` is InvalidAccessTokenError
  unfoldable pub decode_access_token : String → Option AccessTokenClaims
  decode_access_token token = do
    payload ← c.jwt_decode token c.jwt_secret_key c.jwt_algorithm c.jwt_issuer c.now
    if not (payload.type == "access") then none else do
      user_id ← parse_uuid payload.sub
      tenant_id ← parse_uuid payload.tenant_id
      role ← parse_role payload.role
      some (record { user_id = user_id; tenant_id = tenant_id; role = role; email = payload.email })
