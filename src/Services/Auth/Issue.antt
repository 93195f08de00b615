-- ===== src/Services/Auth/Issue.antt =====
-- app/services/auth.py: the result of a sign-in, the tokens that it issues, and assignments to the
-- attributes of a user that the session holds.
use identity_access_service.Base.{ℕ, ◌*◌, String, none}
use identity_access_service.Models.{Tenant, User, RefreshToken}
use identity_access_service.Errors.{attribute_error}
use identity_access_service.Db.{tenant_by_id}
use identity_access_service.Db.Session.{
  Action, pure, query, or_raise, write, insert_token, set_user, ◌>>=◌, ◌>>◌,
}
use identity_access_service.Core.Context.{Context}
use identity_access_service.Core.Security.{
  RefreshTokenBundle, create_refresh_token, create_access_token,
}

pub record AuthResult : Type 0 where
  pub user : User
  pub tenant : Tenant
  pub access_token : String
  pub refresh_token : String
  pub access_token_expires_in : ℕ

-- `user.tenant`, of which the callers read an attribute
unfoldable pub tenant_of : User → Action Tenant
tenant_of user = do found ← query (tenant_by_id user.tenant_id); or_raise found attribute_error

-- assignments to attributes of `user`, in the row and in the object
unfoldable pub assign_user : User → (User → User) → Action User
assign_user user f = do write (set_user user.id f); pure (f user)

module _ (c : Context) where
  -- the row of a new refresh token
  unfoldable pub token_row : User → RefreshToken
  token_row user =
      let bundle : RefreshTokenBundle = create_refresh_token c in
      record {
        id = bundle.token_id;
        user_id = user.id;
        token_hash = bundle.token_hash;
        expires_at = bundle.expires_at;
        revoked_at = none;
        last_used_at = none;
      }

  unfoldable pub issue_tokens_for_user : User → Action AuthResult
  issue_tokens_for_user user = do
    insert_token (token_row user)
    tenant ← tenant_of user
    pure (record {
      user = user;
      tenant = tenant;
      access_token = create_access_token c user;
      refresh_token = (create_refresh_token c).plain_token;
      access_token_expires_in = c.access_token_ttl_minutes * 60;
    })
