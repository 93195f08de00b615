-- ===== src/Services/Auth/Tokens.antt =====
-- app/services/auth.py: `AuthService.refresh` and `AuthService.logout`
pub mod Success
pub mod Usable
pub mod Rotation
use identity_access_service.Base.{
  String, Bool, not, Option, none, some, [], ◌∷◌, ◌||◌, is_some, leb, if◌then◌else◌,
}
use identity_access_service.Models.{
  Uuid, User, RefreshToken, token_revoked, str, Datetime, aware, as_utc, instant,
}
use identity_access_service.Uuid.{str_uuid}
use identity_access_service.Errors.{Error, invalid_refresh_token, attribute_error}
use identity_access_service.Db.{user_by_id, token_by_id, token_has_id}
use identity_access_service.Db.Session.{
  Action, pure, query, raise_if, or_raise, write, commit, set_tokens, ◌>>=◌, ◌>>◌,
}
use identity_access_service.Core.Context.{Context, Client}
use identity_access_service.Core.Security.{parse_refresh_token, verify_refresh_token_secret}
use identity_access_service.Services.Audit.{record_audit_event}
use identity_access_service.Services.Users.{revoke_at}
use identity_access_service.Services.Auth.Issue.{AuthResult, tenant_of, issue_tokens_for_user}

abbrev pub invalid_token : Error
invalid_token = invalid_refresh_token "Refresh token is invalid."

-- `stored_token.user`, of which the callers read an attribute
unfoldable pub user_of : RefreshToken → Action User
user_of stored_token = do
  found ← query (user_by_id stored_token.user_id)
  or_raise found attribute_error

module _ (c : Context) where
  -- `_is_expired`
  abbrev pub is_expired : Datetime → Bool
  is_expired expires_at = leb (instant (as_utc expires_at)) c.now

  unfoldable pub get_valid_refresh_token : String → Action RefreshToken
  get_valid_refresh_token refresh_token = do
    (token_id, secret) ← or_raise (parse_refresh_token refresh_token) invalid_token
    found ← query (token_by_id token_id)
    stored_token ← or_raise found invalid_token
    raise_if (not (verify_refresh_token_secret c secret stored_token.token_hash)) invalid_token
    raise_if (is_some stored_token.revoked_at || is_expired stored_token.expires_at) invalid_token
    user ← user_of stored_token
    raise_if (not user.is_active) invalid_token
    tenant ← tenant_of user
    raise_if (not tenant.is_active) invalid_token
    pure stored_token

  -- the two assignments of the current time, and the event
  unfoldable pub revoke_token : RefreshToken → Action Unit
  revoke_token stored_token =
      write (set_tokens (token_has_id stored_token.id) (revoke_at (aware c.now)))

  unfoldable pub record_revocation : RefreshToken → User → String → Client → Action Unit
  record_revocation stored_token user reason client = record_audit_event c client (record {
    action = token_revoked;
    resource_type = "refresh_token";
    resource_id = str_uuid stored_token.id;
    tenant_id = some user.tenant_id;
    actor_user_id = some stored_token.user_id;
    details = some (("reason", str reason) ∷ []);
  })

  unfoldable pub refresh : String → Client → Action AuthResult
  refresh refresh_token client = do
    stored_token ← get_valid_refresh_token refresh_token
    revoke_token stored_token
    user ← user_of stored_token
    auth_result ← issue_tokens_for_user c user
    record_revocation stored_token user "rotation" client
    commit
    pure auth_result

  -- `logout` behind its early exits
  unfoldable pub logout_token : RefreshToken → Client → Action Unit
  logout_token stored_token client = do
    revoke_token stored_token
    user ← user_of stored_token
    record_revocation stored_token user "logout" client
    commit

  unfoldable pub logout_stored : String → Client → Option RefreshToken → Action Unit
  logout_stored secret client none = pure tt
  logout_stored secret client (some stored_token) =
      if not (verify_refresh_token_secret c secret stored_token.token_hash)
      then pure tt
      else if is_some stored_token.revoked_at
      then pure tt
      else logout_token stored_token client

  unfoldable pub logout_parsed : Client → Option (Uuid × String) → Action Unit
  logout_parsed client none = pure tt
  logout_parsed client (some (token_id, secret)) = do
    stored_token ← query (token_by_id token_id)
    logout_stored secret client stored_token

  unfoldable pub logout : String → Client → Action Unit
  logout refresh_token client = logout_parsed client (parse_refresh_token refresh_token)
