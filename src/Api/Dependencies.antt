-- ===== src/Api/Dependencies.antt =====
-- app/api/dependencies/auth.py
pub mod Reads
pub mod Authenticated
use identity_access_service.Base.{
  ℕ, ◌+◌, String, Bool, true, false, not, Option, none, some, List, [], ◌∷◌, map, ◌==◌, ◌&&◌, ◌||◌,
  leb, nat_eq, if◌then◌else◌, codes,
}
use identity_access_service.Errors.{Error, http_exception}
use identity_access_service.Models.{User, Role, role_eq}
use identity_access_service.Db.{user_by_id}
use identity_access_service.Db.Session.{Action, pure, query, raise_if, or_raise, ◌>>=◌, ◌>>◌}
use identity_access_service.Core.Context.{Context}
use identity_access_service.Core.Principal.{CurrentPrincipal}
use identity_access_service.Core.Security.{AccessTokenClaims, decode_access_token}
use identity_access_service.Services.Auth.Issue.{tenant_of}
use identity_access_service.Services.Tenants.{is_among}

-- `HTTPAuthorizationCredentials`, from the header `Authorization: scheme credentials`
pub record Credentials : Type 0 where
  pub scheme : String
  pub credentials : String

-- `_unauthorized_error`
abbrev pub unauthorized_error : Error
unauthorized_error =
    http_exception 401 "Authentication credentials were not provided or are invalid."
      (("WWW-Authenticate", "Bearer") ∷ [])

-- `str.lower` on ASCII; no other character becomes a letter of "bearer"
unfoldable pub lower_ascii : ℕ → ℕ
lower_ascii c = if leb b'A' c && leb c b'Z' then c + 32 else c

unfoldable pub same_codes : List ℕ → List ℕ → Bool
same_codes [] [] = true
same_codes (a ∷ s) (b ∷ t) = a == b && same_codes s t
same_codes _ _ = false

-- `credentials is None or credentials.scheme.lower() != "bearer"`, denied
unfoldable pub is_bearer : Option Credentials → Bool
unfolding lower_ascii same_codes
is_bearer none = false
is_bearer (some given) = same_codes (map lower_ascii (codes given.scheme)) (codes "bearer")

unfoldable pub bearer_token : Option Credentials → String
bearer_token none = ""
bearer_token (some given) = given.credentials

module _ (c : Context) where
  unfoldable pub get_current_principal : Option Credentials → Action CurrentPrincipal
  get_current_principal credentials = do
    raise_if (not (is_bearer credentials)) unauthorized_error
    claims ← or_raise (decode_access_token c (bearer_token credentials)) unauthorized_error
    found ← query (user_by_id claims.user_id)
    user ← or_raise found unauthorized_error
    raise_if (not user.is_active) unauthorized_error
    tenant ← tenant_of user
    raise_if (not tenant.is_active) unauthorized_error
    raise_if (not (user.tenant_id == claims.tenant_id) || not (user.role == claims.role))
        unauthorized_error
    pure (record {
      user_id = user.id;
      tenant_id = user.tenant_id;
      role = user.role;
      email = user.email;
      full_name = user.full_name;
      tenant_slug = tenant.slug;
      tenant_name = tenant.name;
    })

  unfoldable pub require_roles : List Role → Option Credentials → Action CurrentPrincipal
  require_roles allowed credentials = do
    principal ← get_current_principal credentials
    raise_if (not (is_among principal.role allowed))
        (http_exception 403 "You do not have permission to perform this action." [])
    pure principal
