-- ===== src/Services/Auth/Tokens/Usable.antt =====
-- Which refresh tokens `_get_valid_refresh_token` accepts.
use identity_access_service.Base.{
  ◌<◌, String, true, none, some, ◌≡◌, ◌↔◌, arith, Option-cases, inl, inr, nat_eq,
}
use identity_access_service.Models.{Uuid, Tenant, User, RefreshToken, as_utc, instant}
use identity_access_service.Errors.{ok}
use identity_access_service.Db.{Db, user_by_id, tenant_by_id, token_by_id}
use identity_access_service.Db.Session.{Session, ◌>>=◌}
use identity_access_service.Core.Context.{Context}
use identity_access_service.Core.Security.{parse_refresh_token, verify_refresh_token_secret}
use identity_access_service.Services.Auth.Issue.{tenant_of}
use identity_access_service.Services.Auth.Tokens.{user_of, get_valid_refresh_token}

-- The text names a stored token and knows its secret; the token has not been revoked and has not
-- expired; its user and the user's tenant are active.
pub record IsUsable (c : Context) (text : String) (db : Db) (t : RefreshToken) : Type 0 where
  pub id : Uuid
  pub secret : String
  pub parsed : parse_refresh_token text ≡ some (id, secret)
  pub found : token_by_id id db ≡ some t
  pub verified : verify_refresh_token_secret c secret t.token_hash ≡ true
  pub unrevoked : t.revoked_at ≡ none
  pub unexpired : c.now < instant (as_utc t.expires_at)
  pub user : User
  pub owner : user_by_id t.user_id db ≡ some user
  pub user_active : user.is_active ≡ true
  pub tenant : Tenant
  pub home : tenant_by_id user.tenant_id db ≡ some tenant
  pub tenant_active : tenant.is_active ≡ true

module _ (c : Context) (text : String) (s : Session) where
  pub get_valid_refresh_token_reads : (get_valid_refresh_token c text s).1 ≡ s
  unfolding get_valid_refresh_token user_of tenant_of ◌>>=◌
  get_valid_refresh_token_reads = ground arith

  accepts :
      {t : RefreshToken} → IsUsable c text s.db t → (get_valid_refresh_token c text s).0 ≡ ok t
  unfolding get_valid_refresh_token user_of tenant_of ◌>>=◌
  accepts {t} u = ground (
    arith, u.parsed, u.found, u.verified, u.unrevoked, u.unexpired, u.owner, u.user_active, u.home,
    u.tenant_active,
  )

  accepted :
      {t : RefreshToken} → (get_valid_refresh_token c text s).0 ≡ ok t → IsUsable c text s.db t
  unfolding get_valid_refresh_token user_of tenant_of ◌>>=◌
  accepted {t} h = elim (Option-cases (parse_refresh_token text)) [
    | inl e ↦ absurd (ground arith)
    | inr ((id, secret), parsed) ↦ elim (Option-cases (user_by_id t.user_id s.db)) [
      | inl e ↦ absurd (ground arith)
      | inr (user, owner) ↦ elim (Option-cases (tenant_by_id user.tenant_id s.db)) [
        | inl e ↦ absurd (ground arith)
        | inr (tenant, home) ↦ record {
          id = id;
          secret = secret;
          parsed = parsed;
          found = ground arith;
          verified = ground arith;
          unrevoked = ground arith;
          unexpired = ground arith;
          user = user;
          owner = owner;
          user_active = ground arith;
          tenant = tenant;
          home = home;
          tenant_active = ground arith;
        }
      ]
    ]
  ]

  -- `_get_valid_refresh_token` returns a row exactly when that row is usable: the text parses to the
  -- row's id and to the secret that it stores the hash of, the row is not revoked, its expiry is later
  -- than the current time, and its user and that user's tenant are there and active.
  pub get_valid_refresh_token_iff :
      (t : RefreshToken) → (get_valid_refresh_token c text s).0 ≡ ok t ↔ IsUsable c text s.db t
  get_valid_refresh_token_iff t = (accepted, accepts)
