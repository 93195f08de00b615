-- ===== src/Tests/RequestExamples.antt =====
-- The theorems on requests at a deactivation by a tenant administrator, and at a refused sign-up.
use identity_access_service.Api.Dependencies.{
  bearer_token, get_current_principal, is_bearer, lower_ascii, require_roles, same_codes,
}
use identity_access_service.Services.Auth.Issue.{
  assign_user, issue_tokens_for_user, tenant_of, token_row,
}
use identity_access_service.Services.Audit.{audit_row, log_size, record_audit_event}
use identity_access_service.Core.Security.{
  create_access_token, create_refresh_token, decode_access_token, hash_password,
  hash_refresh_token_secret, parse_refresh_token, parse_role, split_dot, verify_password,
  verify_refresh_token_secret,
}
use identity_access_service.Uuid.Numeral.{
  digit_value, hex, hex_digit, int_16, int_digits, int_space,
}
use identity_access_service.Uuid.{parse_uuid, str_uuid}
use mathlib.Core.Path.{subst}
use identity_access_service.Base.{
  sym, ◌≡◌, ◌≢◌, ◌↔◌, refl, some, [], ◌∷◌, any, char_at, drop_while, filter, first, insert_by,
  is_prefix, is_space, remove, sort, strip, take, update,
}
use identity_access_service.Errors.{ok}
use identity_access_service.Models.{role_value}
use identity_access_service.Db.{
  audit_refused, dangling_tenant, dangling_user, tenant_by_id, tenant_by_slug, tenant_refused,
  token_by_id, token_refused, user_by_email, user_by_id, user_refused,
}
use identity_access_service.Db.Session.{
  open_session, commit, insert, insert_audit_log, insert_tenant, insert_token, insert_user,
  or_raise, pure, query, raise_if, run, write, ◌>>=◌,
}
use identity_access_service.Core.Context.{Context}
use identity_access_service.Services.Tenants.{every_role, resolve_visible_tenant}
use identity_access_service.Services.Tenants.Visible.{MaySee, resolve_visible_tenant_iff}
use identity_access_service.Api.Dependencies.Authenticated.{
  IsAuthenticated, get_current_principal_iff,
}
use identity_access_service.Policy.{anonymous, signed_in, operator, Reach}
use identity_access_service.Requests.{Request, authority, serve, serve_all}
use identity_access_service.Requests.Refines.{serve-Reach}
use identity_access_service.Guarantees.Integrity.{IsValid}
use identity_access_service.Guarantees.Integrity.Preserved.{serve_all-IsValid}
use identity_access_service.Guarantees.AuditTrail.{Appends, serve_all-Appends}
use identity_access_service.Guarantees.Escalation.{
  system_admins, IsUnprivileged, serve-system_admins,
}
use identity_access_service.Guarantees.Isolation.{IsWithin}
use identity_access_service.Guarantees.Isolation.Bounded.{serve-IsWithin}
use identity_access_service.Guarantees.Accounts.{
  OnlySignsUp, OnlyAddsLogins, serve-OnlySignsUp, serve-OnlyAddsLogins,
}
use identity_access_service.Tests.Sample.{
  context, client, database, acme, ann_credentials, ann_principal,
}

abbrev now : Context
now = context 2 1_000 "s1"

-- Ann deactivates Bob.
abbrev deactivation : Request
deactivation = Request.deactivate_user now (some ann_credentials) 1 3 client

abbrev sign_up : Request
sign_up =
    Request.register now
      (record {
        tenant_name = "Beta";
        tenant_slug = "beta";
        full_name = "Ben";
        email = "ben@beta.io";
        password = "password";
      })
      client

by_ann : authority deactivation database ≡ signed_in ann_principal
unfolding take char_at is_space drop_while strip is_prefix remove first filter any update insert_by
    sort str_uuid parse_uuid hex_digit hex digit_value int_digits int_space int_16 tenant_by_slug
    tenant_by_id user_by_id user_by_email token_by_id dangling_tenant dangling_user tenant_refused
    user_refused token_refused audit_refused pure query or_raise raise_if commit write insert ◌>>=◌
    insert_tenant insert_user insert_token insert_audit_log run role_value parse_role split_dot
    parse_refresh_token hash_password verify_password hash_refresh_token_secret
    verify_refresh_token_secret create_refresh_token create_access_token decode_access_token
    audit_row log_size record_audit_event tenant_of assign_user token_row issue_tokens_for_user
    lower_ascii same_codes is_bearer bearer_token get_current_principal require_roles serve
    serve_all authority
by_ann = refl

by_nobody : authority sign_up database ≡ anonymous
unfolding serve serve_all authority
by_nobody = refl

valid : IsValid database
unfolding take char_at is_space drop_while strip is_prefix remove first filter any update insert_by
    sort str_uuid parse_uuid hex_digit hex digit_value int_digits int_space int_16 tenant_by_slug
    tenant_by_id user_by_id user_by_email token_by_id dangling_tenant dangling_user tenant_refused
    user_refused token_refused audit_refused pure query or_raise raise_if commit write insert ◌>>=◌
    insert_tenant insert_user insert_token insert_audit_log run role_value
valid = record {
  tenants_distinct = (refl, (refl, tt));
  users_distinct = (refl, (refl, (refl, tt)));
  tokens_distinct = (refl, tt);
  logs_distinct = tt;
  users_owned = (refl, (refl, (refl, tt)));
  tokens_owned = (refl, tt);
  logs_owned = tt;
}

serve-Reach_example : Reach (authority deactivation database) database (serve deactivation database)
serve-Reach_example = serve-Reach deactivation database

serve-system_admins_example : system_admins (serve deactivation database) ≡ system_admins database
serve-system_admins_example =
    serve-system_admins deactivation database valid
      (subst IsUnprivileged (sym by_ann) (λ e. absurd (cc)))

serve-IsWithin_example : IsWithin 1 database (serve deactivation database)
serve-IsWithin_example =
    serve-IsWithin deactivation database ann_principal valid by_ann (λ e. absurd (cc))

serve_all-IsValid_example : IsValid (serve_all (sign_up ∷ deactivation ∷ []) database)
serve_all-IsValid_example = serve_all-IsValid (sign_up ∷ deactivation ∷ []) database valid

serve_all-Appends_example :
    Appends database.audit_logs (serve_all (sign_up ∷ deactivation ∷ []) database).audit_logs
serve_all-Appends_example = serve_all-Appends (sign_up ∷ deactivation ∷ []) database

serve-OnlySignsUp_example : OnlySignsUp database (serve sign_up database)
serve-OnlySignsUp_example = serve-OnlySignsUp sign_up database by_nobody

serve-OnlyAddsLogins_example : OnlyAddsLogins database (serve deactivation database)
serve-OnlyAddsLogins_example =
    serve-OnlyAddsLogins deactivation database
      (subst (λ a. a ≢ operator) (sym by_ann) (λ e. absurd (cc)))

resolve_visible_tenant_iff_example :
    (resolve_visible_tenant ann_principal 1 every_role (open_session database)).0 ≡ ok acme
    ↔ (tenant_by_id 1 database ≡ some acme) × MaySee ann_principal 1 every_role
resolve_visible_tenant_iff_example =
    resolve_visible_tenant_iff ann_principal 1 every_role (open_session database) acme

get_current_principal_iff_example :
    (get_current_principal now (some ann_credentials) (open_session database)).0 ≡ ok ann_principal
    ↔ IsAuthenticated now (some ann_credentials) database ann_principal
get_current_principal_iff_example =
    get_current_principal_iff now (some ann_credentials) (open_session database) ann_principal
