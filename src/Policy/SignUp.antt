-- ===== src/Policy/SignUp.antt =====
-- `register` makes only permitted changes.
use identity_access_service.Base.{refl}
use identity_access_service.Db.{Db}
use identity_access_service.Models.{User}
use identity_access_service.Db.Session.{Session, insert_tenant, insert_user, insert_token}
use identity_access_service.Db.Keeps.{
  Keeps, Keeps-insert-bind, Keeps-insert_twice-bind, keeps_rules, Keeps-query-bind,
  Keeps-raise_if-bind,
}
use identity_access_service.Core.Context.{Context, Client}
use identity_access_service.Services.Auth.Register.{
  RegisterRequest, register, registered_tenant, registered_user,
}
use identity_access_service.Services.Auth.Issue.{issue_tokens_for_user, token_row, tenant_of}
use identity_access_service.Policy.{anonymous, Reach, sign_up, issue, next}
use identity_access_service.Policy.Common.{record_audit_event-Keeps}

pub issue_tokens_for_user-Keeps :
    {b : Db} (c : Context) (user : User) (s : Session)
    → Keeps (Reach anonymous b) (issue_tokens_for_user c user) s
unfolding issue_tokens_for_user insert_token token_row tenant_of
issue_tokens_for_user-Keeps c user s =
    Keeps-insert-bind _ _ _ s (λ good r. next r (issue s.db (token_row c user) refl good refl))
      λ good. search keeps_rules

pub register-Keeps :
    {b : Db} (c : Context) (payload : RegisterRequest) (client : Client) (s : Session)
    → Keeps (Reach anonymous b) (register c payload client) s
unfolding register insert_tenant insert_user
register-Keeps c payload client s = Keeps-query-bind _ _ s (
    Keeps-raise_if-bind _ _ _ _ λ free.
      Keeps-insert_twice-bind _ _ _ _ _ _
        (λ t u r. next r (
          sign_up s.db (registered_tenant c payload) (registered_user c payload) refl t u refl
            refl))
        (search (keeps_rules, issue_tokens_for_user-Keeps, record_audit_event-Keeps) depth 12))
