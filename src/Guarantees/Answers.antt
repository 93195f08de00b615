-- ===== src/Guarantees/Answers.antt =====
-- What a client of the endpoints can be answered: no exception of a service reaches it as it is.
pub mod SignIn
pub mod Managing
pub mod Codes
pub mod Endpoints
pub mod Raised
use identity_access_service.Base.{ℕ, Bool, true, false, ◌||◌, List, [], ◌∷◌, ◌≡◌, ◌==◌, nat_eq}
use identity_access_service.Errors.{
  Error, integrity_error, attribute_error, invalid_request_error, response_validation_error,
  http_exception, request_validation_error,
}
use identity_access_service.Requests
use identity_access_service.Requests.{Request}

abbrev pub is_status : ℕ → List ℕ → Bool
is_status status [] = false
is_status status (s ∷ allowed) = status == s || is_status status allowed

-- The statuses of the errors that a request may be answered with, once its body is valid: 401 without
-- valid credentials, 403 where the role or the tenant does not allow it, 404 for what is not there,
-- 409 for what is there already, and 422 for a query out of range.
unfoldable pub statuses : Request → List ℕ
statuses (Requests.register c payload client) = 409 ∷ []
statuses (Requests.login c payload client) = 401 ∷ []
statuses (Requests.refresh c token client) = 401 ∷ []
statuses (Requests.logout c token client) = []
statuses (Requests.list_tenants c who) = 401 ∷ 403 ∷ []
statuses (Requests.create_tenant c who payload client) = 401 ∷ 403 ∷ 409 ∷ []
statuses (Requests.read_current_tenant c who) = 401 ∷ []
statuses (Requests.read_tenant c who id) = 401 ∷ 404 ∷ []
statuses (Requests.update_tenant c who id payload) = 401 ∷ 403 ∷ 404 ∷ []
statuses (Requests.list_users c who id) = 401 ∷ 403 ∷ 404 ∷ []
statuses (Requests.create_user c who id payload client) = 401 ∷ 403 ∷ 404 ∷ 409 ∷ []
statuses (Requests.update_user_role c who tenant_id id role client) = 401 ∷ 403 ∷ 404 ∷ []
statuses (Requests.deactivate_user c who tenant_id id client) = 401 ∷ 403 ∷ 404 ∷ []
statuses (Requests.read_current_principal c who) = 401 ∷ []
statuses (Requests.read_tenant_admin_summary c who) = 401 ∷ 403 ∷ []
statuses (Requests.read_system_admin_summary c who) = 401 ∷ 403 ∷ []
statuses (Requests.list_system_audit_logs c who filters limit offset) = 401 ∷ 403 ∷ 422 ∷ []
statuses (Requests.list_tenant_audit_logs c who id action actor limit offset) =
    401 ∷ 403 ∷ 404 ∷ 422 ∷ []
statuses (Requests.seed_system_admin c payload) = []

-- What a library raises under the code, and the server answers with its own 500: a constraint that fails
-- at a flush, a related row that is missing, a row that is gone at a refresh, a response that its
-- model refuses.
unfoldable pub is_fault : Error → Bool
is_fault integrity_error = true
is_fault attribute_error = true
is_fault invalid_request_error = true
is_fault response_validation_error = true
is_fault _ = false

-- An HTTPException or a validation error with one of these statuses, or a fault.
unfoldable pub is_presented : List ℕ → Error → Bool
is_presented allowed (http_exception status detail headers) = is_status status allowed
is_presented allowed (request_validation_error errors) = is_status 422 allowed
is_presented allowed integrity_error = true
is_presented allowed attribute_error = true
is_presented allowed invalid_request_error = true
is_presented allowed response_validation_error = true
is_presented allowed _ = false

-- What is raised is presented, once a handler has seen it.
abbrev pub Presented : List ℕ → (Error → Error) → Error → Type 0
Presented allowed handler e = is_presented allowed (handler e) ≡ true
