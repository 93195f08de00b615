-- ===== src/Guarantees/Answers/Codes.antt =====
-- What the client reads of an exception that leaves an endpoint: the envelope, its status and its code.
use identity_access_service.Base.{
  ℕ, String, Bool, true, not, ◌&&◌, &&_true, none, some, List, [], ◌∷◌, map, ◌≡◌, ◌≢◌, ◌⊎◌, inl,
  inr, refl, arith, ◌==◌, nat_eq, string_eq, ==→eq, Bool-cases,
}
use identity_access_service.Errors.{
  Error, auth_conflict, invalid_credentials, invalid_refresh_token, tenant_conflict,
  tenant_not_found, tenant_access_denied, managed_user_conflict, managed_user_not_found,
  user_management_access_denied, bootstrap_conflict, integrity_error, attribute_error,
  invalid_request_error, http_exception, request_validation_error, response_validation_error,
}
use identity_access_service.Api.Http.{
  ErrorBody, envelope, code_of_status, handle, http_exception_handler, validation_exception_handler,
  build_error_response, code_or, validation_item,
}
use identity_access_service.Requests
use identity_access_service.Requests.{Request}
use identity_access_service.Guarantees.Answers.{is_status, statuses, is_fault, is_presented}

is_coded : ℕ → Bool
is_coded status = not (code_of_status status == "http_error")

abbrev all_coded : List ℕ → Bool
all_coded [] = true
all_coded (s ∷ allowed) = is_coded s && all_coded allowed

all_coded_sound :
    (allowed : List ℕ) (status : ℕ)
    → all_coded allowed ≡ true
    → is_status status allowed ≡ true
    → is_coded status ≡ true
unfolding is_coded
all_coded_sound [] status h among = absurd (cc)
all_coded_sound (s ∷ allowed) status h among =
    let (coded, others) = &&_true (is_coded s) (all_coded allowed) h in
    elim (Bool-cases (status == s)) [
      | inl same ↦ rw (==→eq {a = status} same) coded
      | inr other ↦ all_coded_sound allowed status others (ground arith)
    ]

statuses-all_coded : (r : Request) → all_coded (statuses r) ≡ true
unfolding statuses is_coded code_of_status
statuses-all_coded (Requests.register c payload client) = refl
statuses-all_coded (Requests.login c payload client) = refl
statuses-all_coded (Requests.refresh c token client) = refl
statuses-all_coded (Requests.logout c token client) = refl
statuses-all_coded (Requests.list_tenants c who) = refl
statuses-all_coded (Requests.create_tenant c who payload client) = refl
statuses-all_coded (Requests.read_current_tenant c who) = refl
statuses-all_coded (Requests.read_tenant c who id) = refl
statuses-all_coded (Requests.update_tenant c who id payload) = refl
statuses-all_coded (Requests.list_users c who id) = refl
statuses-all_coded (Requests.create_user c who id payload client) = refl
statuses-all_coded (Requests.update_user_role c who tenant_id id role client) = refl
statuses-all_coded (Requests.deactivate_user c who tenant_id id client) = refl
statuses-all_coded (Requests.read_current_principal c who) = refl
statuses-all_coded (Requests.read_tenant_admin_summary c who) = refl
statuses-all_coded (Requests.read_system_admin_summary c who) = refl
statuses-all_coded (Requests.list_system_audit_logs c who filters limit offset) = refl
statuses-all_coded (Requests.list_tenant_audit_logs c who id action actor limit offset) = refl
statuses-all_coded (Requests.seed_system_admin c payload) = refl

coded_status :
    (r : Request) (status : ℕ)
    → is_status status (statuses r) ≡ true
    → code_of_status status ≢ "http_error"
unfolding is_coded
coded_status r status among same =
    let coded : is_coded status ≡ true =
      all_coded_sound (statuses r) status (statuses-all_coded r) among in
    absurd (ground (arith, string_eq.reflects (code_of_status status) "http_error"))

-- The envelope that the client reads, with a status that the request may be answered with and its code.
pub record IsDocumented (r : Request) (e : Error) : Type 0 where
  pub status : ℕ
  pub error : ErrorBody
  pub headers : List (String × String)
  pub enveloped : handle {A = Unit} e ≡ envelope status error headers
  pub among : is_status status (statuses r) ≡ true
  pub code : error.code ≡ code_of_status status
  pub known : code_of_status status ≢ "http_error"

pub documented :
    (r : Request) (e : Error)
    → is_presented (statuses r) e ≡ true
    → IsDocumented r e ⊎ (is_fault e ≡ true)
unfolding is_presented is_fault handle http_exception_handler validation_exception_handler
    build_error_response code_or code_of_status
documented r (http_exception status detail headers) h = inl (record {
  status = status;
  error = record { code = code_of_status status; message = detail; details = none };
  headers = headers;
  enveloped = refl;
  among = h;
  code = refl;
  known = coded_status r _ h;
})
documented r (request_validation_error errors) h = inl (record {
  status = 422;
  error = record {
    code = "validation_error";
    message = "Request validation failed.";
    details = some (map validation_item errors);
  };
  headers = [];
  enveloped = refl;
  among = h;
  code = refl;
  known = coded_status r _ h;
})
documented r integrity_error h = inr refl
documented r attribute_error h = inr refl
documented r invalid_request_error h = inr refl
documented r response_validation_error h = inr refl
documented r (auth_conflict m) h = absurd (ground arith)
documented r (invalid_credentials m) h = absurd (ground arith)
documented r (invalid_refresh_token m) h = absurd (ground arith)
documented r (tenant_conflict m) h = absurd (ground arith)
documented r (tenant_not_found m) h = absurd (ground arith)
documented r (tenant_access_denied m) h = absurd (ground arith)
documented r (managed_user_conflict m) h = absurd (ground arith)
documented r (managed_user_not_found m) h = absurd (ground arith)
documented r (user_management_access_denied m) h = absurd (ground arith)
documented r (bootstrap_conflict m) h = absurd (ground arith)
