-- ===== src/Errors.antt =====
-- The exceptions that the services and the endpoints raise, each with its message, and those that the
-- libraries raise under them.
use identity_access_service.Base.{ℕ, String, List, ◌≡◌, ◌⊎◌, inl, inr, refl}

-- An item of `RequestValidationError.errors()`: where, in parts, and what. Its `input`, which the client
-- sent, is left out.
pub record ErrorDetail : Type 0 where
  pub loc : List String
  pub msg : String
  pub type : String

pub data Error : Type 0 where
  -- app/services/auth.py
  auth_conflict invalid_credentials invalid_refresh_token : String → Error
  -- app/services/tenants.py
  tenant_conflict tenant_not_found tenant_access_denied : String → Error
  -- app/services/users.py
  managed_user_conflict managed_user_not_found user_management_access_denied : String → Error
  -- app/services/bootstrap.py
  bootstrap_conflict : String → Error
  -- `sqlalchemy.exc.IntegrityError`, at a flush
  integrity_error : Error
  -- an attribute of `None`
  attribute_error : Error
  -- `sqlalchemy.exc.InvalidRequestError`, of a row that is gone
  invalid_request_error : Error
  -- `fastapi.HTTPException`: a status, a detail and headers
  http_exception : ℕ → String → List (String × String) → Error
  -- `fastapi.exceptions.RequestValidationError`
  request_validation_error : List ErrorDetail → Error
  -- `pydantic.ValidationError`, of a response model
  response_validation_error : Error

pub data Result {ℓ} (A : Type ℓ) : Type ℓ where
  ok : A → Result A
  err : Error → Result A

pub Result-cases :
    {A : Type 0} → (r : Result A) → ((e : Error) × (r ≡ err e)) ⊎ ((a : A) × (r ≡ ok a))
Result-cases (err e) = inl (e, refl)
Result-cases (ok a) = inr (a, refl)
