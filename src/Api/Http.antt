-- ===== src/Api/Http.antt =====
-- Answers, and app/core/errors.py: exceptions become answers with an error envelope.
use Prim.Native.String
use identity_access_service.Base.{
  ℕ, String, List, [], ◌∷◌, map, Option, none, some, ◌==◌, nat_eq, if◌then◌else◌,
}
use identity_access_service.Errors.{
  Error, ErrorDetail, Result, ok, err, http_exception, request_validation_error,
}
use identity_access_service.Db.Session.{Action, pure}

-- An endpoint's answer: the status of its decorator and the body.
pub record Reply (A : Type 0) : Type 0 where
  pub status : ℕ
  pub body : A

unfoldable pub reply : {A : Type 0} → ℕ → A → Action (Reply A)
unfolding pure
reply status body = pure (record { status = status; body = body })

-- `try: … except E as exc: raise HTTPException(…) from exc`
unfoldable pub except : {A : Type 0} → (Error → Error) → Action A → Action A
except handler m s = let (r, s') = m s in (elim r [ ok a ↦ ok a | err e ↦ err (handler e) ], s')

-- `STATUS_CODE_MAP.get(status_code, "http_error")`
unfoldable pub code_of_status : ℕ → String
code_of_status status =
    if status == 400
    then "bad_request"
    else if status == 401
    then "unauthorized"
    else if status == 403
    then "forbidden"
    else if status == 404
    then "not_found"
    else if status == 409
    then "conflict"
    else if status == 429
    then "rate_limited"
    else if status == 422
    then "validation_error"
    else if status == 500
    then "internal_error"
    else "http_error"

-- app/schemas/errors.py
pub record ValidationErrorItem : Type 0 where
  pub field : String
  pub message : String
  pub type : String

pub record ErrorBody : Type 0 where
  pub code : String
  pub message : String
  pub details : Option (List ValidationErrorItem)

-- What the client reads: a body, or an error's envelope. Any exception that has no handler ends in the
-- server's own 500.
pub data Answer (A : Type 0) : Type 0 where
  answer : ℕ → A → Answer A
  envelope : (status : ℕ) (error : ErrorBody) (headers : List (String × String)) → Answer A
  server_error : Error → Answer A

-- `code or STATUS_CODE_MAP.get(status_code, "http_error")`
unfoldable pub code_or : Option String → ℕ → String
code_or none status = code_of_status status
code_or (some String.[]) status = code_of_status status
code_or (some code) status = code

unfoldable pub build_error_response :
    {A : Type 0}
    → (status : ℕ) (message : String) (code : Option String) → Option (List ValidationErrorItem)
    → List (String × String)
    → Answer A
build_error_response status message code details headers =
    envelope status (record { code = code_or code status; message = message; details = details })
      headers

-- `".".join(…)`
unfoldable pub join_dots : List String → String
join_dots [] = ""
join_dots (part ∷ []) = part
join_dots (part ∷ next ∷ parts) = String.◌++◌ part (String.◌++◌ "." (join_dots (next ∷ parts)))

unfoldable pub validation_item : ErrorDetail → ValidationErrorItem
validation_item error = record {
  field = join_dots error.loc;
  message = error.msg;
  type = error.type;
}

unfoldable pub validation_exception_handler : {A : Type 0} → List ErrorDetail → Answer A
validation_exception_handler errors =
    build_error_response 422 "Request validation failed." (some "validation_error")
      (some (map validation_item errors)) []

-- The detail of each HTTPException of the code is a text, which `_stringify_detail` passes on.
unfoldable pub http_exception_handler :
    {A : Type 0} → ℕ → String → List (String × String) → Answer A
http_exception_handler status detail headers = build_error_response status detail none none headers

-- `register_exception_handlers`: which handler an exception goes to
unfoldable pub handle : {A : Type 0} → Error → Answer A
handle (http_exception status detail headers) = http_exception_handler status detail headers
handle (request_validation_error errors) = validation_exception_handler errors
handle e = server_error e

unfoldable pub respond : {A : Type 0} → Result (Reply A) → Answer A
respond (ok r) = answer r.status r.body
respond (err e) = handle e

-- The status that the client sees.
abbrev pub status_of : {A : Type 0} → Answer A → ℕ
status_of (answer status _) = status
status_of (envelope status _ _) = status
status_of (server_error _) = 500
