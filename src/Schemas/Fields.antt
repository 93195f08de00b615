-- ===== src/Schemas/Fields.antt =====
-- app/schemas/auth.py, tenants.py and users.py: the fields of request bodies. A field is checked by its
-- `mode="before"` validator, then by its type; Pydantic checks every field and reports all refusals,
-- but an exception of a validator that is no ValueError ends the validation.
use identity_access_service.Base.{
  ℕ, String, Bool, Option, none, some, List, [], ◌∷◌, ◌++◌, leb, ◌&&◌, if◌then◌else◌,
}
use identity_access_service.Errors.{ErrorDetail, request_validation_error, attribute_error}
use identity_access_service.Models.{Role}
use identity_access_service.Db.Session.{Action, pure, raise}
use identity_access_service.Core.Context.{Library, Json, string}
use identity_access_service.Core.Security.{parse_role}
use identity_access_service.Schemas.Text.{len, strip_text, lower_text}
use identity_access_service.Schemas.Slug.{slug_pattern}

pub data Checked (A : Type 0) : Type 0 where
  valid : A → Checked A
  invalid : List ErrorDetail → Checked A
  -- AttributeError: a value that is no text has no `strip`
  crashed : Checked A

infixl 60 ◌<*>◌
-- The next field is checked.
unfoldable pub ◌<*>◌ : {A B : Type 0} → Checked (A → B) → Checked A → Checked B
crashed <*> x = crashed
f <*> crashed = crashed
valid f <*> valid a = valid (f a)
valid f <*> invalid errors = invalid errors
invalid errors <*> valid a = invalid errors
invalid errors <*> invalid more = invalid (errors ++ more)

unfoldable pub then_check : {A B : Type 0} → Checked A → (A → Checked B) → Checked B
then_check (valid a) f = f a
then_check (invalid errors) f = invalid errors
then_check crashed f = crashed

unfoldable pub validated : {A : Type 0} → Checked A → Action A
validated (valid a) = pure a
validated (invalid errors) = raise (request_validation_error errors)
validated crashed = raise attribute_error

module _ (c : Library) where
  unfoldable pub refused : {A : Type 0} → String → Checked A
  refused field = invalid (c.refusal ("body" ∷ field ∷ []) ∷ [])

  unfoldable pub or_refused : {A : Type 0} → String → Option A → Checked A
  unfolding refused
  or_refused field none = refused field
  or_refused field (some a) = valid a

  unfoldable pub required : {A : Type 0} → String → (Json → Checked A) → Option Json → Checked A
  unfolding refused
  required field check none = refused field
  required field check (some value) = check value

  unfoldable pub optional : {A : Type 0} → A → (Json → Checked A) → Option Json → Checked A
  optional default check none = valid default
  optional default check (some value) = check value

  -- `value.strip()`, and `value.strip().lower()`
  unfoldable pub strip_value : Json → Checked String
  unfolding strip_text
  strip_value (string s) = valid (strip_text s)
  strip_value _ = crashed

  unfoldable pub normalize : String → String
  unfolding strip_text lower_text
  normalize s = lower_text c.lower_other (strip_text s)

  unfoldable pub normalize_value : Json → Checked String
  unfolding normalize
  normalize_value (string s) = valid (normalize s)
  normalize_value _ = crashed

  -- `StringConstraints(min_length=…, max_length=…)`
  unfoldable pub has_length : ℕ → ℕ → String → Bool
  unfolding len
  has_length low high s = leb low (len s) && leb (len s) high

  unfoldable pub sized : String → ℕ → ℕ → String → Checked String
  unfolding has_length refused
  sized field low high s = if has_length low high s then valid s else refused field

  -- TenantName and FullName
  unfoldable pub human_name : String → ℕ → Json → Checked String
  unfolding strip_value sized
  human_name field low value = then_check (strip_value value) (sized field low 120)

  -- TenantSlug
  unfoldable pub is_slug : String → Bool
  unfolding has_length slug_pattern
  is_slug s = has_length 3 80 s && slug_pattern s

  unfoldable pub check_slug : String → String → Checked String
  unfolding is_slug refused
  check_slug field s = if is_slug s then valid s else refused field

  unfoldable pub slug_field : String → Json → Checked String
  unfolding normalize_value check_slug
  slug_field field value = then_check (normalize_value value) (check_slug field)

  unfoldable pub check_email : String → Checked String
  check_email s = or_refused "email" (c.validate_email s)

  unfoldable pub email_field : Json → Checked String
  unfolding normalize_value check_email
  email_field value = then_check (normalize_value value) check_email

  -- Password, which no validator precedes
  unfoldable pub password_field : Json → Checked String
  unfolding sized
  password_field (string s) = sized "password" 8 128 s
  password_field _ = refused "password"

  -- Role, by its value
  unfoldable pub role_field : Json → Checked Role
  role_field (string s) = or_refused "role" (parse_role s)
  role_field _ = refused "role"

  unfoldable pub bool_field : Json → Checked Bool
  bool_field value = or_refused "is_active" (c.parse_bool value)
