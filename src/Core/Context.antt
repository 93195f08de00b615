-- ===== src/Core/Context.antt =====
-- What a request finds around it: the settings of app/core/config.py, the third-party functions, and
-- the values that the clock and the random generators give it.
use Prim.Native.Char.{Char}
use identity_access_service.Base.{ℕ, String, Bool, Option, List}
use identity_access_service.Models.{Uuid}
use identity_access_service.Errors.{ErrorDetail}

-- The fields of app/core/config.py that the modelled code reads. The three time spans are integers
-- there; they are natural numbers here, as every sensible deployment has them.
pub record Settings : Type 0 where
  pub api_v1_prefix : String
  pub jwt_secret_key : String
  pub jwt_algorithm : String
  pub jwt_issuer : String
  pub access_token_ttl_minutes : ℕ
  pub refresh_token_ttl_days : ℕ
  pub max_failed_login_attempts : ℕ
  pub login_lockout_minutes : ℕ
  pub rate_limit_window_seconds : ℕ
  pub login_rate_limit_requests : ℕ
  pub register_rate_limit_requests : ℕ
  pub refresh_rate_limit_requests : ℕ

-- The payload of an access token, but for its two times.
pub record JwtClaims : Type 0 where
  pub sub : String
  pub tenant_id : String
  pub role : String
  pub email : String
  pub type : String
  pub iss : String

-- A value of a JSON body; what is in an array or an object does not matter here.
pub data Json : Type 0 where
  null : Json
  boolean : Bool → Json
  number : ℕ → Json
  string : String → Json
  array object : Json

-- Functions of other packages.
pub record Library : Type 0 where
  -- `bcrypt.hashpw(password, salt)` and `bcrypt.checkpw(password, hash)`
  pub hashpw : String → String → String
  pub checkpw : String → String → Bool
  -- `hashlib.sha256(text).hexdigest()`
  pub sha256_hexdigest : String → String
  -- `jwt.encode` of claims with `iat` and `exp`, by a key and an algorithm
  pub jwt_encode : JwtClaims → ℕ → ℕ → String → String → String
  -- `jwt.decode` of a token by a key, an algorithm and an issuer at a time; `none` is a `PyJWTError`
  pub jwt_decode : String → String → String → String → ℕ → Option JwtClaims
  -- what the framework reports of a value in a request that it refuses, by its location
  pub refusal : List String → ErrorDetail
  -- what Pydantic makes of a value for an `EmailStr`, and of one for a `bool`; `none` is a refusal
  pub validate_email : String → Option String
  pub parse_bool : Json → Option Bool
  -- the lower case of a character outside ASCII, which the tables of Unicode give
  pub lower_other : Char → String
  -- the order of the database's collation
  pub text_le : String → String → Bool

-- The draws of one request. All readings of the clock in a request are one value: the code compares
-- no two of them. `audit_id n` is the `uuid4()` of the row that is the n-th of the audit log.
pub record Env : Type 0 where
  pub now : ℕ
  pub new_tenant_id : Uuid
  pub new_user_id : Uuid
  pub new_token_id : Uuid
  pub secret : String
  pub salt : String
  pub audit_id : ℕ → Uuid

pub record Context : Type 0 where
  pub settings : Settings
  pub open settings use *
  pub library : Library
  pub open library use *
  pub env : Env
  pub open env use *

-- The same deployment at another request.
abbrev pub with_draws : Context → Env → Context
with_draws c env = record c { env = env }

-- `ip_address` and `user_agent`
pub record Client : Type 0 where
  pub ip_address : Option String
  pub user_agent : Option String
