-- ===== src/Lib.antt =====
-- The identity and access service: a FastAPI application that keeps tenants, users, refresh tokens and
-- an audit log in a SQL database, and that signs users in with passwords, short access tokens and
-- refresh tokens which are good for one use.
--
-- How its parts interact. A client's request passes the rate limiter (app/core/rate_limit.py) and
-- reaches an endpoint (app/api/v1/endpoints). The endpoint authenticates the caller
-- (app/api/dependencies/auth.py), validates the body by a schema of app/schemas, calls one operation
-- of a service (app/services) with a database session, and turns the exceptions of the service into
-- HTTP errors, which app/core/errors.py puts into an envelope. The services read and write the models
-- of app/models, record audit events (app/services/audit.py), and use app/core/security.py for
-- passwords and tokens. An operator seeds the first administrator by
-- app/management/seed_system_admin.py, which calls app/services/bootstrap.py.
--
-- Which file models what.
--   Base             Boolean tests, tables as lists of rows, texts as lists of codes, and the lemmas on
--                    them (Base.Rows); Base.Pages has ORDER BY, OFFSET and LIMIT, Base.Int integers.
--   Models           app/models: rows as records, enums, and datetimes with or without a time zone.
--   Uuid             `str(uuid)` and `uuid.UUID(text)` of the Python library.
--   Errors           the exceptions, and the result of an action that may raise.
--   Db               the four tables, their queries, and the constraints that app/models declares.
--   Db.Session       actions on a SQLAlchemy session: what is committed, and what is pending.
--   Db.Keeps         the rules by which an action keeps a property of the database; Db.Raises and
--                    Db.Outcomes those on its exceptions and on its results.
--   Core             app/core: Context (settings, third-party functions, draws), Principal, Security,
--                    and RateLimit.
--   Services         app/services: Audit (record_audit_event, and the listings in Audit.Listing),
--                    Tenants, Users, Rbac (the summaries), Bootstrap, and Auth with Register, Login,
--                    Tokens (refresh and logout) and Issue.
--   Schemas          app/schemas: Text (strip and lower), Lower (what lower-casing leaves), Slug (the
--                    pattern of a slug), Fields (the constraints and validators of one field), and
--                    Body (whole bodies).
--   Api              app/api: Dependencies (get_current_principal, require_roles), the endpoints Auth,
--                    Tenants, Users, Audit and Rbac, Bodies (the endpoints from the body on), and Http
--                    (app/core/errors.py).
--   Management       app/management/seed_system_admin.py: the password, the run and the exit status.
--   Policy           the abstract specification: which changes of the database each kind of caller may
--                    make. The modules below it prove it of each service.
--   Requests         requests as data, the database that each leaves, and on whose authority it runs.
--   Guarantees       what follows for every database that requests lead to.
--   Tests            concrete runs, at which the theorems are applied.
--
-- How state and operations correspond. A method of a service is an `Action`: a function of the session
-- that returns a result or an exception together with the session. A part of a method that stands
-- behind an early return is a function of its own, named in the comment above it. A request opens a
-- session on the committed database and closes it at the end, so that what was not committed is lost.
-- Requests are served one after the other: no interleaving of two transactions is modelled. Every
-- recursion is structural; no fuel is used.
--
-- What is chosen. All readings of the clock in one request are one value, since the code compares no
-- two of them. The values of `uuid4()`, of the secret and of the salt are draws of the request's
-- context, and nothing is assumed of them but what a theorem says; where a drawn key is taken, the
-- insert fails as in the database. Constraints are checked at the insert, where the code flushes or
-- commits with nothing but such inserts before. A table is a list, the newest row first; the code
-- uses no order but that of ORDER BY. Time is a number of microseconds, in the rate limiter of
-- nanoseconds; the spans in the settings are natural numbers.
--
-- A request body is a record with one optional JSON value for each field of its schema. A validator
-- either passes a value on, or refuses it with one error of the framework's list, or raises an exception
-- that is no validation error; the errors of all fields are collected in the order of the fields.
-- A response model may refuse what is stored: it checks an e-mail address again, and a lifetime of at
-- least one second, and its refusal is an exception that no handler presents. The second pass of the
-- framework over a response is taken to change nothing.
--
-- What is a parameter: bcrypt, SHA-256, the JWT codec, the collation of the database, the check of an
-- e-mail address (pydantic's EmailStr), pydantic's reading of a Boolean, the framework's wording of a
-- refusal, and the lower-casing of characters outside ASCII.
--
-- What is not modelled: the parsing of command-line arguments, the health check, the time stamps
-- created_at and updated_at of tables other than the audit log, the limits on the lengths of columns,
-- the context-dependent lower case of the final sigma in normalised texts, the echo of the input in a
-- validation error, and the construction of the application, the engine and the migrations.
pub mod Base
pub mod Models
pub mod Uuid
pub mod Errors
pub mod Db
pub mod Core
pub mod Services
pub mod Schemas
pub mod Api
pub mod Management
pub mod Policy
pub mod Requests
pub mod Guarantees
pub mod Tests
