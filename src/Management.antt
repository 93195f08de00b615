-- ===== src/Management.antt =====
-- app/management/seed_system_admin.py: the command `iam-bootstrap-admin`, from its parsed arguments.
pub mod Exits
use Prim.Native.String
use identity_access_service.Base.{
  ℕ, String, Bool, true, false, Option, none, some, ◌==◌, string_eq, if◌then◌else◌, not,
}
use identity_access_service.Errors.{Error, Result, ok, err, bootstrap_conflict}
use identity_access_service.Db.{Db}
use identity_access_service.Db.Session.{run}
use identity_access_service.Core.Context.{Context}
use identity_access_service.Services.Bootstrap.{
  BootstrapAdminPayload, BootstrapAdminResult, ensure_system_admin,
}

-- the arguments of `build_parser`, of which only the password and the flag may be left out
pub record Arguments : Type 0 where
  pub tenant_name : String
  pub tenant_slug : String
  pub full_name : String
  pub email : String
  pub password : Option String
  pub reset_password : Bool

-- A password, or a ValueError with its message.
pub data Choice : Type 0 where
  chosen : String → Choice
  value_error : String → Choice

-- `prompt_for_password`, with the two texts that are typed
unfoldable pub prompt_for_password : String → String → Choice
prompt_for_password password password_confirmation =
    if password == ""
    then value_error "Password cannot be empty."
    else if not (password == password_confirmation)
    then value_error "Passwords do not match."
    else chosen password

-- `args.password or prompt_for_password()`
unfoldable pub choose_password : Option String → String → String → Choice
unfolding prompt_for_password
choose_password none typed again = prompt_for_password typed again
choose_password (some password) typed again =
    if password == "" then prompt_for_password typed again else chosen password

-- How the process ends: a status with a line of standard output and one of standard error, or an
-- exception that nothing catches.
pub data Exit : Type 0 where
  exited : (status : ℕ) (stdout stderr : String) → Exit
  uncaught : Error → Exit

unfoldable pub payload_of : Arguments → String → BootstrapAdminPayload
payload_of args password = record {
  tenant_name = args.tenant_name;
  tenant_slug = args.tenant_slug;
  full_name = args.full_name;
  email = args.email;
  password = password;
  rotate_password = args.reset_password;
}

unfoldable pub failed : String → Exit
failed message = exited 1 "" (String.◌++◌ "Bootstrap failed: " message)

-- `f"{value}"` of a truth value
abbrev pub str_bool : Bool → String
str_bool true = "True"
str_bool false = "False"

abbrev pub item : String → String → String → String
item name value rest = String.◌++◌ name (String.◌++◌ value rest)

unfoldable pub ready : BootstrapAdminResult → Exit
ready r =
    exited 0
      (String.◌++◌ "System admin ready: " (
        item "tenant_slug=" r.tenant_slug (
          item " email=" r.email (
            item " tenant_created=" (str_bool r.tenant_created) (
              item " user_created=" (str_bool r.user_created)
                (item " password_rotated=" (str_bool r.password_rotated) ""))))))
      ""

unfoldable pub exit_of : Result BootstrapAdminResult → Exit
unfolding failed ready
exit_of (ok r) = ready r
exit_of (err (bootstrap_conflict message)) = failed message
exit_of (err e) = uncaught e

module _ (c : Context) (args : Arguments) where
  unfoldable pub main_with : Choice → Db → Exit × Db
  unfolding exit_of payload_of failed
  main_with (value_error message) db = (failed message, db)
  main_with (chosen password) db =
      let (r, d) = run (ensure_system_admin c (payload_of args password)) db in (exit_of r, d)

  -- `main`, with the texts that are typed if it prompts
  unfoldable pub main : String → String → Db → Exit × Db
  unfolding main_with choose_password
  main typed again db = main_with (choose_password args.password typed again) db

-- the status that the shell sees
abbrev pub status_of : Exit → ℕ
status_of (exited status stdout stderr) = status
status_of (uncaught e) = 1
