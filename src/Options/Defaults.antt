-- ===== src/Options/Defaults.antt =====
-- src/libmain/defaultoptions.c: what is used where an option is not given.
use disnix.Prelude.{String, str_eq, Bool, false, Option, none, some}

-- `getenv`, with `none` for NULL.
abbrev pub Environment : Type 0
Environment = String → Option String

-- A variable, or a default where it is not set.
abbrev pub getenv_or : Environment → String → String → String
getenv_or environment name default = elim (environment name) [ none ↦ default | some value ↦ value ]

abbrev pub or_default : String → Option String → String
or_default default none = default
or_default default (some text) = text

unfoldable pub check_interface_option : Environment → Option String → String
check_interface_option environment =
    or_default (getenv_or environment "DISNIX_CLIENT_INTERFACE" "disnix-ssh-client")

-- The option that was given is not read.
unfoldable pub check_target_property_option : Environment → Option String → String
check_target_property_option environment target_property =
    getenv_or environment "DISNIX_TARGET_PROPERTY" "hostname"

unfoldable pub check_profile_option : Environment → Option String → String
check_profile_option environment = or_default (getenv_or environment "DISNIX_PROFILE" "default")

unfoldable pub check_global_delete_state : Environment → Bool
check_global_delete_state environment = elim (environment "DISNIX_DELETE_STATE") [
  | none ↦ false
  | some value ↦ str_eq value "1"
]

unfoldable pub check_tmpdir : Environment → Option String → String
check_tmpdir environment = or_default (getenv_or environment "TMPDIR" "/tmp")
