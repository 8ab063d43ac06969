-- ===== src/Options/State.antt =====
-- src/run-activity/main.c and src/dbus-service/disnix-client-main.c: the variables that the loop over
-- the options sets, and what it leads to.
use disnix.Prelude.{ℕ, ◌<◌, String, Bool, false, Option, none, List, []}
use disnix.Options.Codes.{Operation, op_none}

-- C's `int`, as far as `atoi` and "%d" read and write it.
pub data ℤ : Type 0 where
  pos negsuc : ℕ → ℤ

-- The numbers that an `int` of 32 bits has.
abbrev pub IsInt : ℤ → Type 0
IsInt (pos n) = n < 2147483648
IsInt (negsuc n) = n < 2147483648

pub record Settings : Type 0 where
  pub operation : Operation
  pub profile : Option String
  pub type : Option String
  pub container : Option String
  pub component : Option String
  pub command : Option String
  pub arguments : List String
  pub delete_old : Bool  -- the bits of `flags`
  pub session_bus : Bool
  pub keep : ℤ

abbrev pub initial_settings : Settings
initial_settings = record {
  operation = op_none;
  profile = none;
  type = none;
  container = none;
  component = none;
  command = none;
  arguments = [];
  delete_old = false;
  session_bus = false;
  keep = pos 1;
}

-- What the program does: it prints its usage or its version with exit status 0, its usage with exit
-- status 1, or it carries out an operation with the profile and the derivations.
pub data Start : Type 0 where
  help version misuse : Start
  run : Settings → (profile : String) → (derivation : List String) → Start

pub data Handled : Type 0 where
  go_on : Settings → Handled
  leave : Start → Handled
