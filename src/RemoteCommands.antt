-- ===== src/RemoteCommands.antt =====
-- src/libstatemgmt/remote-state-management.c, src/libstatemgmt/remote-snapshot-management.c and
-- src/libpkgmgmt/remote-package-management.c: the command lines by which the coordinator asks a
-- machine, through its client interface, to do something. A pointer that may be NULL is an option.
pub mod Reading
pub mod Selection
pub mod Activities
pub mod SnapshotCommands
pub mod SnapshotTransfers
pub mod PackageCommands
use disnix.Prelude.{String, Bool, true, false, Option, none, some, List, [], ◌∷◌, ◌++◌, map}
use disnix.Options.State.{ℤ}

-- What `execvp` takes of a vector: the texts before the first NULL.
abbrev pub argv : List (Option String) → List String
argv [] = []
argv (none ∷ rest) = []
argv (some text ∷ rest) = text ∷ argv rest

-- An option with an argument that may be NULL, where the code tests it.
abbrev pub with_option : String → Option String → List String
with_option name none = []
with_option name (some text) = name ∷ text ∷ []

-- The loop that puts "--arguments" before each of them.
unfoldable pub each_argument : List String → List String
each_argument [] = []
each_argument (argument ∷ rest) = "--arguments" ∷ argument ∷ each_argument rest

unfoldable pub exec_dysnomia_activity :
    String → String → String → String → String → List String → String → List String
unfolding each_argument
exec_dysnomia_activity operation interface target container type arguments service =
    interface
      ∷ operation
      ∷ "--target"
      ∷ target
      ∷ "--container"
      ∷ container
      ∷ "--type"
      ∷ type
      ∷ each_argument arguments
    ++ service ∷ []

unfoldable pub statemgmt_remote_activate :
    String → String → String → String → List String → String → List String
statemgmt_remote_activate = exec_dysnomia_activity "--activate"

unfoldable pub statemgmt_remote_deactivate :
    String → String → String → String → List String → String → List String
statemgmt_remote_deactivate = exec_dysnomia_activity "--deactivate"

unfoldable pub statemgmt_remote_snapshot :
    String → String → String → String → List String → String → List String
statemgmt_remote_snapshot = exec_dysnomia_activity "--snapshot"

unfoldable pub statemgmt_remote_restore :
    String → String → String → String → List String → String → List String
statemgmt_remote_restore = exec_dysnomia_activity "--restore"

unfoldable pub statemgmt_remote_delete_state :
    String → String → String → String → List String → String → List String
statemgmt_remote_delete_state = exec_dysnomia_activity "--delete-state"

unfoldable pub lock_or_unlock : String → String → String → String → List String
lock_or_unlock operation interface target profile =
    interface ∷ operation ∷ "--target" ∷ target ∷ "--profile" ∷ profile ∷ []

unfoldable pub statemgmt_remote_lock : String → String → String → List String
statemgmt_remote_lock = lock_or_unlock "--lock"

unfoldable pub statemgmt_remote_unlock : String → String → String → List String
statemgmt_remote_unlock = lock_or_unlock "--unlock"

unfoldable pub statemgmt_remote_shell :
    String → String → String → String → List String → String → Option String → List String
unfolding each_argument
statemgmt_remote_shell interface target container type arguments service command =
    interface
      ∷ "--shell"
      ∷ "--target"
      ∷ target
      ∷ "--container"
      ∷ container
      ∷ "--type"
      ∷ type
      ∷ each_argument arguments
    ++ service ∷ with_option "--command" command

unfoldable pub statemgmt_remote_capture_config : String → String → List String
statemgmt_remote_capture_config interface target =
    interface ∷ "--capture-config" ∷ "--target" ∷ target ∷ []

-- `print` is sprintf with "%d".
unfoldable pub statemgmt_remote_clean_snapshots :
    (ℤ → String) → String → String → ℤ → Option String → Option String → List String
statemgmt_remote_clean_snapshots print interface target keep container component =
    interface
      ∷ "--target"
      ∷ target
      ∷ "--clean-snapshots"
      ∷ "--keep"
      ∷ print keep
      ∷ with_option "--container" container
    ++ with_option "--component" component

unfoldable pub statemgmt_remote_query_all_snapshots :
    String → String → Option String → Option String → List String
statemgmt_remote_query_all_snapshots interface target container component =
    interface ∷ "--target" ∷ target ∷ "--query-all-snapshots" ∷ with_option "--container" container
    ++ with_option "--component" component

unfoldable pub statemgmt_remote_query_latest_snapshot :
    String → String → Option String → Option String → List String
statemgmt_remote_query_latest_snapshot interface target container component =
    interface
      ∷ "--target"
      ∷ target
      ∷ "--query-latest-snapshot"
      ∷ with_option "--container" container
    ++ with_option "--component" component

unfoldable pub statemgmt_remote_print_missing_snapshots :
    String → String → List String → List String
statemgmt_remote_print_missing_snapshots interface target snapshots =
    interface ∷ "--target" ∷ target ∷ "--print-missing-snapshots" ∷ snapshots

unfoldable pub statemgmt_remote_resolve_snapshots : String → String → List String → List String
statemgmt_remote_resolve_snapshots interface target snapshots =
    interface ∷ "--target" ∷ target ∷ "--resolve-snapshots" ∷ snapshots

unfoldable pub statemgmt_import_local_snapshots :
    String → String → String → String → List String → List String
statemgmt_import_local_snapshots interface target container component snapshots =
    interface ∷ "--target" ∷ target ∷ "--import-snapshots" ∷ "--localfile" ∷ "--container"
    ∷ container ∷ "--component" ∷ component ∷ snapshots

unfoldable pub statemgmt_import_remote_snapshots :
    String → String → String → String → List String → List String
statemgmt_import_remote_snapshots interface target container component snapshots =
    interface ∷ "--target" ∷ target ∷ "--import-snapshots" ∷ "--remotefile" ∷ "--container"
    ∷ container ∷ "--component" ∷ component ∷ snapshots

unfoldable pub statemgmt_export_remote_snapshots : String → String → List String → List String
statemgmt_export_remote_snapshots interface target snapshots =
    interface ∷ "--target" ∷ target ∷ "--export-snapshots" ∷ snapshots

unfoldable pub pkgmgmt_remote_collect_garbage : String → String → Bool → List String
pkgmgmt_remote_collect_garbage interface target delete_old = argv (
    some interface
    ∷ some "--target"
    ∷ some target
    ∷ some "--collect-garbage"
    ∷ delete_old_arg delete_old
    ∷ [])
  where
    delete_old_arg : Bool → Option String
    delete_old_arg true = some "-d"
    delete_old_arg false = none

unfoldable pub pkgmgmt_remote_set : String → String → String → String → List String
pkgmgmt_remote_set interface target profile component =
    interface ∷ "--target" ∷ target ∷ "--profile" ∷ profile ∷ "--set" ∷ component ∷ []

unfoldable pub pkgmgmt_remote_query_installed : String → String → String → List String
pkgmgmt_remote_query_installed interface target profile =
    interface ∷ "--target" ∷ target ∷ "--profile" ∷ profile ∷ "--query-installed" ∷ []

unfoldable pub pkgmgmt_remote_realise : String → String → String → List String
pkgmgmt_remote_realise interface target derivation =
    interface ∷ "--realise" ∷ "--target" ∷ target ∷ derivation ∷ []

unfoldable pub pkgmgmt_remote_query_requisites : String → String → List String → List String
pkgmgmt_remote_query_requisites interface target paths =
    interface ∷ "--query-requisites" ∷ "--target" ∷ target ∷ paths

unfoldable pub pkgmgmt_remote_print_invalid : String → String → List String → List String
pkgmgmt_remote_print_invalid interface target paths =
    interface ∷ "--target" ∷ target ∷ "--print-invalid" ∷ paths

unfoldable pub pkgmgmt_import_local_closure : String → String → String → List String
pkgmgmt_import_local_closure interface target closure =
    interface ∷ "--import" ∷ "--target" ∷ target ∷ "--localfile" ∷ closure ∷ []

unfoldable pub pkgmgmt_export_remote_closure : String → String → List String → List String
pkgmgmt_export_remote_closure interface target paths =
    interface ∷ "--target" ∷ target ∷ "--export" ∷ "--remotefile" ∷ paths
