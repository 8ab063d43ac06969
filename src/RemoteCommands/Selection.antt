-- ===== src/RemoteCommands/Selection.antt =====
-- src/run-activity/main.c and src/dbus-service/disnix-client-main.c: the option of each operation.
use disnix.Prelude.{String, ◌≢◌, refl}
use disnix.Options.Codes.{
  Operation, op_none, op_import, op_export, op_print_invalid, op_realise, op_set,
  op_query_installed, op_query_requisites, op_collect_garbage, op_activate, op_deactivate, op_lock,
  op_unlock, op_snapshot, op_restore, op_query_all_snapshots, op_query_latest_snapshot,
  op_print_missing_snapshots, op_import_snapshots, op_resolve_snapshots, op_clean_snapshots,
  op_delete_state, op_capture_config, op_shell, option_import, option_export, option_print_invalid,
  option_realise, option_set, option_query_installed, option_query_requisites,
  option_collect_garbage, option_activate, option_deactivate, option_lock, option_unlock,
  option_snapshot, option_restore, option_query_all_snapshots, option_query_latest_snapshot,
  option_print_missing_snapshots, option_import_snapshots, option_resolve_snapshots,
  option_clean_snapshots, option_delete_state, option_capture_config, option_shell,
}
use disnix.Options.State.{ℤ}
use disnix.Options.RunActivity.{run_activity_option}
use disnix.Options.Client.{client_option}
use disnix.Options.{Program, run_activity, disnix_client}
use disnix.RemoteCommands.Reading.{Selects}

-- The name of the option that selects an operation.
abbrev pub name_of : Operation → String
name_of op_none = ""
name_of op_import = "import"
name_of op_export = "export"
name_of op_print_invalid = "print-invalid"
name_of op_realise = "realise"
name_of op_set = "set"
name_of op_query_installed = "query-installed"
name_of op_query_requisites = "query-requisites"
name_of op_collect_garbage = "collect-garbage"
name_of op_activate = "activate"
name_of op_deactivate = "deactivate"
name_of op_lock = "lock"
name_of op_unlock = "unlock"
name_of op_snapshot = "snapshot"
name_of op_restore = "restore"
name_of op_query_all_snapshots = "query-all-snapshots"
name_of op_query_latest_snapshot = "query-latest-snapshot"
name_of op_print_missing_snapshots = "print-missing-snapshots"
name_of op_import_snapshots = "import-snapshots"
name_of op_resolve_snapshots = "resolve-snapshots"
name_of op_clean_snapshots = "clean-snapshots"
name_of op_delete_state = "delete-state"
name_of op_capture_config = "capture-config"
name_of op_shell = "shell"

-- Both programs have the option of each operation.
pub selects :
    (program : Program) (atoi : String → ℤ) (operation : Operation)
    → operation ≢ op_none
    → Selects program atoi (name_of operation) operation
unfolding run_activity_option client_option
selects program atoi op_none h = absurd (h refl)
selects run_activity atoi op_import h = record {
  code = option_import;
  listed = (refl, refl);
  selected = λ text s. refl;
}
selects run_activity atoi op_export h = record {
  code = option_export;
  listed = (refl, refl);
  selected = λ text s. refl;
}
selects run_activity atoi op_print_invalid h = record {
  code = option_print_invalid;
  listed = (refl, refl);
  selected = λ text s. refl;
}
selects run_activity atoi op_realise h = record {
  code = option_realise;
  listed = (refl, refl);
  selected = λ text s. refl;
}
selects run_activity atoi op_set h = record {
  code = option_set;
  listed = (refl, refl);
  selected = λ text s. refl;
}
selects run_activity atoi op_query_installed h = record {
  code = option_query_installed;
  listed = (refl, refl);
  selected = λ text s. refl;
}
selects run_activity atoi op_query_requisites h = record {
  code = option_query_requisites;
  listed = (refl, refl);
  selected = λ text s. refl;
}
selects run_activity atoi op_collect_garbage h = record {
  code = option_collect_garbage;
  listed = (refl, refl);
  selected = λ text s. refl;
}
selects run_activity atoi op_activate h = record {
  code = option_activate;
  listed = (refl, refl);
  selected = λ text s. refl;
}
selects run_activity atoi op_deactivate h = record {
  code = option_deactivate;
  listed = (refl, refl);
  selected = λ text s. refl;
}
selects run_activity atoi op_lock h = record {
  code = option_lock;
  listed = (refl, refl);
  selected = λ text s. refl;
}
selects run_activity atoi op_unlock h = record {
  code = option_unlock;
  listed = (refl, refl);
  selected = λ text s. refl;
}
selects run_activity atoi op_snapshot h = record {
  code = option_snapshot;
  listed = (refl, refl);
  selected = λ text s. refl;
}
selects run_activity atoi op_restore h = record {
  code = option_restore;
  listed = (refl, refl);
  selected = λ text s. refl;
}
selects run_activity atoi op_query_all_snapshots h = record {
  code = option_query_all_snapshots;
  listed = (refl, refl);
  selected = λ text s. refl;
}
selects run_activity atoi op_query_latest_snapshot h = record {
  code = option_query_latest_snapshot;
  listed = (refl, refl);
  selected = λ text s. refl;
}
selects run_activity atoi op_print_missing_snapshots h = record {
  code = option_print_missing_snapshots;
  listed = (refl, refl);
  selected = λ text s. refl;
}
selects run_activity atoi op_import_snapshots h = record {
  code = option_import_snapshots;
  listed = (refl, refl);
  selected = λ text s. refl;
}
selects run_activity atoi op_resolve_snapshots h = record {
  code = option_resolve_snapshots;
  listed = (refl, refl);
  selected = λ text s. refl;
}
selects run_activity atoi op_clean_snapshots h = record {
  code = option_clean_snapshots;
  listed = (refl, refl);
  selected = λ text s. refl;
}
selects run_activity atoi op_delete_state h = record {
  code = option_delete_state;
  listed = (refl, refl);
  selected = λ text s. refl;
}
selects run_activity atoi op_capture_config h = record {
  code = option_capture_config;
  listed = (refl, refl);
  selected = λ text s. refl;
}
selects run_activity atoi op_shell h = record {
  code = option_shell;
  listed = (refl, refl);
  selected = λ text s. refl;
}
selects disnix_client atoi op_import h = record {
  code = option_import;
  listed = (refl, refl);
  selected = λ text s. refl;
}
selects disnix_client atoi op_export h = record {
  code = option_export;
  listed = (refl, refl);
  selected = λ text s. refl;
}
selects disnix_client atoi op_print_invalid h = record {
  code = option_print_invalid;
  listed = (refl, refl);
  selected = λ text s. refl;
}
selects disnix_client atoi op_realise h = record {
  code = option_realise;
  listed = (refl, refl);
  selected = λ text s. refl;
}
selects disnix_client atoi op_set h = record {
  code = option_set;
  listed = (refl, refl);
  selected = λ text s. refl;
}
selects disnix_client atoi op_query_installed h = record {
  code = option_query_installed;
  listed = (refl, refl);
  selected = λ text s. refl;
}
selects disnix_client atoi op_query_requisites h = record {
  code = option_query_requisites;
  listed = (refl, refl);
  selected = λ text s. refl;
}
selects disnix_client atoi op_collect_garbage h = record {
  code = option_collect_garbage;
  listed = (refl, refl);
  selected = λ text s. refl;
}
selects disnix_client atoi op_activate h = record {
  code = option_activate;
  listed = (refl, refl);
  selected = λ text s. refl;
}
selects disnix_client atoi op_deactivate h = record {
  code = option_deactivate;
  listed = (refl, refl);
  selected = λ text s. refl;
}
selects disnix_client atoi op_lock h = record {
  code = option_lock;
  listed = (refl, refl);
  selected = λ text s. refl;
}
selects disnix_client atoi op_unlock h = record {
  code = option_unlock;
  listed = (refl, refl);
  selected = λ text s. refl;
}
selects disnix_client atoi op_snapshot h = record {
  code = option_snapshot;
  listed = (refl, refl);
  selected = λ text s. refl;
}
selects disnix_client atoi op_restore h = record {
  code = option_restore;
  listed = (refl, refl);
  selected = λ text s. refl;
}
selects disnix_client atoi op_query_all_snapshots h = record {
  code = option_query_all_snapshots;
  listed = (refl, refl);
  selected = λ text s. refl;
}
selects disnix_client atoi op_query_latest_snapshot h = record {
  code = option_query_latest_snapshot;
  listed = (refl, refl);
  selected = λ text s. refl;
}
selects disnix_client atoi op_print_missing_snapshots h = record {
  code = option_print_missing_snapshots;
  listed = (refl, refl);
  selected = λ text s. refl;
}
selects disnix_client atoi op_import_snapshots h = record {
  code = option_import_snapshots;
  listed = (refl, refl);
  selected = λ text s. refl;
}
selects disnix_client atoi op_resolve_snapshots h = record {
  code = option_resolve_snapshots;
  listed = (refl, refl);
  selected = λ text s. refl;
}
selects disnix_client atoi op_clean_snapshots h = record {
  code = option_clean_snapshots;
  listed = (refl, refl);
  selected = λ text s. refl;
}
selects disnix_client atoi op_delete_state h = record {
  code = option_delete_state;
  listed = (refl, refl);
  selected = λ text s. refl;
}
selects disnix_client atoi op_capture_config h = record {
  code = option_capture_config;
  listed = (refl, refl);
  selected = λ text s. refl;
}
selects disnix_client atoi op_shell h = record {
  code = option_shell;
  listed = (refl, refl);
  selected = λ text s. refl;
}
