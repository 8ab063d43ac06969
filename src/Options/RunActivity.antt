-- ===== src/Options/RunActivity.antt =====
-- src/run-activity/main.c: the options of disnix-run-activity, and its switch on them.
use disnix.Prelude.{String, ◌++◌, some, [], ◌∷◌, true}
use disnix.Platform.{Table}
use disnix.Options.Codes.{
  HasArg, no_argument, required_argument, OptionCode, option_import, option_export,
  option_print_invalid, option_realise, option_set, option_query_installed, option_query_requisites,
  option_collect_garbage, option_activate, option_deactivate, option_delete_state, option_lock,
  option_unlock, option_snapshot, option_restore, option_query_all_snapshots,
  option_query_latest_snapshot, option_print_missing_snapshots, option_import_snapshots,
  option_resolve_snapshots, option_clean_snapshots, option_capture_config, option_shell,
  option_target, option_localfile, option_remotefile, option_profile, option_delete_old,
  option_type, option_arguments, option_container, option_component, option_keep, option_command,
  option_help, option_version, option_session_bus, option_unknown, op_import, op_export,
  op_print_invalid, op_realise, op_set, op_query_installed, op_query_requisites, op_collect_garbage,
  op_activate, op_deactivate, op_lock, op_unlock, op_snapshot, op_restore, op_query_all_snapshots,
  op_query_latest_snapshot, op_print_missing_snapshots, op_import_snapshots, op_resolve_snapshots,
  op_clean_snapshots, op_delete_state, op_capture_config, op_shell,
}
use disnix.Options.State.{ℤ, Settings, Handled, go_on, leave, version, help, misuse}

abbrev pub run_activity_options : Table (HasArg × OptionCode)
run_activity_options =
    ("import", (no_argument, option_import))
    ∷ ("export", (no_argument, option_export))
    ∷ ("print-invalid", (no_argument, option_print_invalid))
    ∷ ("realise", (no_argument, option_realise))
    ∷ ("set", (no_argument, option_set))
    ∷ ("query-installed", (no_argument, option_query_installed))
    ∷ ("query-requisites", (no_argument, option_query_requisites))
    ∷ ("collect-garbage", (no_argument, option_collect_garbage))
    ∷ ("activate", (no_argument, option_activate))
    ∷ ("deactivate", (no_argument, option_deactivate))
    ∷ ("delete-state", (no_argument, option_delete_state))
    ∷ ("lock", (no_argument, option_lock))
    ∷ ("unlock", (no_argument, option_unlock))
    ∷ ("snapshot", (no_argument, option_snapshot))
    ∷ ("restore", (no_argument, option_restore))
    ∷ ("query-all-snapshots", (no_argument, option_query_all_snapshots))
    ∷ ("query-latest-snapshot", (no_argument, option_query_latest_snapshot))
    ∷ ("print-missing-snapshots", (no_argument, option_print_missing_snapshots))
    ∷ ("import-snapshots", (no_argument, option_import_snapshots))
    ∷ ("resolve-snapshots", (no_argument, option_resolve_snapshots))
    ∷ ("clean-snapshots", (no_argument, option_clean_snapshots))
    ∷ ("capture-config", (no_argument, option_capture_config))
    ∷ ("shell", (no_argument, option_shell))
    ∷ ("target", (required_argument, option_target))
    ∷ ("localfile", (no_argument, option_localfile))
    ∷ ("remotefile", (no_argument, option_remotefile))
    ∷ ("profile", (required_argument, option_profile))
    ∷ ("delete-old", (no_argument, option_delete_old))
    ∷ ("type", (required_argument, option_type))
    ∷ ("arguments", (required_argument, option_arguments))
    ∷ ("container", (required_argument, option_container))
    ∷ ("component", (required_argument, option_component))
    ∷ ("keep", (required_argument, option_keep))
    ∷ ("command", (required_argument, option_command))
    ∷ ("help", (no_argument, option_help))
    ∷ ("version", (no_argument, option_version))
    ∷ []

abbrev pub run_activity_short_options : Table (HasArg × OptionCode)
run_activity_short_options =
    ("r", (no_argument, option_realise))
    ∷ ("q", (no_argument, option_query_installed))
    ∷ ("t", (required_argument, option_target))
    ∷ ("p", (required_argument, option_profile))
    ∷ ("d", (no_argument, option_delete_old))
    ∷ ("C", (required_argument, option_container))
    ∷ ("c", (required_argument, option_component))
    ∷ ("h", (no_argument, option_help))
    ∷ ("v", (no_argument, option_version))
    ∷ []

unfoldable pub run_activity_option : (String → ℤ) → OptionCode → String → Settings → Handled
run_activity_option atoi option_import text s = go_on (record s { operation = op_import })
run_activity_option atoi option_export text s = go_on (record s { operation = op_export })
run_activity_option atoi option_print_invalid text s =
    go_on (record s { operation = op_print_invalid })
run_activity_option atoi option_realise text s = go_on (record s { operation = op_realise })
run_activity_option atoi option_set text s = go_on (record s { operation = op_set })
run_activity_option atoi option_query_installed text s =
    go_on (record s { operation = op_query_installed })
run_activity_option atoi option_query_requisites text s =
    go_on (record s { operation = op_query_requisites })
run_activity_option atoi option_collect_garbage text s =
    go_on (record s { operation = op_collect_garbage })
run_activity_option atoi option_activate text s = go_on (record s { operation = op_activate })
run_activity_option atoi option_deactivate text s = go_on (record s { operation = op_deactivate })
run_activity_option atoi option_delete_state text s =
    go_on (record s { operation = op_delete_state })
run_activity_option atoi option_lock text s = go_on (record s { operation = op_lock })
run_activity_option atoi option_unlock text s = go_on (record s { operation = op_unlock })
run_activity_option atoi option_snapshot text s = go_on (record s { operation = op_snapshot })
run_activity_option atoi option_restore text s = go_on (record s { operation = op_restore })
run_activity_option atoi option_query_all_snapshots text s =
    go_on (record s { operation = op_query_all_snapshots })
run_activity_option atoi option_query_latest_snapshot text s =
    go_on (record s { operation = op_query_latest_snapshot })
run_activity_option atoi option_print_missing_snapshots text s =
    go_on (record s { operation = op_print_missing_snapshots })
run_activity_option atoi option_import_snapshots text s =
    go_on (record s { operation = op_import_snapshots })
run_activity_option atoi option_resolve_snapshots text s =
    go_on (record s { operation = op_resolve_snapshots })
run_activity_option atoi option_clean_snapshots text s =
    go_on (record s { operation = op_clean_snapshots })
run_activity_option atoi option_capture_config text s =
    go_on (record s { operation = op_capture_config })
run_activity_option atoi option_shell text s = go_on (record s { operation = op_shell })
run_activity_option atoi option_target text s = go_on s
run_activity_option atoi option_localfile text s = go_on s
run_activity_option atoi option_remotefile text s = go_on s
run_activity_option atoi option_profile text s = go_on (record s { profile = some text })
run_activity_option atoi option_delete_old text s = go_on (record s { delete_old = true })
run_activity_option atoi option_type text s = go_on (record s { type = some text })
run_activity_option atoi option_arguments text s =
    go_on (record s { arguments = s.arguments ++ text ∷ [] })
run_activity_option atoi option_container text s = go_on (record s { container = some text })
run_activity_option atoi option_component text s = go_on (record s { component = some text })
run_activity_option atoi option_keep text s = go_on (record s { keep = atoi text })
run_activity_option atoi option_command text s = go_on (record s { command = some text })
run_activity_option atoi option_help text s = leave help
run_activity_option atoi option_unknown text s = leave misuse
run_activity_option atoi option_version text s = leave version
run_activity_option atoi option_session_bus text s = go_on s
