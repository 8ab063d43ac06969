-- ===== src/Options/Codes.antt =====
-- src/run-activity/main.c and src/dbus-service/disnix-client-main.c: the values of the options, a
-- character such as 'I' in the one and DISNIX_CLIENT_OPTION_IMPORT in the other, and the operations.
pub data HasArg : Type 0 where
  no_argument required_argument : HasArg

-- `option_unknown` is the character '?'.
pub data OptionCode : Type 0 where
  option_import option_export option_print_invalid option_realise option_set option_query_installed
        option_query_requisites option_collect_garbage option_activate option_deactivate
        option_delete_state option_lock option_unlock option_snapshot option_restore
        option_query_all_snapshots option_query_latest_snapshot option_print_missing_snapshots
        option_import_snapshots option_resolve_snapshots option_clean_snapshots
        option_capture_config option_shell option_target option_localfile option_remotefile
        option_profile option_delete_old option_type option_arguments option_container
        option_component option_keep option_command option_help option_version option_session_bus
        option_unknown :
      OptionCode

pub data Operation : Type 0 where
  op_none op_import op_export op_print_invalid op_realise op_set op_query_installed
        op_query_requisites op_collect_garbage op_activate op_deactivate op_lock op_unlock
        op_snapshot op_restore op_query_all_snapshots op_query_latest_snapshot
        op_print_missing_snapshots op_import_snapshots op_resolve_snapshots op_clean_snapshots
        op_delete_state op_capture_config op_shell :
      Operation
