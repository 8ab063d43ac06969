-- ===== src/RunActivity.antt =====
-- src/run-activity/run-activity.c: what disnix-run-activity does on a machine for each operation. The
-- functions of src/libpkgmgmt and src/libstatemgmt that it calls run other programs; their results, and
-- those of the profile manifest and the locks, are answers of the machine.
pub mod Served
use disnix.Prelude.{
  ℕ, String, Bool, true, false, Option, none, some, List, [], ◌∷◌, ◌&&◌, ◌==◌, not, if◌then◌else◌,
}
use disnix.Options.Codes.{
  Operation, op_none, op_import, op_export, op_print_invalid, op_realise, op_set,
  op_query_installed, op_query_requisites, op_collect_garbage, op_activate, op_deactivate, op_lock,
  op_unlock, op_snapshot, op_restore, op_query_all_snapshots, op_query_latest_snapshot,
  op_print_missing_snapshots, op_import_snapshots, op_resolve_snapshots, op_clean_snapshots,
  op_delete_state, op_capture_config, op_shell,
}
use disnix.Options.Defaults.{Environment, or_default, getenv_or}
use disnix.Options.State.{ℤ, pos, negsuc, Settings, Start, help, version, misuse, run}

-- The calls that are made, with the arguments that matter.
pub data Call : Type 0 where
  pkgmgmt_import_closure : (path : String) → Call
  pkgmgmt_export_closure : (tmpdir : String) (paths : List String) → Call
  pkgmgmt_print_invalid_packages pkgmgmt_realise pkgmgmt_query_requisites :
      (paths : List String) → Call
  pkgmgmt_set_profile : (profile : String) (path : String) → Call
  pkgmgmt_collect_garbage : (delete_old : Bool) → Call
  print_text_from_profile_manifest : (profile : String) → Call
  statemgmt_activate statemgmt_deactivate statemgmt_collect_garbage statemgmt_snapshot
        statemgmt_restore :
      (type path : Option String) (container : String) (arguments : List String) → Call
  statemgmt_shell :
      (type path : Option String) (container : String) (arguments : List String)
      (command : Option String)
      → Call
  acquire_locks release_locks : (tmpdir profile : String) → Call
  statemgmt_query_all_snapshots statemgmt_query_latest_snapshot :
      (container component : Option String) → Call
  statemgmt_print_missing_snapshots statemgmt_resolve_snapshots : (paths : List String) → Call
  statemgmt_import_snapshots : (container component : Option String) (paths : List String) → Call
  statemgmt_clean_snapshots : (keep : ℤ) (container component : String) → Call
  statemgmt_capture_config : (tmpdir : String) → Call

pub record Machine : Type 0 where
  pub environment : Environment
  -- procreact_wait_for_exit_status.
  pub exit_status : Call → ℕ
  -- procreact_future_get: `none` if its status is not PROCREACT_STATUS_OK or the result is NULL.
  pub future_get : Call → Option (List String)
  -- procreact_wait_for_boolean, true only with PROCREACT_STATUS_OK, and the name of the file.
  pub wait_for_boolean : Call → Bool
  pub tempfilename : Call → String
  pub fchmod : String → ℤ
  -- create_profile_manifest_from_current_deployment and then check_profile_manifest.
  pub profile_manifest : String → Option Bool
  pub succeeds : Call → Bool

pub record Report : Type 0 where
  pub call : Option Call
  pub exit_status : ℕ
  pub output : List String

abbrev pub refused : Report
refused = record { call = none; exit_status = 1; output = [] }

-- The container, which defaults to the type; `none` if the type or the component is missing.
unfoldable pub check_dysnomia_activity_parameters :
    Option String → List String → Option String → Option String
check_dysnomia_activity_parameters none paths container = none
check_dysnomia_activity_parameters (some type) [] container = none
check_dysnomia_activity_parameters (some type) (path ∷ rest) container =
    some (or_default type container)

-- `paths[0]`, of an array that ends with NULL.
abbrev pub first : List String → Option String
first [] = none
first (path ∷ rest) = some path

module _ (m : Machine) where
  unfoldable pub print_strv : Call → Report
  print_strv call = elim (m.future_get call) [
    | none ↦ record { call = some call; exit_status = 1; output = [] }
    | some result ↦ record { call = some call; exit_status = 0; output = result }
  ]

  -- `fchmod(...) == 1`.
  abbrev pub is_one : ℤ → Bool
  is_one (pos n) = n == 1
  is_one other = false

  unfoldable pub return_tempfile : Call → Report
  return_tempfile call =
      if m.wait_for_boolean call
      then if is_one (m.fchmod (m.tempfilename call))
        then record { call = some call; exit_status = 1; output = [] }
        else record { call = some call; exit_status = 0; output = m.tempfilename call ∷ [] }
      else record { call = some call; exit_status = 0; output = [] }

  -- procreact_wait_for_exit_status, with what it is given.
  abbrev pub wait_for : Call → Report
  wait_for call = record { call = some call; exit_status = m.exit_status call; output = [] }

  -- The first path, which must be there.
  abbrev pub with_path : List String → (String → Report) → Report
  with_path [] f = refused
  with_path (path ∷ rest) f = f path

  -- The branches that begin with check_dysnomia_activity_parameters: if it returns a container, the
  -- type, which may be NULL, and the first path go with it.
  abbrev pub with_parameters :
      Option String
      → List String
      → Option String
      → (Option String → Option String → String → Report)
      → Report
  with_parameters type paths container f =
      elim (check_dysnomia_activity_parameters type paths container) [
        | none ↦ refused
        | some container ↦ f type (first paths) container
      ]

  -- The branches of OP_LOCK and OP_UNLOCK.
  abbrev pub with_manifest : String → Call → Report
  with_manifest profile call = elim (m.profile_manifest profile) [
    | none ↦ refused
    | some false ↦ refused
    | some true ↦ record {
      call = some call;
      exit_status = if m.succeeds call then 0 else 1;
      output = [];
    }
  ]

  -- The result of return_tempfile is not assigned to `exit_status`.
  abbrev pub ignoring_status : Report → Report
  ignoring_status report = record report { exit_status = 0 }

  abbrev pub tmpdir_of : String
  tmpdir_of = getenv_or m.environment "TMPDIR" "/tmp"

  unfoldable pub run_disnix_activity : Operation → Settings → String → List String → Report
  run_disnix_activity op_import s profile paths =
      with_path paths (λ path. wait_for (pkgmgmt_import_closure path))
  run_disnix_activity op_export s profile paths =
      ignoring_status (return_tempfile (pkgmgmt_export_closure tmpdir_of paths))
  run_disnix_activity op_print_invalid s profile paths =
      print_strv (pkgmgmt_print_invalid_packages paths)
  run_disnix_activity op_realise s profile paths = print_strv (pkgmgmt_realise paths)
  run_disnix_activity op_set s profile paths =
      with_path paths (λ path. wait_for (pkgmgmt_set_profile profile path))
  run_disnix_activity op_query_installed s profile paths = record {
    call = some (print_text_from_profile_manifest profile);
    exit_status = 0;
    output = [];
  }
  run_disnix_activity op_query_requisites s profile paths =
      print_strv (pkgmgmt_query_requisites paths)
  run_disnix_activity op_collect_garbage s profile paths =
      wait_for (pkgmgmt_collect_garbage s.delete_old)
  run_disnix_activity op_activate s profile paths =
      with_parameters s.type paths s.container
        (λ type path container. wait_for (statemgmt_activate type path container s.arguments))
  run_disnix_activity op_deactivate s profile paths =
      with_parameters s.type paths s.container
        (λ type path container. wait_for (statemgmt_deactivate type path container s.arguments))
  run_disnix_activity op_delete_state s profile paths =
      with_parameters s.type paths s.container (λ type path container.
        wait_for (statemgmt_collect_garbage type path container s.arguments))
  run_disnix_activity op_snapshot s profile paths =
      with_parameters s.type paths s.container
        (λ type path container. wait_for (statemgmt_snapshot type path container s.arguments))
  run_disnix_activity op_restore s profile paths =
      with_parameters s.type paths s.container
        (λ type path container. wait_for (statemgmt_restore type path container s.arguments))
  run_disnix_activity op_lock s profile paths =
      with_manifest profile (acquire_locks tmpdir_of profile)
  run_disnix_activity op_unlock s profile paths =
      with_manifest profile (release_locks tmpdir_of profile)
  run_disnix_activity op_query_all_snapshots s profile paths =
      print_strv (statemgmt_query_all_snapshots s.container s.component)
  run_disnix_activity op_query_latest_snapshot s profile paths =
      print_strv (statemgmt_query_latest_snapshot s.container s.component)
  run_disnix_activity op_print_missing_snapshots s profile paths =
      print_strv (statemgmt_print_missing_snapshots paths)
  run_disnix_activity op_import_snapshots s profile paths =
      with_path paths (λ path. wait_for (statemgmt_import_snapshots s.container s.component paths))
  run_disnix_activity op_resolve_snapshots s profile paths =
      with_path paths (λ path. print_strv (statemgmt_resolve_snapshots paths))
  run_disnix_activity op_clean_snapshots s profile paths =
      wait_for
        (statemgmt_clean_snapshots s.keep (or_default "" s.container) (or_default "" s.component))
  run_disnix_activity op_capture_config s profile paths =
      ignoring_status (return_tempfile (statemgmt_capture_config tmpdir_of))
  run_disnix_activity op_shell s profile paths =
      with_parameters s.type paths s.container (λ type path container.
        wait_for (statemgmt_shell type path container s.arguments s.command))
  run_disnix_activity op_none s profile paths = refused

  -- The end of `main`.
  abbrev pub perform : Start → Report
  perform help = record { call = none; exit_status = 0; output = [] }
  perform version = record { call = none; exit_status = 0; output = [] }
  perform misuse = refused
  perform (run s profile derivation) = run_disnix_activity s.operation s profile derivation
