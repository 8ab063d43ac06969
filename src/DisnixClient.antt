-- ===== src/DisnixClient.antt =====
-- src/dbus-service/disnix-client.c: disnix-client, which hands an operation to disnix-service over D-Bus
-- and then waits for a signal about its job.
pub mod Jobs
use disnix.Prelude.{
  ℕ, String, Bool, true, false, Option, none, some, List, [], ◌∷◌, ◌==◌, if◌then◌else◌,
}
use disnix.Options.Codes.{
  Operation, op_none, op_import, op_export, op_print_invalid, op_realise, op_set,
  op_query_installed, op_query_requisites, op_collect_garbage, op_activate, op_deactivate, op_lock,
  op_unlock, op_snapshot, op_restore, op_query_all_snapshots, op_query_latest_snapshot,
  op_print_missing_snapshots, op_import_snapshots, op_resolve_snapshots, op_clean_snapshots,
  op_delete_state, op_capture_config, op_shell,
}
use disnix.Options.Defaults.{or_default}
use disnix.Options.State.{ℤ, Settings}

-- The methods of the service, without the job id that all of them take.
pub data Method : Type 0 where
  call_import : (path : String) → Method
  call_export call_print_invalid call_realise call_query_requisites call_print_missing_snapshots
        call_resolve_snapshots :
      (paths : List String) → Method
  call_set : (profile path : String) → Method
  call_query_installed call_lock call_unlock : (profile : String) → Method
  call_collect_garbage : (delete_old : Bool) → Method
  call_activate call_deactivate call_delete_state call_snapshot call_restore :
      (path container type : String) (arguments : List String) → Method
  call_query_all_snapshots call_query_latest_snapshot :
      (container component : Option String) → Method
  call_import_snapshots : (container component : Option String) (paths : List String) → Method
  call_clean_snapshots : (keep : ℤ) (container component : String) → Method
  call_capture_config : Method

pub data Signal : Type 0 where
  finish success failure : (pid : ℕ) → (paths : List String) → Signal

-- What D-Bus and the service do: whether the connection (to the session bus or not) and the log
-- directory are there, the job id, whether a call succeeds, and the signals that follow the call made,
-- if any, to the main loop.
pub record Bus : Type 0 where
  pub proxy_new : Bool → Bool
  pub get_logdir : Bool
  pub get_job_id : Option ℕ
  pub call : ℕ → Method → Bool
  pub signals : Option Method → List Signal

-- `exited` has the exit status and what was printed; `waiting` is a main loop that no signal ends.
pub data Ending : Type 0 where
  exited : ℕ → List String → Ending
  waiting : Ending

pub record ClientReport : Type 0 where
  pub method : Option Method
  pub ending : Ending

-- The signal handlers: the first signal about the job ends the program.
unfoldable pub main_loop : ℕ → List Signal → Ending
main_loop pid [] = waiting
main_loop pid (finish p paths ∷ rest) = if p == pid then exited 0 [] else main_loop pid rest
main_loop pid (success p paths ∷ rest) = if p == pid then exited 0 paths else main_loop pid rest
main_loop pid (failure p paths ∷ rest) = if p == pid then exited 1 [] else main_loop pid rest

-- What the switch comes to: it returns, it makes a call, or it falls through without one.
pub data Choice : Type 0 where
  leave : Choice
  make : Method → Choice
  no_call : Choice

abbrev pub with_path : List String → (String → Choice) → Choice
with_path [] f = leave
with_path (path ∷ rest) f = f path

-- check_dysnomia_activity_parameters, and the call that is made if it does not return NULL.
unfoldable pub with_parameters :
    Option String → List String → Option String → (String → String → String → Choice) → Choice
with_parameters none paths container f = no_call
with_parameters (some type) [] container f = no_call
with_parameters (some type) (path ∷ rest) container f = f path (or_default type container) type

unfoldable pub choose : Operation → Settings → String → List String → Choice
unfolding with_parameters
choose op_import s profile paths = with_path paths (λ path. make (call_import path))
choose op_export s profile paths = make (call_export paths)
choose op_print_invalid s profile paths = make (call_print_invalid paths)
choose op_realise s profile paths = make (call_realise paths)
choose op_set s profile paths = with_path paths (λ path. make (call_set profile path))
choose op_query_installed s profile paths = make (call_query_installed profile)
choose op_query_requisites s profile paths = make (call_query_requisites paths)
choose op_collect_garbage s profile paths = make (call_collect_garbage s.delete_old)
choose op_activate s profile paths =
    with_parameters s.type paths s.container
      (λ path container type. make (call_activate path container type s.arguments))
choose op_deactivate s profile paths =
    with_parameters s.type paths s.container
      (λ path container type. make (call_deactivate path container type s.arguments))
choose op_delete_state s profile paths =
    with_parameters s.type paths s.container
      (λ path container type. make (call_delete_state path container type s.arguments))
choose op_snapshot s profile paths =
    with_parameters s.type paths s.container
      (λ path container type. make (call_snapshot path container type s.arguments))
choose op_restore s profile paths =
    with_parameters s.type paths s.container
      (λ path container type. make (call_restore path container type s.arguments))
choose op_lock s profile paths = make (call_lock profile)
choose op_unlock s profile paths = make (call_unlock profile)
choose op_query_all_snapshots s profile paths =
    make (call_query_all_snapshots s.container s.component)
choose op_query_latest_snapshot s profile paths =
    make (call_query_latest_snapshot s.container s.component)
choose op_print_missing_snapshots s profile paths = make (call_print_missing_snapshots paths)
choose op_import_snapshots s profile paths =
    with_path paths (λ path. make (call_import_snapshots s.container s.component paths))
choose op_resolve_snapshots s profile paths =
    with_path paths (λ path. make (call_resolve_snapshots paths))
choose op_clean_snapshots s profile paths =
    make (call_clean_snapshots s.keep (or_default "" s.container) (or_default "" s.component))
choose op_capture_config s profile paths = make call_capture_config
choose op_shell s profile paths = leave
choose op_none s profile paths = leave

abbrev pub failed : ClientReport
failed = record { method = none; ending = exited 1 [] }

module _ (bus : Bus) where
  abbrev pub after_switch : ℕ → Choice → ClientReport
  after_switch pid leave = failed
  after_switch pid no_call = record { method = none; ending = main_loop pid (bus.signals none) }
  after_switch pid (make method) =
      if bus.call pid method
      then record { method = some method; ending = main_loop pid (bus.signals (some method)) }
      else record { method = some method; ending = exited 1 [] }

  -- With the job id.
  abbrev pub with_job : Option ℕ → Choice → ClientReport
  with_job none choice = failed
  with_job (some pid) choice = after_switch pid choice

  abbrev pub connected : Operation → Settings → String → List String → ClientReport
  connected operation s profile paths =
      if bus.proxy_new s.session_bus
      then if bus.get_logdir
        then with_job bus.get_job_id (choose operation s profile paths)
        else failed
      else failed

  unfoldable pub run_disnix_client : Operation → Settings → String → List String → ClientReport
  run_disnix_client op_none s profile paths = failed
  run_disnix_client operation s profile paths = connected operation s profile paths
