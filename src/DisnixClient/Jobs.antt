-- ===== src/DisnixClient/Jobs.antt =====
-- src/dbus-service/disnix-client.c: which method a job calls, and when the program ends.
use text.Mathlib.Text.{starts_with}
use disnix.Prelude.{
  ℕ, ◌≡◌, refl, ap, ◌∙◌, Bool-cases, Bool, true, false, Option, none, some, String, List, [], ◌∷◌,
  ◌==◌, ◌⊎◌, inl, inr, All,
}
use disnix.Options.Codes.{
  Operation, op_activate, op_deactivate, op_delete_state, op_snapshot, op_restore,
}
use disnix.Options.State.{ℤ, Settings, Start, run, help, version, misuse}
use disnix.Options.Defaults.{Environment, check_profile_option}
use disnix.Options.{Getopt, IsGetopt, disnix_client, main}
use disnix.RemoteCommands.{
  statemgmt_remote_activate, statemgmt_remote_deactivate, statemgmt_remote_snapshot,
  statemgmt_remote_restore, statemgmt_remote_delete_state,
}
use disnix.RemoteCommands.Activities.{component_settings, main-exec_dysnomia_activity}
use disnix.DisnixClient.{
  Method, call_activate, call_deactivate, call_delete_state, call_snapshot, call_restore, Signal,
  finish, success, failure, Bus, exited, waiting, ClientReport, main_loop, with_parameters, choose,
  failed, run_disnix_client, connected, after_switch, Choice, no_call, make,
}

abbrev pub pid_of : Signal → ℕ
pid_of (finish pid paths) = pid
pid_of (success pid paths) = pid
pid_of (failure pid paths) = pid

-- disnix-service signals the end of a job only after a call for it.
pub record IsBus (bus : Bus) : Type 0 where
  pub silent :
      (pid : ℕ)
      → bus.get_job_id ≡ some pid
      → All (λ signal. (pid_of signal == pid) ≡ false) (bus.signals none)

main_loop-waiting :
    (pid : ℕ) (signals : List Signal)
    → All (λ signal. (pid_of signal == pid) ≡ false) signals
    → main_loop pid signals ≡ waiting
unfolding main_loop
main_loop-waiting pid [] h = refl
main_loop-waiting pid (finish p paths ∷ rest) h = rw h.0 (main_loop-waiting pid rest h.1)
main_loop-waiting pid (success p paths ∷ rest) h = rw h.0 (main_loop-waiting pid rest h.1)
main_loop-waiting pid (failure p paths ∷ rest) h = rw h.0 (main_loop-waiting pid rest h.1)

-- The operations on a component that the service has.
abbrev pub is_remote_activity : Operation → Bool
is_remote_activity op_activate = true
is_remote_activity op_deactivate = true
is_remote_activity op_delete_state = true
is_remote_activity op_snapshot = true
is_remote_activity op_restore = true
is_remote_activity other = false

with_parameters-no_call :
    (type : Option String) (paths : List String) (container : Option String)
    (f : String → String → String → Choice)
    → (type ≡ none) ⊎ (paths ≡ [])
    → with_parameters type paths container f ≡ no_call
unfolding with_parameters
with_parameters-no_call none paths container f h = refl
with_parameters-no_call (some type) [] container f h = refl
with_parameters-no_call (some type) (path ∷ rest) container f (inl e) = cc
with_parameters-no_call (some type) (path ∷ rest) container f (inr e) = cc

-- The service is reached, and gives the job this id.
pub record Reached (bus : Bus) (session_bus : Bool) (pid : ℕ) : Type 0 where
  pub proxy : bus.proxy_new session_bus ≡ true
  pub logdir : bus.get_logdir ≡ true
  pub job : bus.get_job_id ≡ some pid

module _ (bus : Bus) (pid : ℕ) (s : Settings) (reached : Reached bus s.session_bus pid)
    (profile : String) (paths : List String) where
  connected-after_switch :
      (operation : Operation)
      → connected bus operation s profile paths
        ≡ after_switch bus pid (choose operation s profile paths)
  connected-after_switch operation = rw (reached.proxy, reached.logdir, reached.job) refl

  connected-no_call :
      (laws : IsBus bus) (operation : Operation)
      → choose operation s profile paths ≡ no_call
      → connected bus operation s profile paths ≡ record { method = none; ending = waiting }
  connected-no_call laws operation e =
      connected-after_switch operation
      ∙ ap (after_switch bus pid) e
      ∙ ap (λ ending. record { method = none; ending = ending })
          (main_loop-waiting pid (bus.signals none) (laws.silent pid reached.job))

  -- When the service is reached, and signals the end of a job only after a call for it: an
  -- operation on a component without a type or without a path makes disnix-client wait in its main
  -- loop for a job that it has not called for, and it does not end.
  pub run_disnix_client-waiting :
      IsBus bus
      → (operation : Operation) → is_remote_activity operation ≡ true
      → (s.type ≡ none) ⊎ (paths ≡ [])
      → run_disnix_client bus operation s profile paths ≡ record { method = none; ending = waiting }
  unfolding run_disnix_client choose
  run_disnix_client-waiting laws op_activate e missing =
      connected-no_call laws op_activate
        (with_parameters-no_call s.type paths s.container _ missing)
  run_disnix_client-waiting laws op_deactivate e missing =
      connected-no_call laws op_deactivate
        (with_parameters-no_call s.type paths s.container _ missing)
  run_disnix_client-waiting laws op_delete_state e missing =
      connected-no_call laws op_delete_state
        (with_parameters-no_call s.type paths s.container _ missing)
  run_disnix_client-waiting laws op_snapshot e missing =
      connected-no_call laws op_snapshot
        (with_parameters-no_call s.type paths s.container _ missing)
  run_disnix_client-waiting laws op_restore e missing =
      connected-no_call laws op_restore (with_parameters-no_call s.type paths s.container _ missing)
  run_disnix_client-waiting laws _ e missing = cc

-- The end of `main`.
abbrev pub perform : Bus → Start → ClientReport
perform bus help = record { method = none; ending = exited 0 [] }
perform bus version = record { method = none; ending = exited 0 [] }
perform bus misuse = failed
perform bus (run s profile derivation) = run_disnix_client bus s.operation s profile derivation

-- disnix-client, given a command line.
abbrev pub hand_on : Bus → Getopt → (String → ℤ) → Environment → List String → ClientReport
hand_on bus getopt atoi environment argv =
    perform bus (main disnix_client getopt atoi environment argv)

module _ (bus : Bus) (pid : ℕ) (reached : Reached bus false pid) (getopt : Getopt)
    (laws : IsGetopt getopt) (atoi : String → ℤ) (environment : Environment) where
  after_switch-make : (method : Method) → (after_switch bus pid (make method)).method ≡ some method
  after_switch-make method = elim (Bool-cases (bus.call pid method)) [
    | inl e ↦ rw e refl
    | inr e ↦ rw e refl
  ]

  made :
      (operation : Operation) (s : Settings) (profile : String) (paths : List String)
      (method : Method)
      → s.session_bus ≡ false
      → choose operation s profile paths ≡ make method
      → (connected bus operation s profile paths).method ≡ some method
  made operation s profile paths method system e =
      let reached' : Reached bus s.session_bus pid = rw system reached in
      ap (λ (report : ClientReport). report.method)
        (connected-after_switch bus pid s reached' profile paths operation
          ∙ ap (after_switch bus pid) e)
      ∙ after_switch-make method

  -- When the service is reached on the system bus, and for a service whose path does not begin with
  -- a dash: each command line by which the coordinator activates, deactivates, snapshots, restores
  -- or deletes the state of a service makes disnix-client call that method, with the service, the
  -- container, the type and the arguments in their order.
  pub hand_on-exec_dysnomia_activity :
      (interface target container type : String) (arguments : List String) (service : String)
      → starts_with service "-" ≡ false
      → ((hand_on bus getopt atoi environment
            (statemgmt_remote_activate interface target container type arguments service)).method
          ≡ some (call_activate service container type arguments))
        × ((hand_on bus getopt atoi environment (
              statemgmt_remote_deactivate interface target container type arguments service)).method
            ≡ some (call_deactivate service container type arguments))
        × ((hand_on bus getopt atoi environment
              (statemgmt_remote_snapshot interface target container type arguments service)).method
            ≡ some (call_snapshot service container type arguments))
        × ((hand_on bus getopt atoi environment
              (statemgmt_remote_restore interface target container type arguments service)).method
            ≡ some (call_restore service container type arguments))
        × ((hand_on bus getopt atoi environment (
              statemgmt_remote_delete_state interface target container type arguments
                service)).method
            ≡ some (call_delete_state service container type arguments))
  unfolding run_disnix_client choose with_parameters
  hand_on-exec_dysnomia_activity interface target container type arguments service word =
      let (a, d, s, r, x) =
        main-exec_dysnomia_activity disnix_client getopt laws atoi environment interface target
          container type arguments service word in
      let settings : Operation → Settings = λ operation.
        record (component_settings disnix_client getopt laws atoi environment operation container
          type) { arguments = arguments } in
      let profile : String = check_profile_option environment none in
      let words : List String = service ∷ [] in
      let method_of : Start → Option Method = λ start. (perform bus start).method in
      (
        ap method_of a ∙ made op_activate (settings op_activate) profile words _ refl refl,
        ap method_of d ∙ made op_deactivate (settings op_deactivate) profile words _ refl refl,
        ap method_of s ∙ made op_snapshot (settings op_snapshot) profile words _ refl refl,
        ap method_of r ∙ made op_restore (settings op_restore) profile words _ refl refl,
        ap method_of x ∙ made op_delete_state (settings op_delete_state) profile words _ refl refl,
      )
