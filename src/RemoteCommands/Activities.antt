-- ===== src/RemoteCommands/Activities.antt =====
-- src/libstatemgmt/remote-state-management.c: its command lines, read by the programs on the machines.
use Prim.Native.String.{◌++◌ as concat}
use text.Mathlib.Text.{starts_with}
use disnix.Prelude.{◌≡◌, ◌≢◌, refl, false, none, some, String, List, [], ◌∷◌}
use disnix.Options.Codes
use disnix.Options.Codes.{
  OptionCode, Operation, option_unknown, op_none, op_activate, op_deactivate, op_snapshot,
  op_restore, op_delete_state, op_lock, op_unlock, op_shell, op_capture_config,
}
use disnix.Options.State.{ℤ, Settings, initial_settings, Start, run}
use disnix.Options.Defaults.{Environment, check_profile_option}
use disnix.Options.{Getopt, Item, flag, option, found, IsGetopt, Program, main}
use disnix.RemoteCommands.{
  exec_dysnomia_activity, statemgmt_remote_activate, statemgmt_remote_deactivate,
  statemgmt_remote_snapshot, statemgmt_remote_restore, statemgmt_remote_delete_state,
  lock_or_unlock, statemgmt_remote_lock, statemgmt_remote_unlock,
}
use disnix.RemoteCommands.Reading.{
  program-Reads, target_item, AllSuit, Leads, main-options, main-arguments,
}
use disnix.RemoteCommands.Selection.{name_of, selects}

module _ (program : Program) (getopt : Getopt) (laws : IsGetopt getopt) (atoi : String → ℤ)
    (environment : Environment) where
  abbrev read : List String → Start
  read = main program getopt atoi environment

  -- The settings of an activity on a component, without its arguments.
  abbrev pub component_settings : Operation → String → String → Settings
  component_settings operation container type = record initial_settings {
    operation = operation;
    container = some container;
    type = some type;
  }

  abbrev pub activity : Operation → String → String → List String → String → Start
  activity operation container type arguments service =
      run (record (component_settings operation container type) { arguments = arguments })
        (check_profile_option environment none) (service ∷ [])

  module _ (operation : Operation) (known : operation ≢ op_none) where
    abbrev activity_items : String → String → String → List (Item OptionCode)
    activity_items target container type =
        flag (name_of operation) (selects program atoi operation known).code
        ∷ target_item target
        ∷ option "container" Codes.option_container container
        ∷ option "type" Codes.option_type type
        ∷ []

    activity-AllSuit :
        (target container type : String)
        → AllSuit program atoi (activity_items target container type)
    activity-AllSuit target container type =
        let reads = program-Reads program atoi in
        (
          (selects program atoi operation known).listed,
          (reads.target_listed, (reads.container_listed, (reads.type_listed, tt))),
        )

    activity-Leads :
        (target container type : String)
        → Leads program atoi
            (found option_unknown (activity_items target container type))
            initial_settings
            (component_settings operation container type)
    activity-Leads target container type =
        let reads = program-Reads program atoi in
        (
          _,
          (selects program atoi operation known).selected _ _,
          (_, reads.target_read _ _, (_, reads.container_read _ _, (_, reads.type_read _ _, refl))),
        )

    exec_lem :
        (interface target container type : String) (arguments : List String) (service : String)
        → starts_with service "-" ≡ false
        → read (
            exec_dysnomia_activity
              (concat "--" (name_of operation))
              interface
              target
              container
              type
              arguments
              service)
          ≡ activity operation container type arguments service
    unfolding exec_dysnomia_activity
    exec_lem interface target container type arguments service word =
        main-arguments program atoi getopt laws environment interface
          (activity_items target container type) arguments (service ∷ [])
          (component_settings operation container type) (activity-AllSuit target container type)
          refl (word, tt) (activity-Leads target container type)

  -- For both programs, and a service whose path does not begin with a dash: the command lines by
  -- which the coordinator activates, deactivates, snapshots, restores and deletes the state of a
  -- service are read as that operation on that service, with the container, the type and the
  -- arguments in their order.
  pub main-exec_dysnomia_activity :
      (interface target container type : String) (arguments : List String) (service : String)
      → starts_with service "-" ≡ false
      → (read (statemgmt_remote_activate interface target container type arguments service)
          ≡ activity op_activate container type arguments service)
        × (read (statemgmt_remote_deactivate interface target container type arguments service)
            ≡ activity op_deactivate container type arguments service)
        × (read (statemgmt_remote_snapshot interface target container type arguments service)
            ≡ activity op_snapshot container type arguments service)
        × (read (statemgmt_remote_restore interface target container type arguments service)
            ≡ activity op_restore container type arguments service)
        × (read (statemgmt_remote_delete_state interface target container type arguments service)
            ≡ activity op_delete_state container type arguments service)
  unfolding statemgmt_remote_activate statemgmt_remote_deactivate statemgmt_remote_snapshot
      statemgmt_remote_restore statemgmt_remote_delete_state
  main-exec_dysnomia_activity interface target container type arguments service word = (
    exec_lem op_activate (λ e. cc) interface target container type arguments service word,
    exec_lem op_deactivate (λ e. cc) interface target container type arguments service word,
    exec_lem op_snapshot (λ e. cc) interface target container type arguments service word,
    exec_lem op_restore (λ e. cc) interface target container type arguments service word,
    exec_lem op_delete_state (λ e. cc) interface target container type arguments service word,
  )

  lock_lem :
      (operation : Operation) (known : operation ≢ op_none) (interface target profile : String)
      → read (lock_or_unlock (concat "--" (name_of operation)) interface target profile)
        ≡ run (record initial_settings { operation = operation; profile = some profile }) profile []
  unfolding lock_or_unlock check_profile_option
  lock_lem operation known interface target profile =
      let reads = program-Reads program atoi in
      let selected = selects program atoi operation known in
      main-options program atoi getopt laws environment interface
        (flag (name_of operation) selected.code
          ∷ target_item target
          ∷ option "profile" Codes.option_profile profile
          ∷ [])
        [] (record initial_settings { operation = operation; profile = some profile })
        (selected.listed, (reads.target_listed, (reads.profile_listed, tt))) refl tt
        (_, selected.selected _ _, (_, reads.target_read _ _, (_, reads.profile_read _ _, refl)))

  -- For both programs: the command lines by which the coordinator locks and unlocks a machine are
  -- read as that operation on the profile that it names, whatever the environment says.
  pub main-lock_or_unlock :
      (interface target profile : String)
      → (read (statemgmt_remote_lock interface target profile)
          ≡ run
              (record initial_settings { operation = op_lock; profile = some profile })
              profile
              [])
        × (read (statemgmt_remote_unlock interface target profile)
            ≡ run
                (record initial_settings { operation = op_unlock; profile = some profile })
                profile
                [])
  unfolding statemgmt_remote_lock statemgmt_remote_unlock
  main-lock_or_unlock interface target profile = (
    lock_lem op_lock (λ e. cc) interface target profile,
    lock_lem op_unlock (λ e. cc) interface target profile,
  )
