-- ===== src/Migrate.antt =====
-- src/libmigrate: moving the state of a deployment. snapshot.c, restore.c and migrate.c choose the
-- mappings and the order of the steps; the children of snapshot.c and restore.c run the commands of
-- one target.
pub mod Commands
pub mod Plan
use mathlib.Core.Bool.{◌&&◌, ◌||◌}
use disnix.Prelude.{
  ℕ, ◌≡◌, not, String, Bool, true, false, Option, none, some, List, [], ◌∷◌, ◌++◌, is_some, filter,
  map, if◌then◌else◌,
}
use disnix.Platform.{Platform, Table}
use disnix.Platform.Posix.{ProcReactStatus, ok}
use disnix.Model.{SnapshotMapping, ManifestService, Target, Manifest}
use disnix.Parameters.{find_target_key, MappingParameters, create_mapping_parameters}
use disnix.Snapshots.{subtract_snapshot_mappings, find_snapshot_mappings_per_target}
use disnix.Transition.{Flags}

-- The commands that are run for a mapping of a target.
pub data SnapshotCommand : Type 0 where
  take restore_on :
      (target_key : Option String)
      → (container type : String) → (arguments : List String) → (pkg : String) → SnapshotCommand
  retrieve send :
      (target_key : Option String) → (container component : String) → (all : Bool) → SnapshotCommand
  clean :
      (target_key : Option String) → (keep : ℕ) → (container component : String) → SnapshotCommand

-- How a command ends, given those run before by the same child: its status and its boolean result.
abbrev pub Executor : Type 0
Executor = List SnapshotCommand → SnapshotCommand → ProcReactStatus × Bool

abbrev pub ended_well : ProcReactStatus × Bool → Bool
ended_well (ok, result) = result
ended_well (_, _) = false

-- The loop of a child: the commands in order, up to the first that fails. The result is whether the
-- exit status is 0, and what has been run.
unfoldable pub run_commands :
    Executor → List SnapshotCommand → List SnapshotCommand → Bool × List SnapshotCommand
run_commands execute done [] = (true, done)
run_commands execute done (command ∷ rest) =
    let others = run_commands execute (done ++ command ∷ []) rest in
    if ended_well (execute done command) then others else (false, done ++ command ∷ [])

module _ (p : Platform) (services_table : Table ManifestService) (target : Target)
    (target_key : Option String) (keep : ℕ) (all : Bool) where
  unfoldable pub retrieve_snapshot_mapping : SnapshotMapping → SnapshotCommand
  retrieve_snapshot_mapping m = retrieve target_key m.container m.component all

  unfoldable pub send_snapshot_mapping : SnapshotMapping → SnapshotCommand
  send_snapshot_mapping m = send target_key m.container m.component all

  unfoldable pub clean_snapshot_mapping : SnapshotMapping → SnapshotCommand
  clean_snapshot_mapping m = clean target_key keep m.container m.component

  unfoldable pub take_snapshot_on_target : SnapshotMapping → MappingParameters → SnapshotCommand
  take_snapshot_on_target m params =
      take target_key m.container params.type params.arguments params.service.pkg

  unfoldable pub restore_snapshot_on_target : SnapshotMapping → MappingParameters → SnapshotCommand
  restore_snapshot_on_target m params =
      restore_on target_key m.container params.type params.arguments params.service.pkg

  abbrev pub parameters_of : SnapshotMapping → Option MappingParameters
  parameters_of m =
      create_mapping_parameters p m.service m.container m.container_provided_by_service
        services_table target

  unfoldable pub take_retrieve_and_clean :
      SnapshotMapping → MappingParameters → List SnapshotCommand
  take_retrieve_and_clean m params =
      take_snapshot_on_target m params ∷ retrieve_snapshot_mapping m ∷ clean_snapshot_mapping m ∷ []

  unfoldable pub send_restore_and_clean : SnapshotMapping → MappingParameters → List SnapshotCommand
  send_restore_and_clean m params =
      send_snapshot_mapping m ∷ restore_snapshot_on_target m params ∷ clean_snapshot_mapping m ∷ []

  -- The mappings of a child are those whose target is the target key, not the name of the target.
  abbrev pub mappings_of_child : String → List SnapshotMapping → List SnapshotMapping
  mappings_of_child key arr = find_snapshot_mappings_per_target p arr key

  unfoldable pub retrieve_snapshots_from_target :
      Executor → String → List SnapshotMapping → Bool × List SnapshotCommand
  retrieve_snapshots_from_target execute key arr =
      run_commands execute [] (map retrieve_snapshot_mapping (mappings_of_child key arr))

  unfoldable pub send_snapshots_to_target :
      Executor → String → List SnapshotMapping → Bool × List SnapshotCommand
  send_snapshots_to_target execute key arr =
      run_commands execute [] (map send_snapshot_mapping (mappings_of_child key arr))

  -- The loop of a depth-first child; `none` if a service is not in the table.
  unfoldable pub run_depth_first :
      Executor
      → (SnapshotMapping → MappingParameters → List SnapshotCommand)
      → List SnapshotCommand
      → List SnapshotMapping
      → Option (Bool × List SnapshotCommand)
  run_depth_first execute commands done [] = some (true, done)
  run_depth_first execute commands done (m ∷ rest) = elim (parameters_of m) [
    | none ↦ none
    | some params ↦
        let (success, done') = run_commands execute done (commands m params) in
        let others = run_depth_first execute commands done' rest in
        if success then others else some (false, done')
  ]

  unfoldable pub take_retrieve_and_clean_snapshot_on_target :
      Executor → String → List SnapshotMapping → Option (Bool × List SnapshotCommand)
  take_retrieve_and_clean_snapshot_on_target execute key arr =
      run_depth_first execute take_retrieve_and_clean [] (mappings_of_child key arr)

  unfoldable pub send_restore_and_clean_snapshot_on_target :
      Executor → String → List SnapshotMapping → Option (Bool × List SnapshotCommand)
  send_restore_and_clean_snapshot_on_target execute key arr =
      run_depth_first execute send_restore_and_clean [] (mappings_of_child key arr)

-- The steps that change `W`, the state of the machines, each for an array of mappings and the
-- services that it refers to.
pub record MigrationSteps (W : Type 0) : Type 0 where
  pub snapshot_services : List SnapshotMapping → Table ManifestService → W → Bool × W
  pub retrieve_snapshots : List SnapshotMapping → W → Bool × W
  pub snapshot_depth_first : List SnapshotMapping → Table ManifestService → W → Bool × W
  pub send_snapshots : List SnapshotMapping → W → Bool × W
  pub restore_services : List SnapshotMapping → Table ManifestService → W → Bool × W
  pub restore_depth_first : List SnapshotMapping → Table ManifestService → W → Bool × W
  pub delete_obsolete_state : List SnapshotMapping → Table ManifestService → W → Bool × W

-- `a && b`, where `b` runs only if `a` has returned true.
infixr 6 ◌and◌
abbrev pub ◌and◌ : {W : Type 0} → (W → Bool × W) → (W → Bool × W) → W → Bool × W
◌and◌ a b w = let (result, w') = a w in if result then b w' else (false, w')

-- `flag || b`.
abbrev pub unless : {W : Type 0} → Bool → (W → Bool × W) → W → Bool × W
unless true b w = (true, w)
unless false b w = b w

module _ (p : Platform) where
  -- The arrays that snapshot and restore work on; `none` where snapshot has nothing to do.
  unfoldable pub mappings_to_snapshot :
      Manifest → Option Manifest → Bool → Option (List SnapshotMapping)
  mappings_to_snapshot manifest previous true = some manifest.snapshot_mapping_array
  mappings_to_snapshot manifest none false = none
  mappings_to_snapshot manifest (some previous) false =
      some (
        subtract_snapshot_mappings p previous.snapshot_mapping_array
          manifest.snapshot_mapping_array)

  unfoldable pub mappings_to_restore : Manifest → Option Manifest → Bool → List SnapshotMapping
  mappings_to_restore manifest previous true = manifest.snapshot_mapping_array
  mappings_to_restore manifest none false = manifest.snapshot_mapping_array
  mappings_to_restore manifest (some previous) false =
      subtract_snapshot_mappings p manifest.snapshot_mapping_array previous.snapshot_mapping_array

  abbrev pub previous_services : Manifest → Option Manifest → Table ManifestService
  previous_services manifest none = manifest.services_table
  previous_services manifest (some previous) = previous.services_table

  module _ {W : Type 0} (x : MigrationSteps W) (manifest : Manifest) (previous : Option Manifest)
      (flags : Flags) where
    abbrev pub take_snapshots : List SnapshotMapping → Table ManifestService → W → Bool × W
    take_snapshots arr services =
        if flags.depth_first
        then x.snapshot_depth_first arr services
        else unless flags.transfer_only (x.snapshot_services arr services)
          and x.retrieve_snapshots arr

    unfoldable pub snapshot : W → Bool × W
    snapshot w = elim (mappings_to_snapshot manifest previous flags.no_upgrade) [
      | none ↦ (true, w)
      | some arr ↦ take_snapshots arr (previous_services manifest previous) w
    ]

    abbrev pub restore_snapshots : List SnapshotMapping → Table ManifestService → W → Bool × W
    restore_snapshots arr services =
        if flags.depth_first
        then x.restore_depth_first arr services
        else x.send_snapshots arr and unless flags.transfer_only (x.restore_services arr services)

    unfoldable pub restore : W → Bool × W
    restore =
        restore_snapshots (mappings_to_restore manifest previous flags.no_upgrade)
          manifest.services_table

    abbrev pub delete_previous : Option Manifest → W → Bool × W
    delete_previous none w = (true, w)
    delete_previous (some old) w =
        unless (not flags.delete_state || flags.no_upgrade)
          (x.delete_obsolete_state old.snapshot_mapping_array old.services_table) w

    unfoldable pub migrate : W → Bool × W
    migrate = snapshot and restore and delete_previous previous
