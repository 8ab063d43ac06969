-- ===== src/Migrate/Plan.antt =====
-- src/libmigrate/{snapshot, restore, migrate}.c: the order of the steps of a migration, whatever their
-- results.
use disnix.Prelude.{
  ◌≡◌, Bool, true, false, ◌||◌, not, Option, none, some, List, [], ◌∷◌, ◌++◌, if◌then◌else◌,
}
use disnix.Platform.{Platform, Table}
use disnix.Model.{SnapshotMapping, ManifestService, Manifest}
use disnix.Transition.{Flags}
use disnix.Migrate.{MigrationSteps, previous_services}

-- A step, with the array that it works on and the services that the array refers to.
pub data StepCall : Type 0 where
  snapshot_services snapshot_depth_first restore_services restore_depth_first
        delete_obsolete_state :
      (arr : List SnapshotMapping) (services : Table ManifestService) → StepCall
  retrieve_snapshots send_snapshots : (arr : List SnapshotMapping) → StepCall

-- The result of a step that follows others.
abbrev pub Answer : Type 0
Answer = List StepCall → StepCall → Bool

module _ (answer : Answer) where
  -- The step is recorded and returns its result.
  abbrev pub record_step : StepCall → List StepCall → Bool × List StepCall
  record_step call log = (answer log call, log ++ (call ∷ []))

  abbrev pub recorded_steps : MigrationSteps (List StepCall)
  recorded_steps = record {
    snapshot_services = λ arr services. record_step (snapshot_services arr services);
    retrieve_snapshots = λ arr. record_step (retrieve_snapshots arr);
    snapshot_depth_first = λ arr services. record_step (snapshot_depth_first arr services);
    send_snapshots = λ arr. record_step (send_snapshots arr);
    restore_services = λ arr services. record_step (restore_services arr services);
    restore_depth_first = λ arr services. record_step (restore_depth_first arr services);
    delete_obsolete_state = λ arr services. record_step (delete_obsolete_state arr services);
  }

  -- The steps of a plan in order, up to the first that fails.
  abbrev pub run_plan : List StepCall → List StepCall → Bool × List StepCall
  run_plan [] log = (true, log)
  run_plan (call ∷ rest) log =
      let others = run_plan rest (log ++ (call ∷ [])) in
      if answer log call then others else (false, log ++ (call ∷ []))

  -- A step does what a plan says.
  abbrev Follows : (List StepCall → Bool × List StepCall) → List StepCall → Type 0
  Follows step plan = (log : List StepCall) → step log ≡ run_plan plan log

module _ (p : Platform) (manifest : Manifest) (previous : Option Manifest) (flags : Flags) where
  -- The snapshots of the array are taken, unless they are only transferred, and retrieved.
  abbrev pub plan_to_take : Option (List SnapshotMapping) → List StepCall
  plan_to_take none = []
  plan_to_take (some arr) =
      let services = previous_services p manifest previous in
      if flags.depth_first
      then snapshot_depth_first arr services ∷ []
      else (if flags.transfer_only then [] else snapshot_services arr services ∷ [])
        ++ (retrieve_snapshots arr ∷ [])

  abbrev pub plan_to_restore : List SnapshotMapping → List StepCall
  plan_to_restore arr =
      if flags.depth_first
      then restore_depth_first arr manifest.services_table ∷ []
      else (send_snapshots arr ∷ [])
        ++ (if flags.transfer_only then [] else restore_services arr manifest.services_table ∷ [])

  abbrev pub plan_to_delete : Option Manifest → List StepCall
  plan_to_delete none = []
  plan_to_delete (some old) =
      if not flags.delete_state || flags.no_upgrade
      then []
      else delete_obsolete_state old.snapshot_mapping_array old.services_table ∷ []

  module _ (answer : Answer) where
    abbrev steps : MigrationSteps (List StepCall)
    steps = recorded_steps answer
