-- ===== src/Transition.antt =====
-- src/libdeploy/transition.c: the change from one configuration to another, with its rollbacks.
pub mod Keeps
pub mod Rollback
pub mod Upgrade
pub mod Installation
pub mod Termination
pub mod Cores
use disnix.Prelude.{
  ℕ, ◌≡◌, ◌&&◌, not, Bool, true, false, Option, none, some, List, [], ◌∷◌, ◌++◌, String, map,
  filter, lookup, is_some, if◌then◌else◌,
}
use disnix.Platform.{Platform, Table}
use disnix.Platform.Posix.{World, ProcReactStatus, ok}
use disnix.Model.{
  ServiceMapping, ServiceMappingStatus, deactivated, in_progress, activated, error, ManifestService,
  Target, Manifest,
}
use disnix.Parameters.{find_target_key}
use disnix.ServiceMappings.{
  with_status, intersect_service_mapping_array, substract_service_mapping_array,
  unify_service_mapping_array,
}
use disnix.Traverse.{
  Context, MapServiceMapping, traverse_inter_dependency_mappings, traverse_interdependent_mappings,
  traverse_service_mappings,
}
use disnix.Traverse.State.{
  Command, remote, dummy, activate, deactivate, TraverseState, Outcome, returned, Step, return,
  ◌>>=◌, with_pointer,
}

-- The bits of `flags` that the libraries test.
pub record Flags : Type 0 where
  pub no_rollback : Bool
  pub dry_run : Bool
  pub no_lock : Bool
  pub no_migration : Bool
  pub no_upgrade : Bool
  pub delete_state : Bool
  pub transfer_only : Bool
  pub depth_first : Bool

pub data TransitionStatus : Type 0 where
  success failed obsolete_mappings_rollback_failed new_mappings_rollback_failed : TransitionStatus

unfoldable pub activate_mapping : MapServiceMapping
activate_mapping mapping service target type arguments = elim (find_target_key target) [
  | none ↦ none
  | some key ↦
      some
        (remote activate target.client_interface key mapping.container type arguments service.pkg)
]

unfoldable pub dry_run_activate_mapping : MapServiceMapping
dry_run_activate_mapping mapping service target type arguments = some dummy

unfoldable pub deactivate_mapping : MapServiceMapping
deactivate_mapping mapping service target type arguments = elim (find_target_key target) [
  | none ↦ none
  | some key ↦
      some
        (remote deactivate target.client_interface key mapping.container type arguments service.pkg)
]

unfoldable pub dry_run_deactivate_mapping : MapServiceMapping
dry_run_deactivate_mapping mapping service target type arguments = some dummy

unfoldable pub complete_activation : ProcReactStatus → Bool → ServiceMappingStatus
complete_activation ok true = activated
complete_activation _ _ = error

unfoldable pub complete_deactivation : ProcReactStatus → Bool → ServiceMappingStatus
complete_deactivation ok true = deactivated
complete_deactivation _ _ = error

abbrev pub unless_error : ServiceMappingStatus → ServiceMappingStatus → ServiceMappingStatus
unless_error status error = status
unless_error status other = other

unfoldable pub mark_erroneous_mappings :
    ServiceMappingStatus → List ServiceMapping → List ServiceMapping
mark_erroneous_mappings status = map (λ m. with_status (unless_error status m.status) m)

-- The first table is inserted whole, then what it lacks of the second.
unfoldable pub generate_union_services_table :
    Table ManifestService → Table ManifestService → Table ManifestService
generate_union_services_table left right =
    left ++ filter (λ entry. not (is_some (lookup entry.0 left))) right

-- What the steps of a transition share: the fuel bounds the depth of the dependencies and the rounds
-- of each traversal.
pub record Setting : Type 1 where
  pub platform : Platform
  pub world : World
  pub services_table : Table ManifestService
  pub activate_mapping_function : MapServiceMapping
  pub deactivate_mapping_function : MapServiceMapping
  pub depth : ℕ
  pub rounds : ℕ

abbrev pub activation : Setting → Context
activation t = record {
  platform = t.platform;
  world = t.world;
  services_table = t.services_table;
  map_service_mapping = t.activate_mapping_function;
  complete_service_mapping = complete_activation;
}

abbrev pub deactivation : Setting → Context
deactivation t = record {
  platform = t.platform;
  world = t.world;
  services_table = t.services_table;
  map_service_mapping = t.deactivate_mapping_function;
  complete_service_mapping = complete_deactivation;
}

module _ (t : Setting) where
  unfoldable pub activate_array : List ServiceMapping → Step Bool
  activate_array =
      traverse_service_mappings (activation t) t.rounds
        (traverse_inter_dependency_mappings (activation t) t.depth)

  unfoldable pub deactivate_array : List ServiceMapping → Step Bool
  deactivate_array =
      traverse_service_mappings (deactivation t) t.rounds
        (traverse_interdependent_mappings (deactivation t) t.depth)

  unfoldable pub rollback_to_old_mappings : List ServiceMapping → Step Bool
  rollback_to_old_mappings old s =
      activate_array old (record s { mappings = mark_erroneous_mappings activated s.mappings })

  unfoldable pub rollback_new_mappings : List ServiceMapping → Step Bool
  rollback_new_mappings array s =
      deactivate_array array
        (record s { mappings = mark_erroneous_mappings deactivated s.mappings })

  -- The flag is read when the traversal has returned.
  unfoldable pub unless_interrupted : Bool → Step Bool
  unless_interrupted done s = (returned (done && not (t.world.interrupted s.tick)), s)

  abbrev pub old_rollback_status : Bool → TransitionStatus
  old_rollback_status true = failed
  old_rollback_status false = obsolete_mappings_rollback_failed

  -- The branch of deactivate_obsolete_mappings that is taken when the deactivation has failed.
  unfoldable pub recover_obsolete : Option (List ServiceMapping) → Flags → Step TransitionStatus
  recover_obsolete old flags =
      if flags.no_rollback
      then return failed
      else with_pointer old (λ mappings.
        rollback_to_old_mappings mappings >>= λ restored. return (old_rollback_status restored))

  abbrev pub or_recover : Step TransitionStatus → Bool → Step TransitionStatus
  or_recover recover true = return success
  or_recover recover false = recover

  unfoldable pub deactivate_obsolete_mappings :
      Option (List ServiceMapping) → Option (List ServiceMapping) → Flags → Step TransitionStatus
  deactivate_obsolete_mappings none old flags = return success
  deactivate_obsolete_mappings (some array) old flags = deactivate_array array >>= λ done.
      unless_interrupted done >>= or_recover (recover_obsolete old flags)

  -- After the rollback of the new mappings.
  unfoldable pub restore_old : Option (List ServiceMapping) → Bool → Step TransitionStatus
  restore_old old false = return new_mappings_rollback_failed
  restore_old none true = return failed
  restore_old (some mappings) true =
      rollback_to_old_mappings mappings >>= λ restored. return (old_rollback_status restored)

  -- The branch of activate_new_mappings that is taken when the activation has failed.
  unfoldable pub recover_new :
      List ServiceMapping → Option (List ServiceMapping) → Flags → Step TransitionStatus
  recover_new array old flags =
      if flags.no_rollback then return failed else (rollback_new_mappings array >>= restore_old old)

  unfoldable pub activate_new_mappings :
      List ServiceMapping → Option (List ServiceMapping) → Flags → Step TransitionStatus
  activate_new_mappings array old flags = activate_array array >>= λ done.
      unless_interrupted done >>= or_recover (recover_new array old flags)

  abbrev pub if_success : Step TransitionStatus → TransitionStatus → Step TransitionStatus
  if_success next success = next
  if_success next status = return status

  -- The two phases of `transition`, on the arrays that it has computed.
  unfoldable pub execute_transition :
      Option (List ServiceMapping)
      → List ServiceMapping
      → Option (List ServiceMapping)
      → Flags
      → Step TransitionStatus
  execute_transition deactivations activations old flags =
      deactivate_obsolete_mappings deactivations old flags
      >>= if_success (activate_new_mappings activations old flags)

module _ (p : Platform) (w : World) (depth rounds : ℕ) where
  abbrev pub setting : Table ManifestService → Flags → Setting
  setting services flags = record {
    platform = p;
    world = w;
    services_table = services;
    activate_mapping_function =
        if flags.dry_run then dry_run_activate_mapping else activate_mapping;
    deactivate_mapping_function =
        if flags.dry_run then dry_run_deactivate_mapping else deactivate_mapping;
    depth = depth;
    rounds = rounds;
  }

  -- The state comes in with the targets of the new manifest; its mappings become the unified array.
  unfoldable pub transition : Manifest → Option Manifest → Flags → Step TransitionStatus
  transition manifest none flags s =
      execute_transition (setting manifest.services_table flags) none manifest.service_mapping_array
        none flags (record s { mappings = manifest.service_mapping_array })
  transition manifest (some previous) flags s =
      let new = manifest.service_mapping_array in
      let old = previous.service_mapping_array in
      let intersection = intersect_service_mapping_array p new old in
      let services =
        generate_union_services_table manifest.services_table previous.services_table in
      execute_transition (setting services flags)
        (some (substract_service_mapping_array p old intersection))
        (substract_service_mapping_array p new intersection) (some old) flags
        (record s { mappings = unify_service_mapping_array p old new intersection })
