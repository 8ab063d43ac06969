-- ===== src/Tests/Installation.antt =====
-- The installation of the old configuration of the example from scratch.
use disnix.Prelude.{◌≡◌, ◌+◌, ◌≤◌, lookup, refl, true, none, some, arith}
use disnix.Platform.Posix.{World}
use disnix.Model.{
  deactivated, activated, compare_interdependency_mappings, compare_service_mappings,
}
use disnix.Model.Keys.{same_dependency}
use disnix.ServiceMappings.Plan.{has_status}
use disnix.Traverse.State.{TraverseState, Outcome, returned}
use disnix.ServiceMappings.{
  find_interdependency_mapping, find_service_mapping, intersect_service_mapping_array,
  substract_service_mapping_array, unify_service_mapping_array,
}
use disnix.Transition.{
  TransitionStatus, success, failed, activate_mapping, deactivate_mapping, complete_activation,
  complete_deactivation, mark_erroneous_mappings, generate_union_services_table, activate_array,
  deactivate_array, rollback_to_old_mappings, rollback_new_mappings, unless_interrupted,
  recover_obsolete, deactivate_obsolete_mappings, restore_old, recover_new, activate_new_mappings,
  execute_transition, transition,
}
use disnix.Tests.Strings.{strcmp}
use disnix.Tests.Sorting.{insert, insertion_sort, linear_search}
use disnix.Traverse.{
  find_interdependent_service_mappings, spawn, record_pid, start_process, start_mapping,
  attempt_to_map_service_mapping, complete_process, wait_for_service_mapping_to_complete, visit_all,
  activate_mapping_at, traverse_inter_dependency_mappings, deactivate_mapping_at,
  traverse_interdependent_mappings, visit_round, traverse_rounds, traverse_service_mappings,
}
use disnix.Parameters.{
  find_target_key, request_available_target_core, signal_available_target_core, determine_type,
  generate_activation_arguments_for_target, generate_activation_arguments_for_container_service,
  generate_activation_arguments, create_mapping_parameters,
}
use disnix.Transition.Upgrade.{HasSortedDependencies}
use disnix.Transition.Installation.{install-success, install-rollback}
use disnix.Transition.Cores.{transition-cores}
use disnix.Traverse.Running.{running}
use disnix.ServiceMappings.{keys}
use disnix.Tests.Checks.{lookup-All, sorted-HasSortedDependencies}
use disnix.Tests.Machine.{platform, platform-IsPlatform, calm, failing_at}
use disnix.Tests.Upgrade.{
  database_key, old_manifest, no_flags, start, machine, machines, old_sorted, old-IsUnique,
}

abbrev install : World → Outcome TransitionStatus × TraverseState
install w = transition platform w 3 5 old_manifest none no_flags start

services_sorted : HasSortedDependencies platform old_manifest.services_table
services_sorted =
    sorted-HasSortedDependencies platform old_manifest.services_table (tt, ((tt, tt), tt))

install_succeeds : (install calm).0 ≡ returned success
unfolding strcmp insert insertion_sort linear_search compare_interdependency_mappings
    compare_service_mappings find_interdependency_mapping find_service_mapping
    intersect_service_mapping_array substract_service_mapping_array unify_service_mapping_array
    find_interdependent_service_mappings spawn record_pid start_process start_mapping
    attempt_to_map_service_mapping complete_process wait_for_service_mapping_to_complete visit_all
    activate_mapping_at traverse_inter_dependency_mappings deactivate_mapping_at
    traverse_interdependent_mappings visit_round traverse_rounds traverse_service_mappings
    activate_mapping deactivate_mapping complete_activation complete_deactivation
    mark_erroneous_mappings generate_union_services_table activate_array deactivate_array
    rollback_to_old_mappings rollback_new_mappings unless_interrupted recover_obsolete
    deactivate_obsolete_mappings restore_old recover_new activate_new_mappings execute_transition
    transition find_target_key request_available_target_core signal_available_target_core
    determine_type generate_activation_arguments_for_target
    generate_activation_arguments_for_container_service generate_activation_arguments
    create_mapping_parameters
install_succeeds = refl

cores_given_back : lookup "a" (install calm).1.targets ≡ some machine
unfolding strcmp insert insertion_sort linear_search compare_interdependency_mappings
    compare_service_mappings find_interdependency_mapping find_service_mapping
    intersect_service_mapping_array substract_service_mapping_array unify_service_mapping_array
    find_interdependent_service_mappings spawn record_pid start_process start_mapping
    attempt_to_map_service_mapping complete_process wait_for_service_mapping_to_complete visit_all
    activate_mapping_at traverse_inter_dependency_mappings deactivate_mapping_at
    traverse_interdependent_mappings visit_round traverse_rounds traverse_service_mappings
    activate_mapping deactivate_mapping complete_activation complete_deactivation
    mark_erroneous_mappings generate_union_services_table activate_array deactivate_array
    rollback_to_old_mappings rollback_new_mappings unless_interrupted recover_obsolete
    deactivate_obsolete_mappings restore_old recover_new activate_new_mappings execute_transition
    transition find_target_key request_available_target_core signal_available_target_core
    determine_type generate_activation_arguments_for_target
    generate_activation_arguments_for_container_service generate_activation_arguments
    create_mapping_parameters
cores_given_back = refl

-- The database fails to start.
install_fails : (install (failing_at 1)).0 ≡ returned failed
unfolding strcmp insert insertion_sort linear_search compare_interdependency_mappings
    compare_service_mappings find_interdependency_mapping find_service_mapping
    intersect_service_mapping_array substract_service_mapping_array unify_service_mapping_array
    find_interdependent_service_mappings spawn record_pid start_process start_mapping
    attempt_to_map_service_mapping complete_process wait_for_service_mapping_to_complete visit_all
    activate_mapping_at traverse_inter_dependency_mappings deactivate_mapping_at
    traverse_interdependent_mappings visit_round traverse_rounds traverse_service_mappings
    activate_mapping deactivate_mapping complete_activation complete_deactivation
    mark_erroneous_mappings generate_union_services_table activate_array deactivate_array
    rollback_to_old_mappings rollback_new_mappings unless_interrupted recover_obsolete
    deactivate_obsolete_mappings restore_old recover_new activate_new_mappings execute_transition
    transition find_target_key request_available_target_core signal_available_target_core
    determine_type generate_activation_arguments_for_target
    generate_activation_arguments_for_container_service generate_activation_arguments
    create_mapping_parameters
install_fails = refl

install-success_example : has_status database_key activated (install calm).1.mappings ≡ true
unfolding same_dependency
install-success_example =
    install-success platform calm 3 5 platform-IsPlatform old_manifest no_flags old_sorted
      old-IsUnique services_sorted (refl, (refl, tt)) start database_key install_succeeds refl

install-rollback_example :
    has_status database_key deactivated (install (failing_at 1)).1.mappings ≡ true
unfolding same_dependency
install-rollback_example =
    install-rollback platform (failing_at 1) 3 5 platform-IsPlatform old_manifest no_flags
      old_sorted old-IsUnique services_sorted (refl, (refl, tt)) start database_key install_fails
      refl refl

transition-cores_example :
    machine.available_cores
      + running (keys (install calm).1.mappings) "a" (install calm).1.pid_table
    ≤ machine.num_of_cores
transition-cores_example =
    transition-cores platform calm 3 5 old_manifest none no_flags start refl
      (lookup-All (λ t. t.available_cores ≤ t.num_of_cores) machines
        (omega arith, (omega arith, tt)))
      "a" machine cores_given_back
