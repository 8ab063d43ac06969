-- ===== src/Tests/Upgrade.antt =====
-- An upgrade of two machines: the database stays, the old web application makes way for a new one
-- that depends on the database.
use disnix.Prelude.{String, ◌≡◌, refl, Memᴰ, List, [], ◌∷◌, none, some, true, false}
use disnix.Platform.{Table, string}
use disnix.Platform.Posix.{World}
use disnix.Model.{
  InterDependencyMapping, ServiceMapping, deactivated, activated, ManifestService, Target, Manifest,
  compare_interdependency_mappings, compare_service_mappings,
}
use disnix.ServiceMappings.{
  IsSortedArray, find_interdependency_mapping, find_service_mapping,
  intersect_service_mapping_array, substract_service_mapping_array, unify_service_mapping_array,
}
use disnix.ServiceMappings.Unique.{IsUnique}
use disnix.Model.Keys.{same_dependency}
use disnix.Transition.Upgrade.{
  IsClosed, HasSortedDependencies, services, transition-dependencies, transition-success,
  transition-rollback,
}
use disnix.Tests.Strings.{strcmp}
use disnix.Tests.Sorting.{insert, insertion_sort, linear_search}
use disnix.Tests.Checks.{all_unique-IsUnique, IsClosed-check, sorted-HasSortedDependencies}
use disnix.ServiceMappings.Plan.{has_status}
use disnix.Traverse.State.{TraverseState, Outcome, returned}
use disnix.Transition.{
  Flags, TransitionStatus, success, failed, activate_mapping, deactivate_mapping,
  complete_activation, complete_deactivation, mark_erroneous_mappings,
  generate_union_services_table, activate_array, deactivate_array, rollback_to_old_mappings,
  rollback_new_mappings, unless_interrupted, recover_obsolete, deactivate_obsolete_mappings,
  restore_old, recover_new, activate_new_mappings, execute_transition, transition,
}
use disnix.Traverse.{
  find_interdependent_service_mappings, spawn, record_pid, start_process, start_mapping,
  attempt_to_map_service_mapping, complete_process, wait_for_service_mapping_to_complete, visit_all,
  activate_mapping_at, traverse_inter_dependency_mappings, deactivate_mapping_at,
  traverse_interdependent_mappings, visit_round, traverse_rounds, traverse_service_mappings,
}
use disnix.Parameters.{
  find_target_key, request_available_target_core, signal_available_target_core, determine_type,
  generate_activation_arguments_for_target, generate_activation_arguments_for_container_service,
  generate_activation_arguments, create_mapping_parameters,
}
use disnix.Tests.Machine.{platform, platform-IsPlatform, calm, failing_at}

abbrev pub database_key : InterDependencyMapping
database_key = record { service = "s1"; container = "mysql"; target = "a" }

abbrev pub deployed : String → String → String → ServiceMapping
deployed service container target = record {
  service = service;
  container = container;
  target = target;
  container_provided_by_service = none;
  status = deactivated;
}

abbrev pub service : String → List InterDependencyMapping → ManifestService
service name depends_on = record {
  name = name;
  pkg = name;
  type = "process";
  depends_on = depends_on;
  connects_to = [];
  provides_containers_table = [];
}

abbrev pub machine : Target
machine = record {
  properties_table = ("hostname", string "h") ∷ [];
  containers_table = ("mysql", []) ∷ ("web", []) ∷ [];
  system = none;
  client_interface = "ssh";
  target_property = "hostname";
  num_of_cores = 1;
  available_cores = 1;
}

abbrev pub machines : Table Target
machines = ("a", machine) ∷ ("b", machine) ∷ []

abbrev pub old_manifest : Manifest
old_manifest = record {
  profile_mapping_table = ("a", "p1") ∷ ("b", "p2") ∷ [];
  services_table = ("s1", service "db" []) ∷ ("s2", service "shop" (database_key ∷ [])) ∷ [];
  service_mapping_array = deployed "s1" "mysql" "a" ∷ deployed "s2" "web" "b" ∷ [];
  snapshot_mapping_array = [];
  targets_table = machines;
}

abbrev pub new_manifest : Manifest
new_manifest = record {
  profile_mapping_table = ("a", "p3") ∷ ("b", "p4") ∷ [];
  services_table = ("s1", service "db" []) ∷ ("s3", service "shop2" (database_key ∷ [])) ∷ [];
  service_mapping_array = deployed "s1" "mysql" "a" ∷ deployed "s3" "web" "b" ∷ [];
  snapshot_mapping_array = [];
  targets_table = machines;
}

abbrev pub no_flags : Flags
no_flags = record {
  no_rollback = false;
  dry_run = false;
  no_lock = false;
  no_migration = false;
  no_upgrade = false;
  delete_state = false;
  transfer_only = false;
  depth_first = false;
}

abbrev pub start : TraverseState
start = record {
  mappings = [];
  targets = machines;
  pid_table = [];
  children = [];
  tick = 0;
  log = [];
}

abbrev upgrade : World → Outcome TransitionStatus × TraverseState
upgrade w = transition platform w 3 5 new_manifest (some old_manifest) no_flags start

abbrev pub old : List ServiceMapping
old = old_manifest.service_mapping_array

abbrev pub new : List ServiceMapping
new = new_manifest.service_mapping_array

abbrev pub union : Table ManifestService
union = services platform calm 3 5 platform-IsPlatform new_manifest old_manifest no_flags

pub old_sorted : IsSortedArray platform old
unfolding compare_interdependency_mappings strcmp
old_sorted = ((cc, tt), (tt, tt))

pub new_sorted : IsSortedArray platform new
unfolding compare_interdependency_mappings strcmp
new_sorted = ((cc, tt), (tt, tt))

pub old-IsUnique : IsUnique old
unfolding same_dependency
old-IsUnique = all_unique-IsUnique old refl

pub new-IsUnique : IsUnique new
unfolding same_dependency
new-IsUnique = all_unique-IsUnique new refl

union_sorted : HasSortedDependencies platform union
unfolding generate_union_services_table
union_sorted = sorted-HasSortedDependencies platform union (tt, ((tt, tt), ((tt, tt), tt)))

old-IsClosed : IsClosed union old
unfolding generate_union_services_table same_dependency
old-IsClosed = IsClosed-check union old (tt, ((refl, tt), tt))

-- The calm upgrade succeeds, and the one whose new service fails to start is rolled back.
upgrade_succeeds : (upgrade calm).0 ≡ returned success
unfolding strcmp insert insertion_sort linear_search compare_interdependency_mappings
    compare_service_mappings find_interdependency_mapping find_service_mapping
    intersect_service_mapping_array substract_service_mapping_array unify_service_mapping_array
    find_interdependent_service_mappings spawn record_pid start_process start_mapping
    attempt_to_map_service_mapping complete_process wait_for_service_mapping_to_complete visit_all
    activate_mapping_at traverse_inter_dependency_mappings deactivate_mapping_at
    traverse_interdependent_mappings visit_round traverse_rounds traverse_service_mappings
    activate_mapping deactivate_mapping complete_activation complete_deactivation
    mark_erroneous_mappings generate_union_services_table activate_array deactivate_array
    rollback_to_old_mappings rollback_new_mappings unless_interrupted recover_obsolete
    deactivate_obsolete_mappings restore_old recover_new activate_new_mappings execute_transition
    transition find_target_key request_available_target_core signal_available_target_core
    determine_type generate_activation_arguments_for_target
    generate_activation_arguments_for_container_service generate_activation_arguments
    create_mapping_parameters
upgrade_succeeds = refl

rolled_back : (upgrade (failing_at 4)).0 ≡ returned failed
unfolding strcmp insert insertion_sort linear_search compare_interdependency_mappings
    compare_service_mappings find_interdependency_mapping find_service_mapping
    intersect_service_mapping_array substract_service_mapping_array unify_service_mapping_array
    find_interdependent_service_mappings spawn record_pid start_process start_mapping
    attempt_to_map_service_mapping complete_process wait_for_service_mapping_to_complete visit_all
    activate_mapping_at traverse_inter_dependency_mappings deactivate_mapping_at
    traverse_interdependent_mappings visit_round traverse_rounds traverse_service_mappings
    activate_mapping deactivate_mapping complete_activation complete_deactivation
    mark_erroneous_mappings generate_union_services_table activate_array deactivate_array
    rollback_to_old_mappings rollback_new_mappings unless_interrupted recover_obsolete
    deactivate_obsolete_mappings restore_old recover_new activate_new_mappings execute_transition
    transition find_target_key request_available_target_core signal_available_target_core
    determine_type generate_activation_arguments_for_target
    generate_activation_arguments_for_container_service generate_activation_arguments
    create_mapping_parameters
rolled_back = refl

shop_activated :
    has_status
      (record { service = "s2"; container = "web"; target = "b" })
      activated
      (upgrade (failing_at 4)).1.mappings
    ≡ true
unfolding strcmp insert insertion_sort linear_search compare_interdependency_mappings
    compare_service_mappings find_interdependency_mapping find_service_mapping
    intersect_service_mapping_array substract_service_mapping_array unify_service_mapping_array
    find_interdependent_service_mappings spawn record_pid start_process start_mapping
    attempt_to_map_service_mapping complete_process wait_for_service_mapping_to_complete visit_all
    activate_mapping_at traverse_inter_dependency_mappings deactivate_mapping_at
    traverse_interdependent_mappings visit_round traverse_rounds traverse_service_mappings
    activate_mapping deactivate_mapping complete_activation complete_deactivation
    mark_erroneous_mappings generate_union_services_table activate_array deactivate_array
    rollback_to_old_mappings rollback_new_mappings unless_interrupted recover_obsolete
    deactivate_obsolete_mappings restore_old recover_new activate_new_mappings execute_transition
    transition find_target_key request_available_target_core signal_available_target_core
    determine_type generate_activation_arguments_for_target
    generate_activation_arguments_for_container_service generate_activation_arguments
    create_mapping_parameters same_dependency
shop_activated = refl

transition-success_example :
    has_status
      (record { service = "s3"; container = "web"; target = "b" })
      activated
      (upgrade calm).1.mappings
    ≡ true
unfolding same_dependency
transition-success_example =
    transition-success platform calm 3 5 platform-IsPlatform new_manifest old_manifest no_flags
      old_sorted new_sorted old-IsUnique new-IsUnique union_sorted old-IsClosed start
      (record { service = "s3"; container = "web"; target = "b" }) upgrade_succeeds refl refl

transition-rollback_example :
    has_status
      (record { service = "s2"; container = "web"; target = "b" })
      activated
      (upgrade (failing_at 4)).1.mappings
    ≡ true
unfolding same_dependency
transition-rollback_example =
    transition-rollback platform (failing_at 4) 3 5 platform-IsPlatform new_manifest old_manifest
      no_flags old_sorted new_sorted old-IsUnique new-IsUnique union_sorted old-IsClosed start
      (record { service = "s2"; container = "web"; target = "b" }) rolled_back refl refl

transition-dependencies_example :
    has_status database_key activated (upgrade (failing_at 4)).1.mappings ≡ true
unfolding same_dependency generate_union_services_table
transition-dependencies_example =
    transition-dependencies platform (failing_at 4) 3 5 platform-IsPlatform new_manifest
      old_manifest no_flags old_sorted new_sorted old-IsUnique new-IsUnique union_sorted
      old-IsClosed start (record { service = "s2"; container = "web"; target = "b" }) database_key
      activated (service "shop" (database_key ∷ [])) shop_activated (cc) refl (Memᴰ.head refl) refl
