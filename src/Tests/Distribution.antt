-- ===== src/Tests/Distribution.antt =====
-- The closures and the profiles of the example deployment.
use disnix.Prelude.{
  ◌≡◌, refl, String, Bool, true, false, Option, none, some, List, [], ◌∷◌, map, length, arith,
}
use disnix.Platform.{Table}
use disnix.Parameters.{find_target_property, find_target_key, scalar}
use disnix.RemoteCommands.{pkgmgmt_remote_set}
use disnix.ModelIterator.{
  init_model_iterator_data, next_iteration_process, complete_iteration_process,
}
use disnix.Locking.{
  started, Event, spawns, handle_events, handle_event, next_profile_mapping_process,
  complete_profile_mapping_process, create_profile_mapping_iterator,
}
use disnix.Profiles.{
  run_profile_mappings, Transfer, transfer_profile_mapping_to, distribute, set_profile_mapping,
  SetFlags, SetReport, set_target_profiles, after_target_profiles, set_profiles,
}
use disnix.Locking.Log.{all_succeeded, for_entry}
use disnix.Profiles.Results.{distribute_lem, IsCompleted, set_profiles_lem}
use disnix.Tests.Locks.{schedule, spawns-schedule}
use disnix.Tests.Upgrade.{new_manifest}

abbrev events : Table String → List Event
events table = schedule true 1 table []

each_started :
    spawns (events new_manifest.profile_mapping_table) ≡ length new_manifest.profile_mapping_table
each_started = ground (arith, spawns-schedule true 1 new_manifest.profile_mapping_table [])

abbrev profiles : Table String
profiles = new_manifest.profile_mapping_table

distribute_example :
    (transfers : List Transfer) × (distribute events new_manifest "/tmp"
      ≡ some (all_succeeded (events profiles), transfers))
    × (map some transfers
        ≡ map (for_entry new_manifest.targets_table (transfer_profile_mapping_to "/tmp")) profiles)
unfolding transfer_profile_mapping_to find_target_key find_target_property scalar
distribute_example =
    distribute_lem events new_manifest "/tmp" each_started refl ((λ e. cc), ((λ e. cc), tt))

abbrev transfer : String → Transfer
transfer path = record { interface = "ssh"; target = some "h"; tmpdir = "/tmp"; paths = path ∷ [] }

distributed :
    distribute events new_manifest "/tmp" ≡ some (true, transfer "p3" ∷ transfer "p4" ∷ [])
unfolding distribute run_profile_mappings started transfer_profile_mapping_to find_target_key
    find_target_property scalar create_profile_mapping_iterator handle_events handle_event
    next_profile_mapping_process complete_profile_mapping_process init_model_iterator_data
    next_iteration_process complete_iteration_process
distributed = refl

abbrev all_profiles : SetFlags
all_profiles = record { set_no_target_profiles = false; set_no_coordinator_profile = false }

abbrev accepted : Option String → String → String → Bool
accepted path manifest profile = true

abbrev report : SetReport
report = record {
  success = true;
  commands =
      ("ssh" ∷ "--target" ∷ "h" ∷ "--profile" ∷ "default" ∷ "--set" ∷ "p3" ∷ [])
      ∷ ("ssh" ∷ "--target" ∷ "h" ∷ "--profile" ∷ "default" ∷ "--set" ∷ "p4" ∷ [])
      ∷ [];
  coordinator = true;
}

profiles_set :
    set_profiles events accepted new_manifest "manifest.xml" none "default" all_profiles
    ≡ some report
unfolding set_profiles set_target_profiles after_target_profiles run_profile_mappings started
    set_profile_mapping pkgmgmt_remote_set find_target_key find_target_property scalar
    create_profile_mapping_iterator handle_events handle_event next_profile_mapping_process
    complete_profile_mapping_process init_model_iterator_data next_iteration_process
    complete_iteration_process
profiles_set = refl

set_profiles_example :
    (report : SetReport) × (set_profiles events accepted new_manifest "manifest.xml" none "default"
        all_profiles
      ≡ some report)
    × IsCompleted events accepted "manifest.xml" none "default" all_profiles
        (all_succeeded (events profiles))
        report
    × (map some report.commands
        ≡ map (for_entry new_manifest.targets_table (set_profile_mapping "default")) profiles)
unfolding set_profile_mapping find_target_key find_target_property scalar
set_profiles_example =
    set_profiles_lem events accepted "manifest.xml" none "default" all_profiles new_manifest
      each_started refl ((λ e. cc), ((λ e. cc), tt)) refl
