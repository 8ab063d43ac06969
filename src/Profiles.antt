-- ===== src/Profiles.antt =====
-- src/libdeploy/distribute.c and src/libdeploy/set-profiles.c: the closures and the profiles of all
-- targets, as iterations over the profile mappings.
pub mod Log
pub mod Results
use disnix.Prelude.{
  ◌++◌, String, Bool, true, false, Option, none, some, List, [], ◌∷◌, if◌then◌else◌,
}
use disnix.Platform.{Table}
use disnix.Model.{Target, Manifest}
use disnix.Parameters.{find_target_key}
use disnix.RemoteCommands.{pkgmgmt_remote_set}
use disnix.Locking.{Event, ProfileOperation, run_events, started}

-- What an iteration starts for each entry, in the order of the entries; `none` is a crash.
abbrev pub logging :
    {X : Type 0} → (String → String → Target → Option X) → ProfileOperation (List (Option X))
logging start = record {
  map_profile_mapping = λ name path target log. log ++ start name path target ∷ [];
  complete_map_profile_mapping = λ name path status result log. log;
}

module _ (targets : Table Target) (events : Table String → List Event) where
  -- The success of an iteration, and what it has started.
  unfoldable pub run_profile_mappings :
      {X : Type 0} → (String → String → Target → Option X) → Table String → Option (Bool × List X)
  unfolding started
  run_profile_mappings start table =
      elim (run_events targets (logging start) table (events table) []) [
        | none ↦ none
        | some (success, log) ↦ elim (started log) [ none ↦ none | some xs ↦ some (success, xs) ]
      ]

-- The arguments of copy_closure_to.
pub record Transfer : Type 0 where
  pub interface : String
  pub target : Option String
  pub tmpdir : String
  pub paths : List String

unfoldable pub transfer_profile_mapping_to : String → String → String → Target → Option Transfer
transfer_profile_mapping_to tmpdir name path target = elim (find_target_key target) [
  | none ↦ none
  | some key ↦ some (record {
    interface = target.client_interface;
    target = key;
    tmpdir = tmpdir;
    paths = path ∷ [];
  })
]

-- `events` are the calls of procreact_fork_and_wait_in_parallel_limit.
unfoldable pub distribute :
    (Table String → List Event) → Manifest → String → Option (Bool × List Transfer)
distribute events manifest tmpdir =
    run_profile_mappings manifest.targets_table events (transfer_profile_mapping_to tmpdir)
      manifest.profile_mapping_table

-- A target without a key ends the arguments of execvp.
unfoldable pub set_profile_mapping : String → String → String → Target → Option (List String)
set_profile_mapping profile name path target = elim (find_target_key target) [
  | none ↦ none
  | some key ↦ elim key [
    | none ↦ some (target.client_interface ∷ "--target" ∷ [])
    | some key ↦ some (pkgmgmt_remote_set target.client_interface key profile path)
  ]
]

pub record SetFlags : Type 0 where
  pub set_no_target_profiles : Bool
  pub set_no_coordinator_profile : Bool

-- The commands for the targets, and whether pkgmgmt_set_coordinator_profile was called.
pub record SetReport : Type 0 where
  pub success : Bool
  pub commands : List (List String)
  pub coordinator : Bool

-- `events` are the calls of procreact_fork_in_parallel_and_wait, `set_coordinator_profile` what
-- pkgmgmt_set_coordinator_profile returns.
module _ (events : Table String → List Event)
    (set_coordinator_profile : Option String → String → String → Bool) where
  unfoldable pub set_target_profiles :
      Table String → Table Target → String → Option (Bool × List (List String))
  set_target_profiles table targets profile =
      run_profile_mappings targets events (set_profile_mapping profile) table

  -- The right side of `&&`.
  unfoldable pub after_target_profiles :
      String → Option String → String → SetFlags → Bool × List (List String) → SetReport
  after_target_profiles manifest_file coordinator_profile_path profile flags (false, commands) =
      record { success = false; commands = commands; coordinator = false }
  after_target_profiles manifest_file coordinator_profile_path profile flags (true, commands) =
      if flags.set_no_coordinator_profile
      then record { success = true; commands = commands; coordinator = false }
      else record {
        success = set_coordinator_profile coordinator_profile_path manifest_file profile;
        commands = commands;
        coordinator = true;
      }

  unfoldable pub set_profiles :
      Manifest → String → Option String → String → SetFlags → Option SetReport
  set_profiles manifest manifest_file coordinator_profile_path profile flags =
      if flags.set_no_target_profiles
      then some
          (after_target_profiles manifest_file coordinator_profile_path profile flags (true, []))
      else elim (set_target_profiles manifest.profile_mapping_table manifest.targets_table
          profile) [
            | none ↦ none
            | some done ↦
                some
                  (after_target_profiles manifest_file coordinator_profile_path profile flags done)
          ]
