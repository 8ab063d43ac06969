-- ===== src/Profiles/Results.antt =====
-- src/libdeploy/distribute.c and src/libdeploy/set-profiles.c: what is started for the targets, and
-- what the result says of it.
use disnix.Prelude.{
  ◌≡◌, ◌≢◌, All, refl, ap, ◌∙◌, ◌&&◌, ◌||◌, String, Bool, true, false, Option, none, some, List, [],
  map, length, not, Bool-cases, inl, inr,
}
use disnix.Platform.{Table}
use disnix.Model.{Manifest}
use disnix.Locking.{Event, spawns}
use disnix.Locking.Returns.{is_causal}
use disnix.Locking.Log.{all_succeeded, for_entry}
use disnix.Profiles.Log.{run_profile_mappings_lem}
use disnix.Profiles.{
  Transfer, transfer_profile_mapping_to, distribute, set_profile_mapping, SetFlags, SetReport,
  set_target_profiles, after_target_profiles, set_profiles,
}

-- If libprocreact calls `next` once for each entry and reports only processes that were started,
-- and each profile mapping has a target with its key property: `distribute` returns, it has started
-- one transfer for each profile mapping, in their order, with the interface and the key of its
-- target and the path of its profile, and its result is TRUE exactly if each process that ended has
-- succeeded.
pub distribute_lem :
    (events : Table String → List Event) (manifest : Manifest) (tmpdir : String)
    → spawns (events manifest.profile_mapping_table) ≡ length manifest.profile_mapping_table
    → is_causal [] (events manifest.profile_mapping_table) ≡ true
    → All
        (λ entry.
          for_entry manifest.targets_table (transfer_profile_mapping_to tmpdir) entry ≢ none)
        manifest.profile_mapping_table
    → (transfers : List Transfer) × (distribute events manifest tmpdir
        ≡ some (all_succeeded (events manifest.profile_mapping_table), transfers))
      × (map some transfers
          ≡ map
              (for_entry manifest.targets_table (transfer_profile_mapping_to tmpdir))
              manifest.profile_mapping_table)
unfolding distribute
distribute_lem events manifest tmpdir n causal fine =
    run_profile_mappings_lem manifest.targets_table (transfer_profile_mapping_to tmpdir)
      manifest.profile_mapping_table events n causal fine

module _ (events : Table String → List Event)
    (set_coordinator_profile : Option String → String → String → Bool) (manifest_file : String)
    (coordinator_profile_path : Option String) (profile : String) (flags : SetFlags) where
  -- What is right of the target profiles, given whether these have succeeded.
  abbrev pub IsCompleted : Bool → SetReport → Type 0
  IsCompleted targets report =
      (report.success ≡ (
        targets
        && (flags.set_no_coordinator_profile
            || set_coordinator_profile coordinator_profile_path manifest_file profile)))
      × (report.coordinator ≡ (targets && not flags.set_no_coordinator_profile))

  after_target_profiles-IsCompleted :
      (success : Bool) (commands : List (List String))
      → IsCompleted success (
          after_target_profiles events set_coordinator_profile manifest_file
            coordinator_profile_path profile flags
            (success, commands))
        × ((after_target_profiles events set_coordinator_profile manifest_file
              coordinator_profile_path profile flags
              (success, commands)).commands
            ≡ commands)
  unfolding after_target_profiles
  after_target_profiles-IsCompleted false commands = ((refl, refl), refl)
  after_target_profiles-IsCompleted true commands =
      elim (Bool-cases flags.set_no_coordinator_profile) [
        | inl off ↦ rw off ((refl, refl), refl)
        | inr on ↦ rw on ((refl, refl), refl)
      ]

  -- If libprocreact calls `next` once for each entry and reports only processes that were started,
  -- each profile mapping has a target with its key property, and the target profiles are not
  -- switched off: set_profiles returns, it has started one command for each profile mapping, in
  -- their order, which sets the profile on its target; it calls pkgmgmt_set_coordinator_profile
  -- exactly if each of these that ended has succeeded and that is not switched off, and its result
  -- is TRUE exactly if all that it has done has succeeded.
  pub set_profiles_lem :
      (manifest : Manifest)
      → spawns (events manifest.profile_mapping_table) ≡ length manifest.profile_mapping_table
      → is_causal [] (events manifest.profile_mapping_table) ≡ true
      → All
          (λ entry. for_entry manifest.targets_table (set_profile_mapping profile) entry ≢ none)
          manifest.profile_mapping_table
      → flags.set_no_target_profiles ≡ false
      → (report : SetReport) × (set_profiles events set_coordinator_profile manifest manifest_file
            coordinator_profile_path profile flags
          ≡ some report)
        × IsCompleted (all_succeeded (events manifest.profile_mapping_table)) report
        × (map some report.commands
            ≡ map
                (for_entry manifest.targets_table (set_profile_mapping profile))
                manifest.profile_mapping_table)
  unfolding set_profiles set_target_profiles after_target_profiles
  set_profiles_lem manifest n causal fine on =
      let table = manifest.profile_mapping_table in
      let (commands, ran, all) =
        run_profile_mappings_lem manifest.targets_table (set_profile_mapping profile) table events n
          causal fine in
      let (outcome, same) =
        after_target_profiles-IsCompleted (all_succeeded (events table)) commands in
      (
        after_target_profiles events set_coordinator_profile manifest_file coordinator_profile_path
            profile flags (all_succeeded (events table), commands),
        rw (on, ran, set_profiles) refl,
        outcome,
        ap (map some) same ∙ all,
      )
