-- ===== src/Tests/Locks.antt =====
-- Locks on the targets of the example deployment.
use disnix.Prelude.{
  Option, ◌++◌, map, ℕ, zero, suc, ◌+◌, ◌≡◌, refl, ◌&&◌, ◌||◌, String, Bool, true, false, some,
  List, [], ◌∷◌, length, arith,
}
use disnix.Platform.{Table}
use disnix.Platform.Posix.{ok}
use disnix.ModelIterator.{
  init_model_iterator_data, next_iteration_process, complete_iteration_process,
}
use disnix.Locking.{
  started, lock_profile_mapping, unlock_profile_mapping, Event, spawned, completed, spawns, Driver,
  IsDriver, LockingState, lock, unlock, run_iteration, handle_events, handle_event,
  next_profile_mapping_process, complete_profile_mapping_process, create_profile_mapping_iterator,
}
use disnix.Locking.Events.{is_in, has_entry}
use disnix.Locking.Release.{lock-to_release}
use disnix.Locking.Commands.{unlock_words, unlock_lem}
use disnix.Locking.Log.{all_succeeded}
use disnix.RemoteCommands.{lock_or_unlock, statemgmt_remote_lock, statemgmt_remote_unlock}
use disnix.Parameters.{scalar, find_target_property, find_target_key}
use disnix.Transition.{success}
use disnix.Deploy.{deploy_ok, Phases, acquire_locks, release_locks, migrate_data, deploy}
use disnix.Deploy.Unlocked.{deploy-unlocked}
use disnix.Tests.Upgrade.{new_manifest, machines, no_flags}

-- All processes start, and they end in the reverse order, each with this result.
abbrev pub schedule : Bool → ℕ → Table String → List Event → List Event
schedule result pid [] events = events
schedule result pid (entry ∷ rest) events =
    spawned (some pid) ∷ schedule result (suc pid) rest (completed (some pid) ok result ∷ events)

pub spawns-schedule :
    (result : Bool) (pid : ℕ) (table : Table String) (events : List Event)
    → spawns (schedule result pid table events) ≡ length table + spawns events
spawns-schedule result pid [] events = omega arith
spawns-schedule result pid (entry ∷ rest) events =
    ground (arith, spawns-schedule result (suc pid) rest (completed (some pid) ok result ∷ events))

-- The first iteration ends with this result, the others succeed.
abbrev driver : Bool → Driver
driver result = record {
  fork_in_parallel_and_wait = λ calls table. elim calls [
    | zero ↦ schedule result 1 table []
    | suc _ ↦ schedule true 1 table []
  ];
  interrupted = λ calls. false;
}

driver-IsDriver : (result : Bool) → IsDriver (driver result)
driver-IsDriver result = record { complete_spawns = go }
  where
    go :
        (calls : ℕ) (table : Table String)
        → spawns ((driver result).fork_in_parallel_and_wait calls table) ≡ length table
    go zero table = ground (arith, spawns-schedule result 1 table [])
    go (suc calls) table = ground (arith, spawns-schedule true 1 table [])

-- Another user holds a lock on a third machine.
abbrev others : LockingState
others = record {
  to_release = "z" ∷ [];
  profile = "default";
  lock_table = [];
  commands = [];
  calls = 0;
}

abbrev profiles : Table String
profiles = new_manifest.profile_mapping_table

abbrev command : String → Option (List String)
command operation = some ("ssh" ∷ operation ∷ "--target" ∷ "h" ∷ "--profile" ∷ "default" ∷ [])

abbrev locked : LockingState
locked = record {
  to_release = "a" ∷ "b" ∷ "z" ∷ [];
  profile = "default";
  lock_table = profiles;
  commands = command "--lock" ∷ command "--lock" ∷ [];
  calls = 1;
}

lock_succeeds : lock (driver true) machines profiles others ≡ some (true, locked)
unfolding lock run_iteration create_profile_mapping_iterator handle_events handle_event
    next_profile_mapping_process complete_profile_mapping_process init_model_iterator_data
    next_iteration_process complete_iteration_process unlock started lock_profile_mapping
    unlock_profile_mapping statemgmt_remote_lock statemgmt_remote_unlock lock_or_unlock
    find_target_key find_target_property scalar
lock_succeeds = refl

lock-to_release_example : (is_in "a" others.to_release || true && has_entry "a" profiles) ≡ true
lock-to_release_example =
    lock-to_release (driver-IsDriver true) machines profiles others locked true "a" lock_succeeds
      refl

abbrev unlocked : LockingState
unlocked = record {
  to_release = "z" ∷ [];
  profile = "default";
  lock_table = profiles;
  commands = command "--lock" ∷ command "--lock" ∷ command "--unlock" ∷ command "--unlock" ∷ [];
  calls = 2;
}

unlock_succeeds : unlock (driver true) machines profiles locked ≡ some (true, unlocked)
unfolding unlock run_iteration create_profile_mapping_iterator handle_events handle_event
    next_profile_mapping_process complete_profile_mapping_process init_model_iterator_data
    next_iteration_process complete_iteration_process started lock_profile_mapping
    unlock_profile_mapping statemgmt_remote_lock statemgmt_remote_unlock lock_or_unlock
    find_target_key find_target_property scalar
unlock_succeeds = refl

unlock_example :
    (s : LockingState) × (unlock (driver true) machines profiles locked
      ≡ some (all_succeeded ((driver true).fork_in_parallel_and_wait 1 profiles), s))
    × (s.commands
        ≡ locked.commands ++ map (λ entry. some (unlock_words machines "default" entry)) profiles)
unfolding started find_target_key find_target_property scalar
unlock_example =
    unlock_lem (driver true) (driver-IsDriver true) machines profiles locked _ refl refl
      ((λ e. cc), ((λ e. cc), tt))

-- Each phase succeeds, and counts.
abbrev phases : Phases ℕ
phases = record {
  distribute = λ n. some (true, suc n);
  activate_system = λ n. some (success, suc n);
  migrate = λ n. some (true, suc n);
  set_profiles = λ n. some (true, suc n);
}

deployed :
    deploy phases (driver true) new_manifest no_flags (others, 0) ≡ some (deploy_ok, unlocked, 4)
unfolding deploy acquire_locks release_locks migrate_data lock run_iteration
    create_profile_mapping_iterator handle_events handle_event next_profile_mapping_process
    complete_profile_mapping_process init_model_iterator_data next_iteration_process
    complete_iteration_process unlock started lock_profile_mapping unlock_profile_mapping
    statemgmt_remote_lock statemgmt_remote_unlock lock_or_unlock find_target_key
    find_target_property scalar
deployed = refl

deploy-unlocked_example : is_in "z" others.to_release ≡ true
deploy-unlocked_example =
    deploy-unlocked phases (driver-IsDriver true) new_manifest no_flags others unlocked 0 4
      deploy_ok "z" refl deployed refl
