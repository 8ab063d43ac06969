-- ===== src/Locking.antt =====
-- src/libmanifest/profilemapping-iterator.c and src/libdeploy/locking.c: the locks on the profiles of
-- all targets. libprocreact drives an iteration by calls of its functions; the calls that it makes
-- for a table are a list of events.
pub mod Events
pub mod Taking
pub mod Release
pub mod Returns
pub mod Log
pub mod Commands
use disnix.Prelude.{
  ℕ, suc, ◌≡◌, ◌&&◌, ◌+◌, ◌++◌, String, str_eq, Bool, true, false, Option, none, some, List, [],
  ◌∷◌, lookup, length, any, filter, not, if◌then◌else◌,
}
use disnix.Platform.{Table}
use disnix.Platform.Posix.{ProcReactStatus, ok}
use disnix.Model.{Target}
use disnix.Parameters.{find_target_key}
use disnix.RemoteCommands.{statemgmt_remote_lock, statemgmt_remote_unlock}
use disnix.ModelIterator.{
  ModelIteratorData, is_success, init_model_iterator_data, next_iteration_process,
  complete_iteration_process,
}

-- A call of `next`, with the pid that the process gets, or of `complete`.
pub data Event : Type 0 where
  spawned : (pid : Option ℕ) → Event
  completed : (pid : Option ℕ) → (status : ProcReactStatus) → (result : Bool) → Event

abbrev pub spawns : List Event → ℕ
spawns [] = 0
spawns (spawned pid ∷ events) = suc (spawns events)
spawns (completed pid status result ∷ events) = spawns events

-- `to_release` are the targets that have confirmed a lock and have not been told to unlock since,
-- whatever an unlock has returned. `commands` are those started so far, and `none` if that was a
-- crash. `profile` and `lock_table` are those of LockData.
pub record LockingState : Type 0 where
  pub to_release : List String
  pub profile : String
  pub lock_table : Table String
  pub commands : List (Option (List String))
  pub calls : ℕ  -- the iterations run so far

-- What libprocreact and the user do: the events of each iteration over a table, and whether the
-- flag `interrupted` is set after it.
pub record Driver : Type 0 where
  pub fork_in_parallel_and_wait : ℕ → Table String → List Event
  pub interrupted : ℕ → Bool

-- libprocreact calls `next` until `has_next` is false, which is once for each entry.
pub record IsDriver (x : Driver) : Type 0 where
  pub complete_spawns :
      (calls : ℕ) (table : Table String)
      → spawns (x.fork_in_parallel_and_wait calls table) ≡ length table

-- The functions of an iteration: for `next` and for `complete`.
pub record ProfileOperation (S : Type 0) : Type 0 where
  pub map_profile_mapping : String → String → Target → S → S
  pub complete_map_profile_mapping : String → Option String → ProcReactStatus → Bool → S → S

pub record Iteration (S : Type 0) : Type 0 where
  pub model_iterator_data : ModelIteratorData String
  pub iter : Table String  -- the entries that are still to come
  pub user_data : S

module _ {S : Type 0} (targets : Table Target) (operation : ProfileOperation S) where
  -- Without an entry left, or without a target, the code reads what is not there.
  unfoldable pub next_profile_mapping_process : Option ℕ → Iteration S → Option (Iteration S)
  next_profile_mapping_process pid it = elim it.iter [
    | [] ↦ none
    | ◌∷◌ entry rest ↦ elim (lookup entry.0 targets) [
      | none ↦ none
      | some target ↦ some (record {
        model_iterator_data = next_iteration_process it.model_iterator_data pid entry.0;
        iter = rest;
        user_data = operation.map_profile_mapping entry.0 entry.1 target it.user_data;
      })
    ]
  ]

  -- A lookup of a NULL name reads what is not there.
  unfoldable pub complete_profile_mapping_process :
      Table String → Option ℕ → ProcReactStatus → Bool → Iteration S → Option (Iteration S)
  complete_profile_mapping_process table pid status result it =
      let (item, d) = complete_iteration_process it.model_iterator_data pid status result in
      elim item [
        | none ↦ none
        | some name ↦ some (record it {
          model_iterator_data = d;
          user_data =
              operation.complete_map_profile_mapping name (lookup name table) status result
                it.user_data;
        })
      ]

  -- The calls that libprocreact makes, one after the other.
  unfoldable pub handle_event : Table String → Event → Iteration S → Option (Iteration S)
  handle_event table (spawned pid) = next_profile_mapping_process pid
  handle_event table (completed pid status result) =
      complete_profile_mapping_process table pid status result

  unfoldable pub handle_events : Table String → List Event → Iteration S → Option (Iteration S)
  handle_events table [] it = some it
  handle_events table (event ∷ events) it = elim (handle_event table event it) [
    | none ↦ none
    | some it' ↦ handle_events table events it'
  ]

  unfoldable pub create_profile_mapping_iterator : Table String → S → Iteration S
  create_profile_mapping_iterator table s = record {
    model_iterator_data = init_model_iterator_data (length table);
    iter = table;
    user_data = s;
  }

  -- An iteration over a table in which libprocreact makes these calls: its success, and the user data
  -- it leaves.
  abbrev pub run_events : Table String → List Event → S → Option (Bool × S)
  run_events table events s =
      elim (handle_events table events (create_profile_mapping_iterator table s)) [
        | none ↦ none
        | some it ↦ some (it.model_iterator_data.success, it.user_data)
      ]

-- What was started, if no start has crashed.
unfoldable pub started : {X : Type 0} → List (Option X) → Option (List X)
started [] = some []
started (none ∷ log) = none
started (some x ∷ log) = elim (started log) [ none ↦ none | some xs ↦ some (x ∷ xs) ]

-- What a process for a target executes; `none` if the property for the key is missing. A target without
-- a key ends the arguments of execvp.
unfoldable pub unlock_profile_mapping : String → String → String → Target → Option (List String)
unlock_profile_mapping profile name path target = elim (find_target_key target) [
  | none ↦ none
  | some key ↦ elim key [
    | none ↦ some (target.client_interface ∷ "--unlock" ∷ "--target" ∷ [])
    | some key ↦ some (statemgmt_remote_unlock target.client_interface key profile)
  ]
]

unfoldable pub lock_profile_mapping : String → String → String → Target → Option (List String)
lock_profile_mapping profile name path target = elim (find_target_key target) [
  | none ↦ none
  | some key ↦ elim key [
    | none ↦ some (target.client_interface ∷ "--lock" ∷ "--target" ∷ [])
    | some key ↦ some (statemgmt_remote_lock target.client_interface key profile)
  ]
]

abbrev pub unlock_operation : ProfileOperation LockingState
unlock_operation = record {
  map_profile_mapping = λ name path target s. record s {
    to_release = filter (λ n. not (str_eq name n)) s.to_release;
    commands = s.commands ++ (unlock_profile_mapping s.profile name path target ∷ []);
  };
  complete_map_profile_mapping = λ name path status result s. s;
}

-- The path of an entry is never missing here.
abbrev pub insert_lock : Bool → String → Option String → LockingState → LockingState
insert_lock true name (some path) s = record s {
  to_release = name ∷ s.to_release;
  lock_table = (name, path) ∷ s.lock_table;
}
insert_lock true name none s = record s {
  to_release = name ∷ s.to_release;
  lock_table = (name, "") ∷ s.lock_table;
}
insert_lock false name path s = s

abbrev pub lock_operation : ProfileOperation LockingState
lock_operation = record {
  map_profile_mapping = λ name path target s. record s {
    commands = s.commands ++ (lock_profile_mapping s.profile name path target ∷ []);
  };
  complete_map_profile_mapping =
      λ name path status result s. insert_lock (is_success status result) name path s;
}

module _ (x : Driver) (targets : Table Target) where
  -- An iteration over a table: its success, and the state it leaves.
  unfoldable pub run_iteration :
      ProfileOperation LockingState → Table String → LockingState → Option (Bool × LockingState)
  unfolding started
  run_iteration operation table s =
      elim (run_events targets operation table (x.fork_in_parallel_and_wait s.calls table)
        (record s { calls = suc s.calls })) [
          | none ↦ none
          | some (success, s') ↦ elim (started s'.commands) [
            | none ↦ none
            | some commands ↦ some (success, s')
          ]
        ]

  unfoldable pub unlock : Table String → LockingState → Option (Bool × LockingState)
  unlock table = run_iteration unlock_operation table

  -- If the locking has failed, what it has locked is unlocked again; the result is FALSE then.
  abbrev pub after_lock : Bool × LockingState → Option (Bool × LockingState)
  after_lock (success, s) =
      let undone = unlock s.lock_table s in
      if success && not (x.interrupted s.calls)
      then some (true, s)
      else elim undone [ none ↦ none | some (b, s') ↦ some (false, s') ]

  unfoldable pub lock : Table String → LockingState → Option (Bool × LockingState)
  lock table s = elim (run_iteration lock_operation table (record s { lock_table = [] })) [
    | none ↦ none
    | some locked ↦ after_lock locked
  ]
