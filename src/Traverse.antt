-- ===== src/Traverse.antt =====
-- src/libmanifest/servicemapping-traverse.c: processes are started for the mappings of an array, each
-- when the mappings that it waits for are done and its target has a core free.
pub mod State
pub mod Consistency
pub mod Post
pub mod Steps
pub mod Activation
pub mod Deactivation
pub mod Rounds
pub mod Running
pub mod Live
pub mod Progress
pub mod Termination
pub mod Depth
pub mod Height
pub mod Cores
pub mod CoreBounds
use mathlib.Core.Option
use disnix.Prelude.{
  ℕ, zero, suc, ◌≡◌, ◌&&◌, Bool, true, false, Option, none, some, List, [], ◌∷◌, ◌++◌, String, map,
  length, lookup, get_elem?, ltb, is_some, if◌then◌else◌,
}
use disnix.Platform.{Platform, Table}
use disnix.Platform.Posix.{World, Exit, ProcReactStatus, ok}
use disnix.Model.{
  InterDependencyMapping, ServiceMapping, ServiceMappingStatus, deactivated, in_progress, activated,
  error, ManifestService, Target, as_dependency,
}
use disnix.Parameters.{
  request_available_target_core, signal_available_target_core, MappingParameters,
  create_mapping_parameters,
}
use disnix.ServiceMappings.{find_interdependency_mapping, find_service_mapping}
use disnix.Traverse.State.{
  ServiceStatus, service_error, service_in_progress, service_wait, service_done, Command,
  TraverseState, Outcome, returned, crashed, unfinished, Step, return, if_done, crash, ◌>>=◌,
  with_pointer, set_status, modify_target, lookup_pid, remove_pid, insert_pid, reap,
}

-- A `service_mapping_function`: the command of the process that it starts.
abbrev pub MapServiceMapping : Type 0
MapServiceMapping =
    ServiceMapping → ManifestService → Target → String → List String → Option Command

-- A `complete_service_mapping_function`: the status that the mapping gets.
abbrev pub CompleteServiceMapping : Type 0
CompleteServiceMapping = ProcReactStatus → Bool → ServiceMappingStatus

-- The arguments of a traversal that it only hands on.
pub record Context : Type 1 where
  pub platform : Platform
  pub world : World
  pub services_table : Table ManifestService
  pub map_service_mapping : MapServiceMapping
  pub complete_service_mapping : CompleteServiceMapping

-- What the loop of traverse_service_mappings makes of a status: `success` and `num_done`.
abbrev pub count_status : ServiceStatus → Bool × ℕ → Bool × ℕ
count_status service_error (success, num_done) = (false, suc num_done)
count_status service_done (success, num_done) = (success, suc num_done)
count_status service_in_progress counted = counted
count_status service_wait counted = counted

module _ (c : Context) where
  open c use {platform, world, services_table, map_service_mapping, complete_service_mapping}

  -- The loop of find_interdependent_service_mappings; `none` if a service is not in the table.
  unfoldable pub find_interdependent_service_mappings :
      List ServiceMapping → ServiceMapping → Option (List ServiceMapping)
  find_interdependent_service_mappings [] mapping = some []
  find_interdependent_service_mappings (current ∷ rest) mapping =
      let others = find_interdependent_service_mappings rest mapping in
      elim (lookup current.service services_table) [
        | none ↦ none
        | some service ↦
            if is_some
              (find_interdependency_mapping platform service.depends_on (as_dependency mapping))
            then Option.map (λ found. current ∷ found) others
            else others
      ]

  -- `fork` in a mapping function: the child runs the command.
  unfoldable pub spawn : Command → TraverseState → Option ℕ × TraverseState
  spawn command s =
      let pid = world.fork s.tick s.children in
      let s' = record s { tick = suc s.tick } in
      elim pid [
        | none ↦ (none, s')
        | some pid ↦
            (some pid, record s' { children = pid ∷ s.children; log = s.log ++ command ∷ [] })
      ]

  -- The switch on the pid that the mapping function returned.
  unfoldable pub record_pid : ℕ → Option ℕ → Step ServiceStatus
  record_pid i none s = (returned service_error, s)
  record_pid i (some pid) s = (
    returned service_in_progress,
    record s {
      mappings = set_status s.mappings i in_progress;
      pid_table = insert_pid pid i s.pid_table;
    },
  )

  unfoldable pub start_process : ℕ → Command → Step ServiceStatus
  unfolding spawn record_pid
  start_process i command s = let (pid, s') = spawn command s in record_pid i pid s'

  -- The branch of attempt_to_map_service_mapping with a core of the target taken.
  unfoldable pub start_mapping : ℕ → ServiceMapping → Target → Step ServiceStatus
  start_mapping i mapping target =
      with_pointer
        (create_mapping_parameters platform mapping.service mapping.container
          mapping.container_provided_by_service services_table target)
        (λ params.
          with_pointer
            (map_service_mapping mapping params.service target params.type params.arguments)
            (start_process i))

  unfoldable pub attempt_to_map_service_mapping : ℕ → ServiceMapping → Target → Step ServiceStatus
  unfolding request_available_target_core
  attempt_to_map_service_mapping i mapping target s =
      let (granted, target') = request_available_target_core target in
      if granted
      then start_mapping i mapping target'
          (record s { targets = modify_target mapping.target (λ _. target') s.targets })
      else (returned service_wait, s)

  -- What follows a successful `wait`.
  unfoldable pub complete_process : Exit → Step (Unit {0})
  complete_process e s =
      with_pointer (lookup_pid e.pid s.pid_table)
        (λ i. with_pointer (get_elem? s.mappings i) (λ mapping s.
          let s' = record s {
            mappings = set_status s.mappings i (complete_service_mapping e.status e.result);
            pid_table = remove_pid e.pid s.pid_table;
          } in
          with_pointer (lookup mapping.target s'.targets)
            (λ _ s. (
              returned tt,
              record s {
                targets = modify_target mapping.target signal_available_target_core s.targets;
              },
            ))
            s'))
        s

  unfoldable pub wait_for_service_mapping_to_complete : Step (Unit {0})
  unfolding complete_process
  wait_for_service_mapping_to_complete s = elim (world.wait s.tick s.children) [
    | none ↦ (returned tt, record s { tick = suc s.tick })
    | some e ↦ complete_process e (record s { tick = suc s.tick; children = reap e.pid s.children })
  ]

  -- The loops over the mappings that come first: the status of the first that is not done.
  unfoldable pub visit_all :
      (InterDependencyMapping → Step ServiceStatus)
      → List InterDependencyMapping
      → Step ServiceStatus
  visit_all visit [] s = (returned service_done, s)
  visit_all visit (key ∷ rest) s = (visit key >>= λ status. if_done status (visit_all visit rest)) s

  -- The switch at the end of traverse_inter_dependency_mappings.
  activate_by_status : ServiceMappingStatus → ℕ → ServiceMapping → Step ServiceStatus
  activate_by_status deactivated i mapping s = elim (lookup mapping.target s.targets) [
    | none ↦ (returned service_error, s)
    | some target ↦ attempt_to_map_service_mapping i mapping target s
  ]
  activate_by_status activated i mapping s = (returned service_done, s)
  activate_by_status in_progress i mapping s = (returned service_in_progress, s)
  activate_by_status error i mapping s = (returned service_error, s)

  unfoldable pub activate_mapping_at : ℕ → Step ServiceStatus
  unfolding activate_by_status
  activate_mapping_at i s =
      with_pointer (get_elem? s.mappings i) (λ mapping. activate_by_status mapping.status i mapping)
        s

  -- The recursion follows the dependencies, and takes fuel for their depth.
  unfoldable pub traverse_inter_dependency_mappings :
      ℕ → InterDependencyMapping → Step ServiceStatus
  traverse_inter_dependency_mappings zero key s = (unfinished, s)
  traverse_inter_dependency_mappings (suc depth) key s =
      with_pointer (find_service_mapping platform s.mappings key)
        (λ i. with_pointer (get_elem? s.mappings i) (λ mapping.
          with_pointer (lookup mapping.service services_table) (λ service s.
            (visit_all (traverse_inter_dependency_mappings depth) service.depends_on >>= λ status.
            if_done status (activate_mapping_at i))
              s)))
        s

  -- The switch at the end of traverse_interdependent_mappings.
  deactivate_by_status : ServiceMappingStatus → ℕ → ServiceMapping → Step ServiceStatus
  deactivate_by_status activated i mapping s = elim (lookup mapping.target s.targets) [
    | none ↦
        with_pointer (lookup mapping.service services_table)
          (λ _ s.
            (returned service_done, record s { mappings = set_status s.mappings i deactivated }))
          s
    | some target ↦ attempt_to_map_service_mapping i mapping target s
  ]
  deactivate_by_status deactivated i mapping s = (returned service_done, s)
  deactivate_by_status in_progress i mapping s = (returned service_in_progress, s)
  deactivate_by_status error i mapping s = (returned service_error, s)

  unfoldable pub deactivate_mapping_at : ℕ → Step ServiceStatus
  unfolding deactivate_by_status
  deactivate_mapping_at i s =
      with_pointer (get_elem? s.mappings i)
        (λ mapping. deactivate_by_status mapping.status i mapping) s

  unfoldable pub traverse_interdependent_mappings : ℕ → InterDependencyMapping → Step ServiceStatus
  traverse_interdependent_mappings zero key s = (unfinished, s)
  traverse_interdependent_mappings (suc depth) key s =
      with_pointer (find_service_mapping platform s.mappings key)
        (λ i. with_pointer (get_elem? s.mappings i) (λ mapping.
          with_pointer (find_interdependent_service_mappings s.mappings mapping) (λ dependents s.
            (visit_all (traverse_interdependent_mappings depth) (map as_dependency dependents)
                >>= λ status. if_done status (deactivate_mapping_at i))
              s)))
        s

  -- The `for` loop of traverse_service_mappings, with `success` and `num_done`.
  unfoldable pub visit_round :
      (InterDependencyMapping → Step ServiceStatus)
      → List ServiceMapping
      → Bool × ℕ
      → Step (Bool × ℕ)
  visit_round strategy [] counted s = (returned counted, s)
  visit_round strategy (mapping ∷ rest) counted s =
      (strategy (as_dependency mapping) >>= λ status. wait_for_service_mapping_to_complete >>= λ _.
      visit_round strategy rest (count_status status counted))
        s

  -- The `do` loop, with fuel for its rounds.
  unfoldable pub traverse_rounds :
      ℕ → (InterDependencyMapping → Step ServiceStatus) → List ServiceMapping → Bool → Step Bool
  traverse_rounds zero strategy array success s = (unfinished, s)
  traverse_rounds (suc rounds) strategy array success s =
      (visit_round strategy array (success, 0) >>= λ (success', num_done).
      elim (ltb num_done (length array)) [
        | true ↦ traverse_rounds rounds strategy array success'
        | false ↦ return success'
      ])
        s

  -- The pid table is created here, so entries of an earlier traversal are gone.
  unfoldable pub traverse_service_mappings :
      ℕ → (InterDependencyMapping → Step ServiceStatus) → List ServiceMapping → Step Bool
  traverse_service_mappings rounds strategy array s =
      traverse_rounds rounds strategy array true (record s { pid_table = [] })
