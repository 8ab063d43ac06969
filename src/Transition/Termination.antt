-- ===== src/Transition/Termination.antt =====
-- src/libdeploy/transition.c: activate_services and deactivate_services come to an end.
use disnix.Prelude.{
  ℕ, zero, suc, ◌+◌, ◌≤◌, ◌<◌, ◌≡◌, ◌≢◌, refl, none, some, String, List, [], ◌∷◌, lookup, length,
  All, Bool, true, arith,
}
use disnix.Platform.{IsPlatform}
use disnix.Platform.Posix.{IsWorld, ProcReactStatus, ok}
use disnix.Model.{ServiceMapping, ServiceMappingStatus, deactivated, in_progress, Target}
use disnix.ServiceMappings.{keys, IsSortedArray}
use disnix.Traverse.State.{TraverseState, unfinished, status_at}
use disnix.Traverse.Live.{weight_of, weight, Live}
use disnix.Traverse.Termination.{Ends-traverse_service_mappings}
use disnix.Traverse.Depth.{IsRanked, Active-traverse_inter_dependency_mappings}
use disnix.Transition.{Setting, activation, complete_activation, activate_array}

activation_finished :
    (status : ProcReactStatus) (result : Bool)
    → weight_of deactivated (complete_activation status result) ≡ 0
unfolding complete_activation
activation_finished ok true = refl
activation_finished _ _ = refl

weight-bound :
    (start : ServiceMappingStatus) (arr : List ServiceMapping)
    → weight start arr ≤ length arr + length arr
weight-bound start [] = omega arith
weight-bound start (m ∷ arr) = ground (arith, weight-bound start arr)

idle_at :
    (arr : List ServiceMapping)
    → All (λ m. m.status ≢ in_progress) arr
    → (i : ℕ) → status_at arr i ≢ some in_progress
idle_at [] h i = λ e. cc
idle_at (m ∷ arr) h zero = λ e. h.0 (ground arith)
idle_at (m ∷ arr) h (suc i) = idle_at arr h.1 i

-- A traversal starts with an empty pid table.
Live-start :
    (s : TraverseState)
    → All (λ m. m.status ≢ in_progress) s.mappings
    → ((name : String) (target : Target)
        → lookup name s.targets ≡ some target
        → 1 ≤ target.available_cores)
    → Live (keys s.mappings) (record s { pid_table = [] })
Live-start s idle cores = record {
  same_keys = refl;
  tracked = tt;
  alive = tt;
  distinct = tt;
  watched = λ i now. absurd (idle_at s.mappings idle i now);
  staffed = λ name target found. omega (arith, cores name target found);
}

-- The activation of an array of mappings does not run out of fuel if the pool of mappings is sorted
-- and holds none in progress, forks succeed, every target has a core, the services have ranks above
-- those of the services that they depend on, the fuel for the depth is above the ranks of the
-- services in the array, and the fuel for the rounds is above twice the number of mappings in the
-- pool and the number of signals that are still to interrupt a wait.
pub activation_terminates :
    (t : Setting)
    → IsPlatform t.platform
    → (posix : IsWorld t.world)
    → ((tick : ℕ) (children : List ℕ) → t.world.fork tick children ≢ none)
    → (rank : String → ℕ) → IsRanked rank t.services_table
    → (array : List ServiceMapping) (s : TraverseState) → IsSortedArray t.platform s.mappings
    → All (λ m. m.status ≢ in_progress) s.mappings
    → ((name : String) (target : Target)
        → lookup name s.targets ≡ some target
        → 1 ≤ target.available_cores)
    → All (λ key. rank key.service < t.depth) (keys array)
    → length s.mappings + length s.mappings + posix.signals s.tick < t.rounds
    → (activate_array t array s).0 ≢ unfinished
unfolding activate_array
activation_terminates t laws posix forks rank ranked array s sorted idle cores deep many =
    let c = activation t in
    let ks = keys s.mappings in
    (Ends-traverse_service_mappings c ks deactivated posix forks activation_finished
      (λ key. rank key.service < t.depth) _
      (Active-traverse_inter_dependency_mappings c ks laws sorted posix forks activation_finished
        rank ranked t.depth)
      t.rounds array s (omega (arith, weight-bound deactivated s.mappings)) deep
      (Live-start s idle cores)).ends
