-- ===== src/Transition/Cores.antt =====
-- src/libdeploy/transition.c: the cores of the targets, through the phases and the rollbacks.
use disnix.Prelude.{
  ℕ, ◌+◌, ◌≤◌, ◌≡◌, refl, ◌∙◌, Bool, true, false, Option, none, some, String, List, [], lookup, inl,
  inr, Bool-cases, arith,
}
use disnix.Platform.{Platform}
use disnix.Platform.Posix.{World}
use disnix.Model.{
  InterDependencyMapping, ServiceMapping, ServiceMappingStatus, activated, deactivated, Manifest,
  Target,
}
use disnix.ServiceMappings.{keys}
use disnix.Traverse.{traverse_inter_dependency_mappings, traverse_interdependent_mappings}
use disnix.Traverse.State.{TraverseState, Step, return, ◌>>=◌}
use disnix.Traverse.Running.{running}
use disnix.Traverse.Cores.{Bounded, Preserves, Bounded-bind, Bounded-pointer}
use disnix.Traverse.CoreBounds.{
  Bounded-traverse_inter_dependency_mappings, Bounded-traverse_interdependent_mappings,
  Bounded-traverse_service_mappings,
}
use disnix.Transition.{
  Setting, activation, deactivation, Flags, TransitionStatus, success, failed,
  obsolete_mappings_rollback_failed, new_mappings_rollback_failed, mark_erroneous_mappings,
  activate_array, deactivate_array, rollback_to_old_mappings, rollback_new_mappings,
  unless_interrupted, old_rollback_status, recover_obsolete, or_recover,
  deactivate_obsolete_mappings, restore_old, recover_new, activate_new_mappings, if_success,
  execute_transition, transition,
}
use disnix.Transition.Keeps.{keys-mark}

module _ (t : Setting) (ks : List InterDependencyMapping) where
  Bounded-activate_array : (array : List ServiceMapping) → Preserves ks (activate_array t array)
  unfolding activate_array
  Bounded-activate_array array =
      Bounded-traverse_service_mappings (activation t) ks
        (traverse_inter_dependency_mappings (activation t) t.depth)
        (Bounded-traverse_inter_dependency_mappings (activation t) ks t.depth) t.rounds array

  Bounded-deactivate_array : (array : List ServiceMapping) → Preserves ks (deactivate_array t array)
  unfolding deactivate_array
  Bounded-deactivate_array array =
      Bounded-traverse_service_mappings (deactivation t) ks
        (traverse_interdependent_mappings (deactivation t) t.depth)
        (Bounded-traverse_interdependent_mappings (deactivation t) ks t.depth) t.rounds array

  Bounded-mark :
      (mark : ServiceMappingStatus) (s : TraverseState)
      → Bounded ks s
      → Bounded ks (record s { mappings = mark_erroneous_mappings mark s.mappings })
  Bounded-mark mark s h = record {
    same_keys = keys-mark mark s.mappings ∙ h.same_keys;
    within = h.within;
  }

  Bounded-rollback_to_old :
      (old : List ServiceMapping) → Preserves ks (rollback_to_old_mappings t old)
  unfolding rollback_to_old_mappings
  Bounded-rollback_to_old old s h = Bounded-activate_array old _ (Bounded-mark activated s h)

  Bounded-rollback_new :
      (array : List ServiceMapping) → Preserves ks (rollback_new_mappings t array)
  unfolding rollback_new_mappings
  Bounded-rollback_new array s h = Bounded-deactivate_array array _ (Bounded-mark deactivated s h)

  Bounded-unless_interrupted : (done : Bool) → Preserves ks (unless_interrupted t done)
  unfolding unless_interrupted
  Bounded-unless_interrupted done s h = h

  Bounded-or_recover :
      (recover : Step TransitionStatus)
      → Preserves ks recover
      → (done : Bool) → Preserves ks (or_recover t recover done)
  Bounded-or_recover recover k true s h = h
  Bounded-or_recover recover k false s h = k s h

  -- A traversal, the interrupt flag, and what follows if one of the two asks for it.
  Bounded-phase :
      (m : Step Bool) (recover : Step TransitionStatus)
      → Preserves ks m
      → Preserves ks recover
      → Preserves ks (m >>= λ done. unless_interrupted t done >>= or_recover t recover)
  Bounded-phase m recover h k s hs = Bounded-bind ks m _ s (h s hs) λ done s' h'.
      Bounded-bind ks (unless_interrupted t done) _ s' (Bounded-unless_interrupted done s' h')
        (Bounded-or_recover recover k)

  Bounded-rolled_back :
      (old : List ServiceMapping)
      → Preserves ks
          (rollback_to_old_mappings t old >>= λ restored. return (old_rollback_status t restored))
  Bounded-rolled_back old s h =
      Bounded-bind ks (rollback_to_old_mappings t old) _ s (Bounded-rollback_to_old old s h)
        λ restored s' h'. h'

  Bounded-recover_obsolete :
      (old : Option (List ServiceMapping)) (flags : Flags)
      → Preserves ks (recover_obsolete t old flags)
  unfolding recover_obsolete
  Bounded-recover_obsolete old flags s h = elim (Bool-cases flags.no_rollback) [
    | inl e ↦ rw e h
    | inr e ↦ rw e (Bounded-pointer ks old _ s h λ mappings _. Bounded-rolled_back mappings s h)
  ]

  Bounded-deactivate_obsolete :
      (deactivations old : Option (List ServiceMapping)) (flags : Flags)
      → Preserves ks (deactivate_obsolete_mappings t deactivations old flags)
  unfolding deactivate_obsolete_mappings
  Bounded-deactivate_obsolete none old flags = λ s h. h
  Bounded-deactivate_obsolete (some array) old flags =
      Bounded-phase (deactivate_array t array) (recover_obsolete t old flags)
        (Bounded-deactivate_array array) (Bounded-recover_obsolete old flags)

  Bounded-restore_old :
      (old : Option (List ServiceMapping)) (done : Bool) → Preserves ks (restore_old t old done)
  unfolding restore_old
  Bounded-restore_old old false s h = h
  Bounded-restore_old none true s h = h
  Bounded-restore_old (some mappings) true s h = Bounded-rolled_back mappings s h

  Bounded-recover_new :
      (array : List ServiceMapping) (old : Option (List ServiceMapping)) (flags : Flags)
      → Preserves ks (recover_new t array old flags)
  unfolding recover_new
  Bounded-recover_new array old flags s h = elim (Bool-cases flags.no_rollback) [
    | inl e ↦ rw e h
    | inr e ↦ rw e (
        Bounded-bind ks (rollback_new_mappings t array) _ s (Bounded-rollback_new array s h)
          (Bounded-restore_old old))
  ]

  Bounded-activate_new :
      (array : List ServiceMapping) (old : Option (List ServiceMapping)) (flags : Flags)
      → Preserves ks (activate_new_mappings t array old flags)
  unfolding activate_new_mappings
  Bounded-activate_new array old flags =
      Bounded-phase (activate_array t array) (recover_new t array old flags)
        (Bounded-activate_array array) (Bounded-recover_new array old flags)

  Bounded-if_success :
      (next : Step TransitionStatus)
      → Preserves ks next
      → (status : TransitionStatus) → Preserves ks (if_success t next status)
  Bounded-if_success next k success s h = k s h
  Bounded-if_success next k failed s h = h
  Bounded-if_success next k obsolete_mappings_rollback_failed s h = h
  Bounded-if_success next k new_mappings_rollback_failed s h = h

  Bounded-execute_transition :
      (deactivations : Option (List ServiceMapping)) (activations : List ServiceMapping)
      (old : Option (List ServiceMapping)) (flags : Flags)
      → Preserves ks (execute_transition t deactivations activations old flags)
  unfolding execute_transition
  Bounded-execute_transition deactivations activations old flags s h =
      Bounded-bind ks (deactivate_obsolete_mappings t deactivations old flags) _ s
        (Bounded-deactivate_obsolete deactivations old flags s h)
        (Bounded-if_success _ (Bounded-activate_new activations old flags))

conclude :
    {ks : List InterDependencyMapping} (r : TraverseState)
    → Bounded ks r
    → (name : String) (target : Target) → lookup name r.targets ≡ some target
    → target.available_cores + running (keys r.mappings) name r.pid_table ≤ target.num_of_cores
conclude r h name target found = rw h.same_keys (h.within name target found)

-- In every outcome of a transition from a state without processes, the available cores of a target
-- and its running processes are together not more than its cores, if the available cores were not
-- more than the cores at the start.
pub transition-cores :
    (p : Platform) (w : World) (depth rounds : ℕ) (manifest : Manifest) (previous : Option Manifest)
    (flags : Flags) (s : TraverseState)
    → s.pid_table ≡ []
    → ((name : String) (target : Target)
        → lookup name s.targets ≡ some target
        → target.available_cores ≤ target.num_of_cores)
    → (name : String) (target : Target)
    → lookup name (transition p w depth rounds manifest previous flags s).1.targets ≡ some target
    → target.available_cores
        + running
            (keys (transition p w depth rounds manifest previous flags s).1.mappings)
            name
            (transition p w depth rounds manifest previous flags s).1.pid_table
      ≤ target.num_of_cores
unfolding transition
transition-cores p w depth rounds manifest previous flags s none_running cores = go previous
  where
    idle : (arr : List ServiceMapping) → Bounded (keys arr) (record s { mappings = arr })
    idle arr = record {
      same_keys = refl;
      within = λ name target found. rw none_running (omega (arith, cores name target found));
    }

    go :
        (previous : Option Manifest) (name : String) (target : Target)
        → lookup name (transition p w depth rounds manifest previous flags s).1.targets
          ≡ some target
        → target.available_cores
            + running
                (keys (transition p w depth rounds manifest previous flags s).1.mappings)
                name
                (transition p w depth rounds manifest previous flags s).1.pid_table
          ≤ target.num_of_cores
    go none name target found =
        conclude _ (Bounded-execute_transition _ _ _ _ _ flags _ (idle _)) name target found
    go (some old) name target found =
        conclude _ (Bounded-execute_transition _ _ _ _ _ flags _ (idle _)) name target found
