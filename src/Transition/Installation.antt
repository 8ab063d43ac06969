-- ===== src/Transition/Installation.antt =====
-- src/libdeploy/transition.c: the installation from scratch, without a previous manifest.
use disnix.Prelude.{
  ℕ, zero, suc, ◌∷◌, ◌≡◌, refl, sym, ap, ◌∙◌, true, false, none, some, List, [], get_elem?,
  any_position, All, All_at, arith,
}
use disnix.Platform.{Platform, IsPlatform}
use disnix.Platform.Posix.{World}
use disnix.Model.{
  InterDependencyMapping, ServiceMapping, ServiceMappingStatus, deactivated, activated, Manifest,
}
use disnix.Model.Keys.{same_dependency, same_dependency_iff}
use disnix.ServiceMappings.{keys, IsSortedArray}
use disnix.ServiceMappings.Lookup.{has_key}
use disnix.ServiceMappings.Plan.{has_status}
use disnix.ServiceMappings.Unique.{IsUnique, find_key_own}
use disnix.Traverse.State.{TraverseState, Outcome, returned, status_at}
use disnix.Traverse.Consistency.{IsConsistent}
use disnix.Traverse.Deactivation.{IsIndexed}
use disnix.Transition.{
  Setting, activation, deactivation, Flags, TransitionStatus, success, failed, setting, transition,
}
use disnix.Transition.Keeps.{Kept, AllAt, Keeps}
use disnix.Transition.Rollback.{Meaning, Reached, Meaning-execute_transition}
use disnix.Transition.Upgrade.{HasSortedDependencies, has_status_at}

module _ (p : Platform) (w : World) (depth rounds : ℕ) (laws : IsPlatform p) (manifest : Manifest)
    (flags : Flags) where
  abbrev new : List ServiceMapping
  new = manifest.service_mapping_array

  abbrev t : Setting
  t = setting p w depth rounds manifest.services_table flags

  abbrev run : TraverseState → Outcome TransitionStatus × TraverseState
  run = transition p w depth rounds manifest none flags

  module _ (sorted : IsSortedArray p new) (unique : IsUnique new)
      (dependencies_sorted : HasSortedDependencies p manifest.services_table)
      (inactive : All (λ m. m.status ≡ deactivated) new) where
    indexed : IsIndexed (deactivation t) (keys new)
    indexed = record {
      keys_sorted = sorted;
      own_position = λ i key at. find_key_own laws new i key sorted unique at;
      dependencies_sorted = dependencies_sorted;
    }

    inactive_at :
        (arr : List ServiceMapping)
        → All (λ m. m.status ≡ deactivated) arr
        → (i : ℕ) (status : ServiceMappingStatus) → status_at arr i ≡ some status
        → status ≡ deactivated
    inactive_at [] h i status e = absurd (ground arith)
    inactive_at (m ∷ arr) h zero status e = ground (arith, h.0)
    inactive_at (m ∷ arr) h (suc i) status e = inactive_at arr h.1 i status e

    new-IsConsistent : IsConsistent (activation t) (keys new) new
    new-IsConsistent i j d status now ne = absurd (ne (inactive_at new inactive i status now))

    installed :
        (s : TraverseState)
        → Keeps t
            (keys new)
            (Meaning t
              (keys new)
              laws
              indexed
              new
              none
              flags
              (Reached t (keys new) laws indexed new none flags))
            (run s)
    unfolding transition
    installed s =
        Meaning-execute_transition t (keys new) laws indexed new none flags _ _
          (record { same_keys = refl; consistent = new-IsConsistent })

    settled :
        (goal : ServiceMappingStatus) (key : InterDependencyMapping) (s : TraverseState)
        → Kept t (keys new) s
        → AllAt t (keys new) goal new s
        → has_key key new ≡ true
        → has_status key goal s.mappings ≡ true
    settled goal key s kept all listed =
        let (i, key', at', same) = any_position (same_dependency key) (keys new) listed in
        let same' : key' ≡ key = sym ((same_dependency_iff key key').0 same) in
        let at : get_elem? (keys new) i ≡ some key = at' ∙ ap some same' in
        has_status_at key goal s.mappings i (rw kept.same_keys at)
          (All_at _ (keys new) i key at all i (find_key_own laws new i key sorted unique at))

    -- Of a configuration that is sorted, holds no key twice, has the dependencies of each service
    -- sorted and only deactivated mappings: if the transition to it without a previous one returns
    -- `success`, each of its keys is activated.
    pub install-success :
        (s : TraverseState) (key : InterDependencyMapping)
        → (run s).0 ≡ returned success
        → has_key key new ≡ true
        → has_status key activated (run s).1.mappings ≡ true
    install-success s key e listed =
        settled activated key (run s).1 (installed s).kept (((installed s).post success e).0 refl)
          listed

    -- Of a configuration that is sorted, holds no key twice, has the dependencies of each service
    -- sorted and only deactivated mappings: if the transition to it without a previous one returns
    -- `failed`, and rollbacks are not switched off, each of its keys is deactivated.
    pub install-rollback :
        (s : TraverseState) (key : InterDependencyMapping)
        → (run s).0 ≡ returned failed
        → flags.no_rollback ≡ false
        → has_key key new ≡ true
        → has_status key deactivated (run s).1.mappings ≡ true
    install-rollback s key e rollback listed =
        settled deactivated key (run s).1 (installed s).kept
          (((installed s).post failed e).1 refl rollback) listed
