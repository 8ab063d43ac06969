-- ===== src/Deploy.antt =====
-- src/libdeploy/deploy.c and src/libdeploy/activate.c: the phases of a deployment under the locks.
-- `none` as a result stands for a run that crashes or does not end in a phase.
pub mod Unlocked
use disnix.Prelude.{◌≡◌, ◌&&◌, String, Bool, true, false, Option, none, some, if◌then◌else◌, ℕ}
use disnix.Platform.{Platform, Table}
use disnix.Platform.Posix.{World}
use disnix.Model.{Target, Manifest}
use disnix.Locking.{Driver, LockingState, lock, unlock}
use disnix.Traverse.State.{TraverseState, Outcome, Step}
use disnix.Transition.{
  Flags, TransitionStatus, success, failed, obsolete_mappings_rollback_failed,
  new_mappings_rollback_failed, transition,
}

pub data DeployStatus : Type 0 where
  deploy_ok deploy_fail deploy_state_fail : DeployStatus

-- The phases that change `W`, the state of the machines apart from their locks.
pub record Phases (W : Type 0) : Type 0 where
  pub distribute : W → Option (Bool × W)
  pub activate_system : W → Option (TransitionStatus × W)
  pub migrate : W → Option (Bool × W)
  pub set_profiles : W → Option (Bool × W)

-- A hook that may be NULL.
abbrev pub run_hook : Option (TraverseState → TraverseState) → TraverseState → TraverseState
run_hook none s = s
run_hook (some hook) s = hook s

unfoldable pub activate_system :
    Platform
    → World
    → ℕ
    → ℕ
    → Manifest
    → Option Manifest
    → Flags
    → Option (TraverseState → TraverseState)
    → Option (TraverseState → TraverseState)
    → Step TransitionStatus
activate_system p w depth rounds manifest previous flags pre_hook post_hook s =
    let previous' = if flags.no_upgrade then none else previous in
    let (status, s') = transition p w depth rounds manifest previous' flags (run_hook pre_hook s) in
    (status, run_hook post_hook s')

abbrev pub Deployment : Type 0 → Type 0 → Type 0
Deployment W A = LockingState × W → Option (A × LockingState × W)

module _ {W : Type 0} where
  abbrev pub stop : {A : Type 0} → A → Deployment W A
  stop a (l, w) = some (a, l, w)

  infixl 5 ◌>>=◌
  abbrev pub ◌>>=◌ : {A B : Type 0} → Deployment W A → (A → Deployment W B) → Deployment W B
  ◌>>=◌ m f s = elim (m s) [ none ↦ none | some (a, l, w) ↦ f a (l, w) ]

  abbrev pub of_phase : {A : Type 0} → (W → Option (A × W)) → Deployment W A
  of_phase f (l, w) = elim (f w) [ none ↦ none | some (a, w') ↦ some (a, l, w') ]

  abbrev pub of_locking : {A : Type 0} → (LockingState → Option (A × LockingState)) → Deployment W A
  of_locking f (l, w) = elim (f l) [ none ↦ none | some (a, l') ↦ some (a, l', w) ]

  module _ (phases : Phases W) (x : Driver) (manifest : Manifest) (flags : Flags) where
    unfoldable pub acquire_locks : Deployment W Bool
    acquire_locks =
        if flags.no_lock
        then stop true
        else of_locking (lock x manifest.targets_table manifest.profile_mapping_table)

    unfoldable pub release_locks : Deployment W Bool
    release_locks =
        if flags.no_lock
        then stop true
        else of_locking (unlock x manifest.targets_table manifest.profile_mapping_table)

    unfoldable pub migrate_data : Deployment W Bool
    migrate_data = if flags.no_migration then stop true else of_phase phases.migrate

    -- The failure of a phase under the locks.
    abbrev pub release_and_fail : DeployStatus → Deployment W DeployStatus
    release_and_fail status = release_locks >>= λ released. stop status

    abbrev pub finish : Bool → Deployment W DeployStatus
    finish true = release_locks >>= λ released. stop (if released then deploy_ok else deploy_fail)
    finish false = release_and_fail deploy_fail

    abbrev pub after_migration : Bool → Deployment W DeployStatus
    after_migration true = of_phase phases.set_profiles >>= finish
    after_migration false = release_and_fail deploy_state_fail

    abbrev pub after_activation : TransitionStatus → Deployment W DeployStatus
    after_activation success = migrate_data >>= after_migration
    after_activation _ = release_and_fail deploy_fail

    abbrev pub after_locking : Bool → Deployment W DeployStatus
    after_locking true = of_phase phases.activate_system >>= after_activation
    after_locking false = stop deploy_fail

    abbrev pub after_distribution : Bool → Deployment W DeployStatus
    after_distribution true = acquire_locks >>= after_locking
    after_distribution false = stop deploy_fail

    unfoldable pub deploy : Deployment W DeployStatus
    deploy = of_phase phases.distribute >>= after_distribution
