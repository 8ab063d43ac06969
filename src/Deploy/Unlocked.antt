-- ===== src/Deploy/Unlocked.antt =====
-- src/libdeploy/deploy.c: the locks along each path of a deployment.
use disnix.Prelude.{
  ◌≡◌, refl, sym, ap, subst, ◌||◌, String, Bool, true, false, Option, some, arith, Option-cases,
  inl, inr, if◌then◌else◌,
}
use disnix.Model.{Manifest}
use disnix.Locking.{Driver, IsDriver, LockingState, lock, unlock}
use disnix.Locking.Events.{is_in, has_entry}
use disnix.Locking.Release.{unlock-to_release, lock-to_release}
use disnix.Transition.{
  Flags, TransitionStatus, success, failed, obsolete_mappings_rollback_failed,
  new_mappings_rollback_failed,
}
use disnix.Deploy.{
  DeployStatus, deploy_ok, deploy_fail, deploy_state_fail, Phases, Deployment, stop, ◌>>=◌,
  of_phase, of_locking, acquire_locks, release_locks, migrate_data, release_and_fail, finish,
  after_migration, after_activation, after_locking, after_distribution, deploy,
}

module _ {W : Type 0} (phases : Phases W) {x : Driver} (laws : IsDriver x) (manifest : Manifest)
    (flags : Flags) (locking : flags.no_lock ≡ false) (start : LockingState) where
  -- Only what was to be released at the start, or is in the table, is to be released.
  abbrev Own : LockingState → Type 0
  Own l =
      (name : String)
      → is_in name l.to_release ≡ true
      → (is_in name start.to_release || has_entry name manifest.profile_mapping_table) ≡ true

  -- Only what was to be released at the start is to be released.
  abbrev Free : LockingState → Type 0
  Free l = (name : String) → is_in name l.to_release ≡ true → is_in name start.to_release ≡ true

  -- If the deployment ends, the locks are as `Q` says.
  abbrev Ensures :
      {A : Type 0} → (A → LockingState → Type 0) → Option (A × LockingState × W) → Type 0
  Ensures {A} Q r = (a : A) (l : LockingState) (w : W) → r ≡ some (a, l, w) → Q a l

  Ensures-bind :
      {A B : Type 0} (Q : A → LockingState → Type 0) (R : B → LockingState → Type 0)
      (m : Deployment W A) (f : A → Deployment W B) (s : LockingState × W)
      → Ensures Q (m s)
      → ((a : A) (l : LockingState) (w : W) → Q a l → Ensures R (f a (l, w)))
      → Ensures R ((m >>= f) s)
  Ensures-bind Q R m f s h k b l w e = elim (Option-cases (m s)) [
    | inl stopped ↦ absurd (ground arith)
    | inr ((a, l', w'), ran) ↦ k a l' w' (h a l' w' ran) b l w (ground arith)
  ]

  Ensures-stop :
      {A : Type 0} (Q : A → LockingState → Type 0) (a : A) (l : LockingState) (w : W)
      → Q a l
      → Ensures Q (stop a (l, w))
  Ensures-stop Q a l w h b l' w' e =
      let same_a : a ≡ b = ground arith in
      let same_l : l ≡ l' = ground arith in subst (λ c. Q c l') same_a (subst (Q a) same_l h)

  -- A phase leaves the locks alone.
  Ensures-phase :
      {A : Type 0} (Q : LockingState → Type 0) (f : W → Option (A × W)) (l : LockingState) (w : W)
      → Q l
      → Ensures (λ a. Q) (of_phase f (l, w))
  Ensures-phase Q f l w h a l' w' e = elim (Option-cases (f w)) [
    | inl stopped ↦ absurd (ground arith)
    | inr (r, ran) ↦ subst Q (ground arith) h
  ]

  Ensures-release :
      (l : LockingState) (w : W)
      → Own l
      → Ensures (λ b. Free) (release_locks phases x manifest flags (l, w))
  unfolding release_locks
  Ensures-release l w own b l' w' e name held =
      let table = manifest.profile_mapping_table in
      let targets = manifest.targets_table in
      let e' : of_locking {W = W} (unlock x targets table) (l, w) ≡ some (b, l', w') =
        rw locking at e in
      elim (Option-cases (unlock x targets table l)) [
        | inl stopped ↦ absurd (ground arith)
        | inr ((b', l''), ran) ↦
            let same : l'' ≡ l' = ground arith in
            let held' : is_in name l''.to_release ≡ true =
              subst (λ (l : LockingState). is_in name l.to_release ≡ true) (sym same) held in
            ground (arith, unlock-to_release laws targets table l l'' b' name ran, own name)
      ]

  Ensures-acquire :
      (l : LockingState) (w : W)
      → Free l
      → Ensures
          (λ (b : Bool) l'. Own l' × (b ≡ false → Free l'))
          (acquire_locks phases x manifest flags (l, w))
  unfolding acquire_locks
  Ensures-acquire l w free b l' w' e =
      let table = manifest.profile_mapping_table in
      let targets = manifest.targets_table in
      let e' : of_locking {W = W} (lock x targets table) (l, w) ≡ some (b, l', w') =
        rw locking at e in
      elim (Option-cases (lock x targets table l)) [
        | inl stopped ↦ absurd (ground arith)
        | inr ((b', l''), ran) ↦
            let same : l'' ≡ l' = ground arith in
            let result : b' ≡ b = ground arith in
            (
              (λ name held. ground (
                arith,
                lock-to_release laws targets table l l'' b' name ran,
                ap (λ (l : LockingState). is_in name l.to_release) same,
                free name,
              )),
              (λ failed name held. ground (
                arith,
                lock-to_release laws targets table l l'' b' name ran,
                ap (λ (l : LockingState). is_in name l.to_release) same,
                free name,
              )),
            )
      ]

  Ensures-give_up :
      (status : DeployStatus) (l : LockingState) (w : W)
      → Own l
      → Ensures (λ status. Free) (release_and_fail phases x manifest flags status (l, w))
  Ensures-give_up status l w own =
      Ensures-bind (λ b. Free) (λ status. Free) (release_locks phases x manifest flags)
        (λ b. stop status) (l, w) (Ensures-release l w own)
        λ b l' w' free. Ensures-stop (λ status. Free) status l' w' free

  Ensures-finish :
      (done : Bool) (l : LockingState) (w : W)
      → Own l
      → Ensures (λ status. Free) (finish phases x manifest flags done (l, w))
  Ensures-finish true l w own =
      Ensures-bind (λ b. Free) (λ status. Free) (release_locks phases x manifest flags)
        (λ released. stop (if released then deploy_ok else deploy_fail)) (l, w)
        (Ensures-release l w own) λ b l' w' free. Ensures-stop (λ status. Free) _ l' w' free
  Ensures-finish false l w own = Ensures-give_up deploy_fail l w own

  Ensures-after_migration :
      (done : Bool) (l : LockingState) (w : W)
      → Own l
      → Ensures (λ status. Free) (after_migration phases x manifest flags done (l, w))
  Ensures-after_migration true l w own =
      Ensures-bind (λ b. Own) (λ status. Free) (of_phase phases.set_profiles)
        (finish phases x manifest flags) (l, w) (Ensures-phase Own phases.set_profiles l w own)
        Ensures-finish
  Ensures-after_migration false l w own = Ensures-give_up deploy_state_fail l w own

  Ensures-migrate :
      (l : LockingState) (w : W)
      → Own l
      → Ensures (λ b. Own) (migrate_data phases x manifest flags (l, w))
  unfolding migrate_data
  Ensures-migrate l w own = go flags.no_migration
    where
      go :
          (no_migration : Bool)
          → Ensures
              (λ b. Own)
              ((if no_migration then stop true else of_phase phases.migrate) (l, w))
      go true = Ensures-stop (λ b. Own) true l w own
      go false = Ensures-phase Own phases.migrate l w own

  Ensures-after_activation :
      (status : TransitionStatus) (l : LockingState) (w : W)
      → Own l
      → Ensures (λ status. Free) (after_activation phases x manifest flags status (l, w))
  Ensures-after_activation success l w own =
      Ensures-bind (λ b. Own) (λ status. Free) (migrate_data phases x manifest flags)
        (after_migration phases x manifest flags) (l, w) (Ensures-migrate l w own)
        Ensures-after_migration
  Ensures-after_activation failed l w own = Ensures-give_up deploy_fail l w own
  Ensures-after_activation obsolete_mappings_rollback_failed l w own =
      Ensures-give_up deploy_fail l w own
  Ensures-after_activation new_mappings_rollback_failed l w own =
      Ensures-give_up deploy_fail l w own

  Ensures-after_locking :
      (locked : Bool) (l : LockingState) (w : W)
      → Own l × (locked ≡ false → Free l)
      → Ensures (λ status. Free) (after_locking phases x manifest flags locked (l, w))
  Ensures-after_locking true l w h =
      Ensures-bind (λ b. Own) (λ status. Free) (of_phase phases.activate_system)
        (after_activation phases x manifest flags) (l, w)
        (Ensures-phase Own phases.activate_system l w h.0) Ensures-after_activation
  Ensures-after_locking false l w h = Ensures-stop (λ status. Free) deploy_fail l w (h.1 refl)

  Ensures-after_distribution :
      (distributed : Bool) (l : LockingState) (w : W)
      → Free l
      → Ensures (λ status. Free) (after_distribution phases x manifest flags distributed (l, w))
  Ensures-after_distribution true l w free =
      Ensures-bind (λ (b : Bool) l'. Own l' × (b ≡ false → Free l')) (λ status. Free)
        (acquire_locks phases x manifest flags) (after_locking phases x manifest flags) (l, w)
        (Ensures-acquire l w free) Ensures-after_locking
  Ensures-after_distribution false l w free = Ensures-stop (λ status. Free) deploy_fail l w free

-- If libprocreact calls `next` once for each entry: after a deployment that takes locks and
-- returns, with whatever status, each target that has confirmed a lock and has not been told to
-- unlock since was such before.
pub deploy-unlocked :
    {W : Type 0} (phases : Phases W) {x : Driver} (laws : IsDriver x) (manifest : Manifest)
    (flags : Flags) (l l' : LockingState) (w w' : W) (status : DeployStatus) (name : String)
    → flags.no_lock ≡ false
    → deploy phases x manifest flags (l, w) ≡ some (status, l', w')
    → is_in name l'.to_release ≡ true
    → is_in name l.to_release ≡ true
unfolding deploy
deploy-unlocked phases {x = x} laws manifest flags l l' w w' status name locking e held =
    Ensures-bind phases laws manifest flags locking l
      (λ b. Free phases laws manifest flags locking l)
      (λ status. Free phases laws manifest flags locking l) (of_phase phases.distribute)
      (after_distribution phases x manifest flags) (l, w)
      (Ensures-phase phases laws manifest flags locking l
        (Free phases laws manifest flags locking l) phases.distribute l w (λ n h. h))
      (Ensures-after_distribution phases laws manifest flags locking l) status l' w' e name held
