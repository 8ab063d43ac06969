-- ===== src/ProfileLocking/Notifications.antt =====
-- src/libprofilemanifest/profilelocking.c: which notifications the services of a profile get.
use mathlib.Core.List.{append_assoc, append-nil}
use disnix.Prelude.{
  ◌≡◌, refl, sym, ap, subst, ◌∙◌, String, ◌&&◌, Bool, true, false, Option, none, some, List, [],
  ◌∷◌, ◌++◌, arith, Option-cases, inl, inr, ◌⊎◌,
}
use disnix.Platform.{Table}
use disnix.Model.{ServiceMapping, ManifestService}
use disnix.ProfileLocking.{
  LockAction, lock, unlock, Notification, LockState, Machine, ProfileManifest, notification_of,
  lock_or_unlock_services, lock_services, unlock_services, lock_profile, acquire_locks,
  has_succeeded,
}

-- The notification of each mapping, in the order of the array.
abbrev pub notifications_of :
    LockAction → Table ManifestService → List ServiceMapping → Option (List Notification)
notifications_of action services [] = some []
notifications_of action services (mapping ∷ rest) =
    let others = notifications_of action services rest in
    elim (notification_of action services mapping) [
      | none ↦ none
      | some n ↦ elim others [ none ↦ none | some ns ↦ some (n ∷ ns) ]
    ]

module _ (x : Machine) where
  -- What a loop of notifications did: it told each service, and left the lock files alone.
  pub record Notified (action : LockAction) (services : Table ManifestService)
      (array : List ServiceMapping) (s s' : LockState) : Type 0 where
    pub sent : List Notification
    pub complete : notifications_of action services array ≡ some sent
    pub appended : s'.notifications ≡ s.notifications ++ sent
    pub same_files : s'.lock_files ≡ s.lock_files

  pub lock_or_unlock_services_lem :
      (action : LockAction) (services : Table ManifestService) (array : List ServiceMapping)
      (s s' : LockState) (success : Bool)
      → lock_or_unlock_services x action services array s ≡ some (success, s')
      → Notified action services array s s'
  unfolding lock_or_unlock_services
  lock_or_unlock_services_lem action services [] s s' success e =
      let same : s ≡ s' = cc in
      record {
        sent = [];
        complete = refl;
        appended = ap (λ (t : LockState). t.notifications) (sym same) ∙ sym (append-nil _);
        same_files = ap (λ (t : LockState). t.lock_files) (sym same);
      }
  lock_or_unlock_services_lem action services (mapping ∷ rest) s s' success e =
      elim (Option-cases (notification_of action services mapping)) [
        | inl missing ↦ absurd (ground arith)
        | inr (n, found) ↦
            let s₁ = record s { notifications = s.notifications ++ n ∷ [] } in
            elim (Option-cases (lock_or_unlock_services x action services rest s₁)) [
              | inl crashed ↦ absurd (ground arith)
              | inr ((b, s₂), ran) ↦
                  let same : s₂ ≡ s' = ground arith in
                  let others = lock_or_unlock_services_lem action services rest s₁ s₂ b ran in
                  record {
                    sent = n ∷ others.sent;
                    complete = ground (arith, others.complete);
                    appended =
                        ap (λ (t : LockState). t.notifications) (sym same)
                        ∙ others.appended
                        ∙ append_assoc s.notifications (n ∷ []) others.sent;
                    same_files =
                        ap (λ (t : LockState). t.lock_files) (sym same) ∙ others.same_files;
                  }
            ]
      ]

  -- The ends of acquire_locks: the services were locked and the lock file was tried, or they were
  -- not all locked and have been unlocked.
  pub record Acquired (tmpdir : String) (m : ProfileManifest) (profile : String) (s : LockState)
      (success : Bool) (s' : LockState) : Type 0 where
    pub all_locked : Bool
    pub locked : LockState
    pub locking : lock_services x m s ≡ some (all_locked, locked)
    pub told : Notified lock m.services_table m.service_mapping_array s locked
    pub ending :
        (all_locked ≡ true) × (lock_profile x tmpdir profile locked ≡ (success, s'))
        ⊎ (all_locked ≡ false)
          × (success ≡ false)
          × Notified unlock m.services_table m.service_mapping_array locked s'

  pub acquire_locks_cases :
      (tmpdir : String) (m : ProfileManifest) (profile : String) (s s' : LockState) (success : Bool)
      → acquire_locks x tmpdir m profile s ≡ some (success, s')
      → Acquired tmpdir m profile s success s'
  unfolding acquire_locks lock_services unlock_services
  acquire_locks_cases tmpdir m profile s s' success e = elim (Option-cases (lock_services x m s)) [
    | inl crashed ↦ absurd (ground arith)
    | inr ((true, locked), ran) ↦ record {
      all_locked = true;
      locked = locked;
      locking = ran;
      told =
          lock_or_unlock_services_lem lock m.services_table m.service_mapping_array s locked true
            ran;
      ending = inl (refl, ground arith);
    }
    | inr ((false, locked), ran) ↦ elim (Option-cases (unlock_services x m locked)) [
      | inl crashed ↦ absurd (ground arith)
      | inr ((b, s₂), undone) ↦
          let same : s₂ ≡ s' = ground arith in
          record {
            all_locked = false;
            locked = locked;
            locking = ran;
            told =
                lock_or_unlock_services_lem lock m.services_table m.service_mapping_array s locked
                  false ran;
            ending = inr (
              refl,
              ground arith,
              subst (Notified unlock m.services_table m.service_mapping_array locked) same (
                  lock_or_unlock_services_lem unlock m.services_table m.service_mapping_array locked
                    s₂ b undone),
            );
          }
    ]
  ]

  lock_profile-notifications :
      (tmpdir profile : String) (s : LockState)
      → (lock_profile x tmpdir profile s).1.notifications ≡ s.notifications
  unfolding lock_profile
  lock_profile-notifications tmpdir profile s = ground arith

  -- Whether each notification succeeds, when they follow others in this order.
  abbrev pub all_notified : List Notification → List Notification → Bool
  all_notified before [] = true
  all_notified before (n ∷ rest) =
      has_succeeded (x.notify before n) && all_notified (before ++ n ∷ []) rest

  lock_or_unlock_services-all_notified :
      (action : LockAction) (services : Table ManifestService) (array : List ServiceMapping)
      (s s' : LockState) (success : Bool) (ns : List Notification)
      → notifications_of action services array ≡ some ns
      → lock_or_unlock_services x action services array s ≡ some (success, s')
      → success ≡ all_notified s.notifications ns
  unfolding lock_or_unlock_services
  lock_or_unlock_services-all_notified action services [] s s' success [] h e = cc
  lock_or_unlock_services-all_notified action services [] s s' success (n ∷ ns) h e = cc
  lock_or_unlock_services-all_notified action services (mapping ∷ rest) s s' success ns h e =
      elim (Option-cases (notification_of action services mapping)) [
        | inl missing ↦ absurd (ground (arith, missing))
        | inr (n, found) ↦
            let s₁ = record s { notifications = s.notifications ++ n ∷ [] } in
            elim (Option-cases (lock_or_unlock_services x action services rest s₁)) [
              | inl crashed ↦ absurd (ground arith)
              | inr ((b, s₂), ran) ↦ elim (Option-cases (notifications_of action services rest)) [
                | inl missing ↦ absurd (ground (arith, missing, found))
                | inr (others, rest_found) ↦
                    let ih =
                      lock_or_unlock_services-all_notified action services rest s₁ s₂ b others
                        rest_found ran in
                    let all : n ∷ others ≡ ns = ground (arith, found, rest_found) in
                    subst (λ ns. success ≡ all_notified s.notifications ns) all
                      (ground (arith, ih, ran, found))
              ]
            ]
      ]

  -- An acquire_locks that returns has told each service of the profile to lock, in the order of the
  -- array. If each of these notifications succeeds, it sends nothing else; if not, it returns false
  -- and then tells each service to unlock.
  pub acquire_locks-notifications :
      (tmpdir : String) (m : ProfileManifest) (profile : String) (s s' : LockState) (success : Bool)
      → acquire_locks x tmpdir m profile s ≡ some (success, s')
      → (locks : List Notification) × (notifications_of lock m.services_table
            m.service_mapping_array
          ≡ some locks)
        × ((all_notified s.notifications locks ≡ true)
              × (s'.notifications ≡ s.notifications ++ locks)
            ⊎ (all_notified s.notifications locks ≡ false)
              × (success ≡ false)
              × (unlocks : List Notification) × (notifications_of unlock m.services_table
                    m.service_mapping_array
                  ≡ some unlocks)
              × (s'.notifications ≡ (s.notifications ++ locks) ++ unlocks))
  unfolding lock_services
  acquire_locks-notifications tmpdir m profile s s' success e =
      let run = acquire_locks_cases tmpdir m profile s s' success e in
      let all =
        lock_or_unlock_services-all_notified lock m.services_table m.service_mapping_array s
          run.locked run.all_locked run.told.sent run.told.complete run.locking in
      (
        run.told.sent,
        run.told.complete,
        elim run.ending [
          | inl (locked, ended) ↦ inl (
            sym all ∙ locked,
            sym (ap (λ (r : Bool × LockState). r.1.notifications) ended)
                ∙ lock_profile-notifications tmpdir profile run.locked
                ∙ run.told.appended,
          )
          | inr (failed, no_success, undone) ↦ inr (
            sym all ∙ failed,
            no_success,
            undone.sent,
            undone.complete,
            undone.appended ∙ ap (λ ns. ns ++ undone.sent) run.told.appended,
          )
        ],
      )
