-- ===== src/ProfileLocking.antt =====
-- src/libprofilemanifest/profilelocking.c: the lock on a profile of a machine, and the notification of
-- its services. `none` as a result stands for the dereference of a NULL pointer.
pub mod Exclusion
pub mod Notifications
use Prim.Native.String.{◌++◌ as append}
use disnix.Prelude.{
  ◌≡◌, ◌&&◌, String, Bool, true, false, Option, none, some, List, [], ◌∷◌, ◌++◌, lookup, any,
  filter, not, str_eq, if◌then◌else◌,
}
use disnix.Platform.{Table}
use disnix.Platform.Posix.{ProcReactStatus, ok}
use disnix.Model.{ServiceMapping, ManifestService}

-- The two `notify_function`s.
pub data LockAction : Type 0 where
  lock unlock : LockAction

-- What a process that notifies a service gets: statemgmt_lock and statemgmt_unlock.
pub record Notification : Type 0 where
  pub action : LockAction
  pub type : String
  pub container : String
  pub component : String

-- The lock files of the machine, and the notifications sent so far, the first one first.
pub record LockState : Type 0 where
  pub lock_files : List String
  pub notifications : List Notification

abbrev pub is_locked : String → List String → Bool
is_locked filename = any (str_eq filename)

-- How `procreact_wait_for_boolean` ends for a notification that follows others, and whether `open`
-- with O_EXCL and `unlink` succeed.
pub record Machine : Type 0 where
  pub notify : List Notification → Notification → ProcReactStatus × Bool
  pub open_exclusive : List String → String → Bool
  pub unlink : List String → String → Bool

-- POSIX: O_CREAT with O_EXCL fails if the file exists, and so does `unlink` if it does not.
pub record IsMachine (x : Machine) : Type 0 where
  pub exclusive :
      (files : List String) (filename : String)
      → x.open_exclusive files filename ≡ true
      → is_locked filename files ≡ false
  pub unlinked :
      (files : List String) (filename : String)
      → x.unlink files filename ≡ true
      → is_locked filename files ≡ true

pub record ProfileManifest : Type 0 where
  pub services_table : Table ManifestService
  pub service_mapping_array : List ServiceMapping

abbrev pub Locking : Type 0
Locking = LockState → Option (Bool × LockState)

-- `status != PROCREACT_STATUS_OK || !result` is a failure.
abbrev pub has_succeeded : ProcReactStatus × Bool → Bool
has_succeeded (ok, result) = result
has_succeeded (_, _) = false

abbrev pub and_then : Bool → Option (Bool × LockState) → Option (Bool × LockState)
and_then success none = none
and_then success (some (others, s)) = some (success && others, s)

-- The type that a service is notified with; `none` if the providing service is not in the table.
unfoldable pub notified_type :
    Table ManifestService → ServiceMapping → ManifestService → Option String
notified_type services mapping service = elim mapping.container_provided_by_service [
  | none ↦ some service.type
  | some name ↦ elim (lookup name services) [ none ↦ none | some provider ↦ some provider.pkg ]
]

unfoldable pub notification_of :
    LockAction → Table ManifestService → ServiceMapping → Option Notification
notification_of action services mapping = elim (lookup mapping.service services) [
  | none ↦ none
  | some service ↦ elim (notified_type services mapping service) [
    | none ↦ none
    | some type ↦ some (record {
      action = action;
      type = type;
      container = mapping.container;
      component = service.pkg;
    })
  ]
]

unfoldable pub create_lock_filename : String → String → String
create_lock_filename tmpdir profile = append tmpdir (append "/disnix-" (append profile ".lock"))

module _ (x : Machine) where
  -- A failed notification does not end the loop.
  unfoldable pub lock_or_unlock_services :
      LockAction → Table ManifestService → List ServiceMapping → Locking
  lock_or_unlock_services action services [] s = some (true, s)
  lock_or_unlock_services action services (mapping ∷ rest) s =
      elim (notification_of action services mapping) [
        | none ↦ none
        | some notification ↦ and_then (has_succeeded (x.notify s.notifications notification)) (
            lock_or_unlock_services action services rest
              (record s { notifications = s.notifications ++ notification ∷ [] }))
      ]

  unfoldable pub unlock_services : ProfileManifest → Locking
  unlock_services m = lock_or_unlock_services unlock m.services_table m.service_mapping_array

  unfoldable pub lock_services : ProfileManifest → Locking
  lock_services m = lock_or_unlock_services lock m.services_table m.service_mapping_array

  unfoldable pub lock_profile : String → String → LockState → Bool × LockState
  lock_profile tmpdir profile s =
      let filename = create_lock_filename tmpdir profile in
      if x.open_exclusive s.lock_files filename
      then (true, record s { lock_files = filename ∷ s.lock_files })
      else (false, s)

  unfoldable pub unlock_profile : String → String → LockState → Bool × LockState
  unlock_profile tmpdir profile s =
      let filename = create_lock_filename tmpdir profile in
      if x.unlink s.lock_files filename
      then (true, record s { lock_files = filter (λ f. not (str_eq filename f)) s.lock_files })
      else (false, s)

  abbrev pub after_locking :
      String → String → ProfileManifest → Bool × LockState → Option (Bool × LockState)
  after_locking tmpdir profile m (true, s) = some (lock_profile tmpdir profile s)
  after_locking tmpdir profile m (false, s) = and_then false (unlock_services m s)

  unfoldable pub acquire_locks : String → ProfileManifest → String → Locking
  acquire_locks tmpdir m profile s = elim (lock_services m s) [
    | none ↦ none
    | some locked ↦ after_locking tmpdir profile m locked
  ]

  abbrev pub after_unlocking : String → String → Bool × LockState → Bool × LockState
  after_unlocking tmpdir profile (success, s) =
      let (unlocked, s') = unlock_profile tmpdir profile s in (success && unlocked, s')

  -- The profile manifest may be NULL here.
  unfoldable pub release_locks : String → Option ProfileManifest → String → Locking
  release_locks tmpdir none profile s = some (after_unlocking tmpdir profile (false, s))
  release_locks tmpdir (some m) profile s = elim (unlock_services m s) [
    | none ↦ none
    | some unlocked ↦ some (after_unlocking tmpdir profile unlocked)
  ]
