-- ===== src/Tests/Profiles.antt =====
-- The lock on the profile of a machine of the example deployment.
use disnix.Prelude.{◌≡◌, refl, not, String, true, false, some, List, [], ◌∷◌, ◌++◌, ◌⊎◌, arith}
use disnix.Platform.Posix.{ok}
use disnix.ProfileLocking.{
  LockAction, lock, unlock, Notification, LockState, Machine, IsMachine, ProfileManifest, is_locked,
  notified_type, notification_of, create_lock_filename, lock_or_unlock_services, lock_services,
  unlock_services, lock_profile, acquire_locks,
}
use disnix.ProfileLocking.Exclusion.{held, acquire_locks-free, acquire_locks-exclusive}
use disnix.ProfileLocking.Notifications.{
  notifications_of, all_notified, acquire_locks-notifications,
}
use disnix.Tests.Upgrade.{new_manifest}

-- Every notification succeeds, and the file system does what it should.
abbrev machine : Machine
machine = record {
  notify = λ sent n. (ok, true);
  open_exclusive = λ files filename. not (is_locked filename files);
  unlink = λ files filename. is_locked filename files;
}

machine-IsMachine : IsMachine machine
machine-IsMachine = record {
  exclusive = λ files filename e. ground arith;
  unlinked = λ files filename e. e;
}

abbrev profile_manifest : ProfileManifest
profile_manifest = record {
  services_table = new_manifest.services_table;
  service_mapping_array = new_manifest.service_mapping_array;
}

abbrev notification : LockAction → String → String → Notification
notification action container component = record {
  action = action;
  type = "process";
  container = container;
  component = component;
}

abbrev free : LockState
free = record { lock_files = []; notifications = [] }

abbrev locked : LockState
locked = record {
  lock_files = "/tmp/disnix-default.lock" ∷ [];
  notifications = notification lock "mysql" "db" ∷ notification lock "web" "shop2" ∷ [];
}

-- The services stay locked by the second user, who did not get the profile.
abbrev refused : LockState
refused = record {
  lock_files = "/tmp/disnix-default.lock" ∷ [];
  notifications =
      notification lock "mysql" "db"
      ∷ notification lock "web" "shop2"
      ∷ notification lock "mysql" "db"
      ∷ notification lock "web" "shop2"
      ∷ [];
}

first : acquire_locks machine "/tmp" profile_manifest "default" free ≡ some (true, locked)
unfolding acquire_locks lock_services unlock_services lock_or_unlock_services lock_profile
    create_lock_filename notification_of notified_type
first = refl

second : acquire_locks machine "/tmp" profile_manifest "default" locked ≡ some (false, refused)
unfolding acquire_locks lock_services unlock_services lock_or_unlock_services lock_profile
    create_lock_filename notification_of notified_type
second = refl

acquire_locks-free_example :
    (held machine-IsMachine "/tmp" "default" free ≡ false)
    × (held machine-IsMachine "/tmp" "default" locked ≡ true)
acquire_locks-free_example =
    acquire_locks-free machine-IsMachine "/tmp" "default" profile_manifest free locked first

acquire_locks-exclusive_example :
    (false ≡ false) × (held machine-IsMachine "/tmp" "default" refused ≡ true)
acquire_locks-exclusive_example =
    acquire_locks-exclusive machine-IsMachine "/tmp" "default" profile_manifest profile_manifest
      free locked refused false first second

acquire_locks-notifications_example :
    (locks : List Notification) × (notifications_of lock profile_manifest.services_table
        profile_manifest.service_mapping_array
      ≡ some locks)
    × ((all_notified machine locked.notifications locks ≡ true)
          × (refused.notifications ≡ locked.notifications ++ locks)
        ⊎ (all_notified machine locked.notifications locks ≡ false)
          × (false ≡ false)
          × (unlocks : List Notification) × (notifications_of unlock profile_manifest.services_table
                profile_manifest.service_mapping_array
              ≡ some unlocks)
          × (refused.notifications ≡ (locked.notifications ++ locks) ++ unlocks))
acquire_locks-notifications_example =
    acquire_locks-notifications machine "/tmp" profile_manifest "default" locked refused false
      second
