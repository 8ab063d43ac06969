-- ===== src/Tests/Arrays.antt =====
-- The arrays of the example deployment.
use disnix.Prelude.{
  if◌then◌else◌, ◌≤◌, ◌≡◌, false, ◌&&◌, not, none, some, List, [], ◌∷◌, is_some, String,
}
use disnix.Model.{
  ServiceMapping, deactivated, in_progress, activated, error, SnapshotMapping,
  compare_snapshot_mapping_keys,
}
use disnix.ServiceMappings.{
  find_service_mapping, intersect_service_mapping_array, substract_service_mapping_array,
  unify_service_mapping_array,
}
use disnix.ServiceMappings.Lookup.{has_key, key_at, find_service_mapping_lem}
use disnix.ServiceMappings.Plan.{has_status, unify-status, substract-plan}
use disnix.ServiceMappings.Unique.{occurrences, IsUnique-unify}
use disnix.Snapshots.{IsSortedSnapshots, subtract_snapshot_mappings}
use disnix.Snapshots.Moved.{has_snapshot, subtract_snapshot_mappings_lem}
use disnix.Tests.Strings.{strcmp}
use disnix.Tests.Machine.{platform, platform-IsPlatform}
use disnix.Tests.Upgrade.{
  database_key, old, new, old_sorted, new_sorted, old-IsUnique, new-IsUnique,
}

abbrev both : List ServiceMapping
both = intersect_service_mapping_array platform new old

abbrev unified : List ServiceMapping
unified = unify_service_mapping_array platform old new both

unify-status_example :
    (has_status database_key activated unified ≡ has_key database_key old)
    × (has_status database_key deactivated unified
        ≡ (has_key database_key new && not (has_key database_key old)))
    × (has_status database_key in_progress unified ≡ false)
    × (has_status database_key error unified ≡ false)
unify-status_example = unify-status platform-IsPlatform old new old_sorted new_sorted database_key

substract-plan_example :
    (has_key database_key (substract_service_mapping_array platform old both)
      ≡ (has_key database_key old && not (has_key database_key new)))
    × (has_key database_key (substract_service_mapping_array platform new both)
        ≡ (has_key database_key new && not (has_key database_key old)))
substract-plan_example =
    substract-plan platform-IsPlatform old new old_sorted new_sorted database_key

IsUnique-unify_example : occurrences database_key unified ≤ 1
IsUnique-unify_example =
    IsUnique-unify platform-IsPlatform old new old_sorted new_sorted old-IsUnique new-IsUnique
      database_key

find_service_mapping_example :
    (is_some (find_service_mapping platform old database_key) ≡ has_key database_key old)
    × (key_at old (find_service_mapping platform old database_key)
        ≡ (if has_key database_key old then some database_key else none))
find_service_mapping_example =
    find_service_mapping_lem platform-IsPlatform old database_key old_sorted

abbrev snapshot_of : String → String → SnapshotMapping
snapshot_of component target = record {
  component = component;
  container = "mysql";
  target = target;
  service = "s1";
  container_provided_by_service = none;
  transferred = false;
}

abbrev before : List SnapshotMapping
before = snapshot_of "db" "a" ∷ snapshot_of "log" "a" ∷ []

abbrev after : List SnapshotMapping
after = snapshot_of "db" "b" ∷ snapshot_of "log" "a" ∷ []

before_sorted : IsSortedSnapshots platform before
unfolding compare_snapshot_mapping_keys strcmp
before_sorted = ((cc, tt), (tt, tt))

subtract_snapshot_mappings_example :
    has_snapshot
      (record { component = "db"; container = "mysql"; target = "b" })
      (subtract_snapshot_mappings platform after before)
    ≡ (has_snapshot (record { component = "db"; container = "mysql"; target = "b" }) after
        && not
            (has_snapshot (record { component = "db"; container = "mysql"; target = "b" }) before))
subtract_snapshot_mappings_example =
    subtract_snapshot_mappings_lem platform-IsPlatform after before
      (record { component = "db"; container = "mysql"; target = "b" }) before_sorted
