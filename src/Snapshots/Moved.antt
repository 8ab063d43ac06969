-- ===== src/Snapshots/Moved.antt =====
-- src/libmanifest/snapshotmappingarray.c: what is moved, and what a machine moves.
use disnix.Prelude.{◌≡◌, refl, ◌∙◌, ◌&&◌, not, Bool, List, [], ◌∷◌, filter, any, is_some, arith}
use disnix.Platform.{Platform, IsPlatform}
use disnix.Model.{SnapshotMapping, SnapshotMappingKey, as_key}
use disnix.Model.Keys.{same_key, same_key_iff, key-IsOrder}
use disnix.Model.Search.{is_some-bsearch}
use disnix.Snapshots.{
  snapshot_keys, IsSortedSnapshots, find_snapshot_mapping, subtract_snapshot_mappings,
}

-- A linear scan for a key.
abbrev pub has_snapshot : SnapshotMappingKey → List SnapshotMapping → Bool
has_snapshot key arr = any (same_key key) (snapshot_keys arr)

has_snapshot-filter :
    (key : SnapshotMappingKey) (test : SnapshotMappingKey → Bool) (arr : List SnapshotMapping)
    → has_snapshot key (filter (λ m. test (as_key m)) arr) ≡ (has_snapshot key arr && test key)
has_snapshot-filter key test [] = refl
has_snapshot-filter key test (m ∷ arr) =
    ground (arith, has_snapshot-filter key test arr, same_key_iff key (as_key m))

module _ {p : Platform} (laws : IsPlatform p) where
  find_snapshot_mapping_lem :
      (arr : List SnapshotMapping) (key : SnapshotMappingKey)
      → IsSortedSnapshots p arr
      → is_some (find_snapshot_mapping p arr key) ≡ has_snapshot key arr
  unfolding find_snapshot_mapping
  find_snapshot_mapping_lem arr key sorted =
      is_some-bsearch laws (key-IsOrder laws) same_key same_key_iff key (snapshot_keys arr) sorted

  -- If the second array is sorted, the subtraction holds exactly the keys of the first that the
  -- second lacks.
  pub subtract_snapshot_mappings_lem :
      (left right : List SnapshotMapping) (key : SnapshotMappingKey)
      → IsSortedSnapshots p right
      → has_snapshot key (subtract_snapshot_mappings p left right)
        ≡ (has_snapshot key left && not (has_snapshot key right))
  unfolding subtract_snapshot_mappings
  subtract_snapshot_mappings_lem left right key sorted =
      has_snapshot-filter key (λ k. not (is_some (find_snapshot_mapping p right k))) left
      ∙ ground (arith, find_snapshot_mapping_lem right key sorted)
