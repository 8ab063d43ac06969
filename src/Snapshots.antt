-- ===== src/Snapshots.antt =====
-- src/libmanifest/snapshotmappingarray.c: the arrays of mappings whose state is moved.
pub mod Moved
use disnix.Prelude.{
  ℕ, ◌≡◌, ◌&&◌, ◌||◌, ◌==◌, String, Bool, true, false, Option, none, some, List, [], ◌∷◌, map,
  filter, length, is_some, not, Ordering, if◌then◌else◌,
}
use disnix.Order.{IsSorted}
use disnix.Platform.{Platform}
use disnix.Model.{
  SnapshotMapping, SnapshotMappingKey, as_key, compare_snapshot_mapping_keys,
  compare_snapshot_mapping,
}

abbrev pub snapshot_keys : List SnapshotMapping → List SnapshotMappingKey
snapshot_keys = map as_key

abbrev is_eq : Ordering → Bool
is_eq Ordering.eq = true
is_eq Ordering.lt = false
is_eq Ordering.gt = false

module _ (p : Platform) where
  abbrev pub IsSortedSnapshots : List SnapshotMapping → Type 0
  IsSortedSnapshots arr = IsSorted (compare_snapshot_mapping_keys p) (snapshot_keys arr)

  unfoldable pub find_snapshot_mapping : List SnapshotMapping → SnapshotMappingKey → Option ℕ
  find_snapshot_mapping arr key =
      p.bsearch SnapshotMappingKey (compare_snapshot_mapping_keys p) key (snapshot_keys arr)

  unfoldable pub subtract_snapshot_mappings :
      List SnapshotMapping → List SnapshotMapping → List SnapshotMapping
  subtract_snapshot_mappings left right =
      filter (λ m. not (is_some (find_snapshot_mapping right (as_key m)))) left

  unfoldable pub find_snapshot_mappings_per_target :
      List SnapshotMapping → String → List SnapshotMapping
  unfolding is_eq
  find_snapshot_mappings_per_target arr target =
      filter (λ m. is_eq (p.xml_strcmp m.target target)) arr

  -- A filter that is NULL selects everything.
  abbrev selects : Option String → String → Bool
  selects none text = true
  selects (some wanted) text = is_eq (p.xml_strcmp wanted text)

  unfoldable pub mapping_is_selected : SnapshotMapping → Option String → Option String → Bool
  mapping_is_selected m container_filter component_filter =
      selects container_filter m.container && selects component_filter m.component

  unfoldable pub filter_selected_mappings :
      List SnapshotMapping → Option String → Option String → List SnapshotMapping
  filter_selected_mappings arr none none = arr
  filter_selected_mappings arr container_filter component_filter =
      filter (λ m. mapping_is_selected m container_filter component_filter) arr

  -- The loop of compare_snapshot_mapping_arrays.
  snapshots_found : List SnapshotMapping → List SnapshotMapping → Bool
  snapshots_found [] arr = true
  snapshots_found (mapping ∷ rest) arr =
      let others = snapshots_found rest arr in
      if is_some (find_snapshot_mapping arr (as_key mapping)) then others else false

  unfoldable pub compare_snapshot_mapping_arrays :
      List SnapshotMapping → List SnapshotMapping → Bool
  unfolding snapshots_found
  compare_snapshot_mapping_arrays left right =
      if length left == length right then snapshots_found left right else false

  unfoldable pub parse_snapshot_mapping_array :
      List SnapshotMapping → Option String → Option String → List SnapshotMapping
  parse_snapshot_mapping_array parsed container_filter component_filter =
      filter_selected_mappings
        (p.g_ptr_array_sort SnapshotMapping (compare_snapshot_mapping p) parsed) container_filter
        component_filter

unfoldable pub reset_snapshot_items_transferred_status : List SnapshotMapping → List SnapshotMapping
reset_snapshot_items_transferred_status =
    map (λ (m : SnapshotMapping). record m { transferred = false })
