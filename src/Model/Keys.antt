-- ===== src/Model/Keys.antt =====
-- The key of a mapping: equality of keys as a test, and the orders by which arrays are sorted.
use disnix.Prelude.{◌≡◌, ◌↔◌, Bool, true, ◌&&◌, arith, str_eq, eq_iff}
use disnix.Order.{IsOrder, IsOrder-map, IsOrder-or_else}
use disnix.Platform.{Platform, IsPlatform}
use disnix.Model.{
  InterDependencyMapping, SnapshotMappingKey, compare_interdependency_mappings,
  compare_snapshot_mapping_keys,
}

unfoldable pub same_dependency : InterDependencyMapping → InterDependencyMapping → Bool
same_dependency j k =
    str_eq j.service k.service && str_eq j.container k.container && str_eq j.target k.target

pub same_dependency_iff : (j k : InterDependencyMapping) → (same_dependency j k ≡ true) ↔ (j ≡ k)
unfolding same_dependency
same_dependency_iff j k =
    ground
      (arith, eq_iff j.service k.service, eq_iff j.container k.container, eq_iff j.target k.target)

unfoldable pub same_key : SnapshotMappingKey → SnapshotMappingKey → Bool
same_key j k =
    str_eq j.component k.component && str_eq j.container k.container && str_eq j.target k.target

pub same_key_iff : (j k : SnapshotMappingKey) → (same_key j k ≡ true) ↔ (j ≡ k)
unfolding same_key
same_key_iff j k = ground (
  arith,
  eq_iff j.component k.component,
  eq_iff j.container k.container,
  eq_iff j.target k.target,
)

module _ {p : Platform} (laws : IsPlatform p) where
  pub dependency-IsOrder : IsOrder (compare_interdependency_mappings p)
  unfolding compare_interdependency_mappings
  dependency-IsOrder =
      IsOrder-map
        (IsOrder-or_else laws.strcmp_order (IsOrder-or_else laws.strcmp_order laws.strcmp_order))
        (λ k. (k.target, (k.container, k.service))) (λ j k e. ground arith)

  pub key-IsOrder : IsOrder (compare_snapshot_mapping_keys p)
  unfolding compare_snapshot_mapping_keys
  key-IsOrder =
      IsOrder-map
        (IsOrder-or_else laws.strcmp_order (IsOrder-or_else laws.strcmp_order laws.strcmp_order))
        (λ k. (k.target, (k.container, k.component))) (λ j k e. ground arith)
