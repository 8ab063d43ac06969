-- ===== src/ServiceMappings.antt =====
-- src/libmanifest/servicemappingarray.c and the search of src/libmanifest/interdependencymappingarray.c.
-- An array is a list, a pointer to one of its elements is a position, and NULL is `none`.
pub mod Lookup
pub mod Plan
pub mod Unique
use disnix.Prelude.{
  ℕ, ◌≡◌, Bool, true, false, ◌&&◌, Option, none, some, List, [], ◌∷◌, ◌++◌, map, filter, length,
  any, is_some, not, ltb, ◌==◌, if◌then◌else◌,
}
use disnix.Order.{IsSorted}
use disnix.Platform.{Platform}
use disnix.Model.{
  InterDependencyMapping, ServiceMapping, ServiceMappingStatus, activated, deactivated,
  as_dependency, compare_interdependency_mappings, compare_service_mappings,
}

abbrev pub keys : List ServiceMapping → List InterDependencyMapping
keys = map as_dependency

abbrev pub with_status : ServiceMappingStatus → ServiceMapping → ServiceMapping
with_status status m = record m { status = status }

module _ (p : Platform) where
  abbrev pub IsSortedArray : List ServiceMapping → Type 0
  IsSortedArray arr = IsSorted (compare_interdependency_mappings p) (keys arr)

  unfoldable pub find_interdependency_mapping :
      List InterDependencyMapping → InterDependencyMapping → Option ℕ
  find_interdependency_mapping arr key =
      p.bsearch InterDependencyMapping (compare_interdependency_mappings p) key arr

  unfoldable pub find_service_mapping : List ServiceMapping → InterDependencyMapping → Option ℕ
  find_service_mapping arr key =
      p.bsearch InterDependencyMapping (compare_interdependency_mappings p) key (keys arr)

  abbrev pub is_found : List ServiceMapping → ServiceMapping → Bool
  is_found arr mapping = is_some (find_service_mapping arr (as_dependency mapping))

  -- The loop of compare_service_mapping_arrays.
  all_found : List ServiceMapping → List ServiceMapping → Bool
  all_found [] arr = true
  all_found (mapping ∷ rest) arr =
      let others = all_found rest arr in if is_found arr mapping then others else false

  unfoldable pub compare_service_mapping_arrays : List ServiceMapping → List ServiceMapping → Bool
  unfolding all_found
  compare_service_mapping_arrays l r = if length l == length r then all_found l r else false

  unfoldable pub intersect_service_mapping_array :
      List ServiceMapping → List ServiceMapping → List ServiceMapping
  intersect_service_mapping_array left right =
      if ltb (length left) (length right)
      then filter (is_found right) left
      else filter (is_found left) right

  unfoldable pub substract_service_mapping_array :
      List ServiceMapping → List ServiceMapping → List ServiceMapping
  substract_service_mapping_array left right = filter (λ m. not (is_found right m)) left

  -- The statuses are those of the returned array, which alone is read afterwards.
  unfoldable pub unify_service_mapping_array :
      List ServiceMapping → List ServiceMapping → List ServiceMapping → List ServiceMapping
  unify_service_mapping_array left right intersect =
      p.g_ptr_array_sort ServiceMapping (compare_service_mappings p) (
        map (with_status activated) left
        ++ filter (λ m. not (is_found intersect m)) (map (with_status deactivated) right))
