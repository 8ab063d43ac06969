-- ===== src/ServiceMappings/Lookup.antt =====
-- src/libmanifest/servicemappingarray.c: its searches and set operations beside linear scans.
use disnix.Prelude.{
  ℕ, Option, none, some, Option-cases, if◌then◌else◌, get_elem?, ◌≡◌, refl, ap, ◌∙◌, Bool, ◌&&◌,
  not, List, [], ◌∷◌, filter, any, is_some, arith, Bool-cases, inl, inr, length, ltb,
}
use disnix.Order.{IsSorted, IsSorted-filter, IsSorted-map, IsSorted-map_inv}
use disnix.Platform.{Platform, IsPlatform}
use disnix.Model.{
  InterDependencyMapping, ServiceMapping, as_dependency, compare_interdependency_mappings,
}
use disnix.Model.Keys.{same_dependency, same_dependency_iff, dependency-IsOrder}
use disnix.Model.Search.{is_some-bsearch, bsearch_at}
use disnix.ServiceMappings.{
  keys, IsSortedArray, find_interdependency_mapping, find_service_mapping, is_found,
  intersect_service_mapping_array, substract_service_mapping_array,
}

-- A linear scan for a key.
abbrev pub has_key : InterDependencyMapping → List ServiceMapping → Bool
has_key key arr = any (same_dependency key) (keys arr)

-- The key of the mapping at a position, if there is one.
abbrev pub key_at : List ServiceMapping → Option ℕ → Option InterDependencyMapping
key_at arr none = none
key_at arr (some i) = get_elem? (keys arr) i

module _ {p : Platform} (laws : IsPlatform p) where
  pub is_some-find_service_mapping :
      (arr : List ServiceMapping) (key : InterDependencyMapping)
      → IsSortedArray p arr
      → is_some (find_service_mapping p arr key) ≡ has_key key arr
  unfolding find_service_mapping
  is_some-find_service_mapping arr key sorted =
      is_some-bsearch laws (dependency-IsOrder laws) same_dependency same_dependency_iff key
        (keys arr) sorted

  -- On a sorted array find_service_mapping finds a position exactly when a linear scan finds the
  -- key, and the mapping at that position has the key.
  pub find_service_mapping_lem :
      (arr : List ServiceMapping) (key : InterDependencyMapping)
      → IsSortedArray p arr
      → (is_some (find_service_mapping p arr key) ≡ has_key key arr)
        × (key_at arr (find_service_mapping p arr key)
            ≡ (if has_key key arr then some key else none))
  unfolding find_service_mapping
  find_service_mapping_lem arr key sorted =
      let same = is_some-find_service_mapping arr key sorted in
      (
        same,
        elim (Option-cases (find_service_mapping p arr key)) [
          | inl missing ↦ ground (arith, same, missing)
          | inr (i, found) ↦
              let at =
                bsearch_at laws (dependency-IsOrder laws) same_dependency same_dependency_iff key
                  (keys arr) sorted i found in
              ground (arith, same, found, at)
        ],
      )

  pub find_interdependency_mapping_lem :
      (arr : List InterDependencyMapping) (key : InterDependencyMapping)
      → IsSorted (compare_interdependency_mappings p) arr
      → is_some (find_interdependency_mapping p arr key) ≡ any (same_dependency key) arr
  unfolding find_interdependency_mapping
  find_interdependency_mapping_lem arr key sorted =
      is_some-bsearch laws (dependency-IsOrder laws) same_dependency same_dependency_iff key arr
        sorted

-- A filter by the key alone keeps the order, and the keys that pass.
module _ (p : Platform) (test : ServiceMapping → Bool) where
  pub IsSortedArray-filter :
      (arr : List ServiceMapping) → IsSortedArray p arr → IsSortedArray p (filter test arr)
  IsSortedArray-filter arr sorted = IsSorted-map _ as_dependency _ (
      IsSorted-filter _ test arr
        (IsSorted-map_inv (compare_interdependency_mappings p) as_dependency arr sorted))

module _ (test : InterDependencyMapping → Bool) where
  pub has_key-filter :
      (key : InterDependencyMapping) (arr : List ServiceMapping)
      → has_key key (filter (λ m. test (as_dependency m)) arr) ≡ (has_key key arr && test key)
  has_key-filter key [] = refl
  has_key-filter key (m ∷ arr) =
      ground (arith, has_key-filter key arr, same_dependency_iff key (as_dependency m))

module _ {p : Platform} (laws : IsPlatform p) where
  -- A mapping of a sorted array is found in another exactly when a scan finds it.
  pub has_key-filter_found :
      (left right : List ServiceMapping) (key : InterDependencyMapping)
      → IsSortedArray p right
      → has_key key (filter (is_found p right) left) ≡ (has_key key left && has_key key right)
  has_key-filter_found left right key sorted =
      has_key-filter (λ k. is_some (find_service_mapping p right k)) key left
      ∙ ap (λ b. has_key key left && b) (is_some-find_service_mapping laws right key sorted)

  -- The intersection holds exactly the keys of both arrays.
  pub has_key-intersect :
      (left right : List ServiceMapping) (key : InterDependencyMapping)
      → IsSortedArray p left
      → IsSortedArray p right
      → has_key key (intersect_service_mapping_array p left right)
        ≡ (has_key key left && has_key key right)
  unfolding intersect_service_mapping_array
  has_key-intersect left right key l r = elim (Bool-cases (ltb (length left) (length right))) [
    | inl e ↦ rw e (has_key-filter_found left right key r)
    | inr e ↦ rw e (ground (arith, has_key-filter_found right left key l))
  ]

  pub IsSortedArray-intersect :
      (left right : List ServiceMapping)
      → IsSortedArray p left
      → IsSortedArray p right
      → IsSortedArray p (intersect_service_mapping_array p left right)
  unfolding intersect_service_mapping_array
  IsSortedArray-intersect left right l r = elim (Bool-cases (ltb (length left) (length right))) [
    | inl e ↦ rw e (IsSortedArray-filter p (is_found p right) left l)
    | inr e ↦ rw e (IsSortedArray-filter p (is_found p left) right r)
  ]

  -- The subtraction holds exactly the keys of the left array that the right one lacks.
  pub has_key-substract :
      (left right : List ServiceMapping) (key : InterDependencyMapping)
      → IsSortedArray p right
      → has_key key (substract_service_mapping_array p left right)
        ≡ (has_key key left && not (has_key key right))
  unfolding substract_service_mapping_array
  has_key-substract left right key sorted =
      has_key-filter (λ k. not (is_some (find_service_mapping p right k))) key left
      ∙ ap (λ b. has_key key left && not b) (is_some-find_service_mapping laws right key sorted)

  pub IsSortedArray-substract :
      (left right : List ServiceMapping)
      → IsSortedArray p left
      → IsSortedArray p (substract_service_mapping_array p left right)
  unfolding substract_service_mapping_array
  IsSortedArray-substract left right l =
      IsSortedArray-filter p (λ m. not (is_found p right m)) left l
