-- ===== src/ServiceMappings/Unique.antt =====
-- src/libmanifest/servicemappingarray.c: how often an array holds a key.
use disnix.Prelude.{
  ℕ, ◌+◌, ◌≤◌, ◌≡◌, refl, ◌∙◌, Bool, false, not, ◌&&◌, Option, some, List, [], ◌∷◌, map, filter,
  get_elem?, get_elem?-map_inv, any_at, inl, inr, Option-cases, count, count-perm, count-append,
  count_position, arith, if◌then◌else◌,
}
use disnix.Platform.{Platform, IsPlatform}
use disnix.Model.{
  InterDependencyMapping, ServiceMapping, ServiceMappingStatus, activated, deactivated,
  as_dependency, compare_service_mappings,
}
use disnix.Model.Keys.{same_dependency, same_dependency_iff, dependency-IsOrder}
use disnix.Model.Search.{bsearch_at, is_some-bsearch}
use disnix.ServiceMappings.{
  keys, IsSortedArray, with_status, is_found, intersect_service_mapping_array,
  unify_service_mapping_array,
}
use disnix.ServiceMappings.Lookup.{
  has_key, is_some-find_service_mapping, has_key-intersect, IsSortedArray-intersect,
}
use disnix.Traverse.Consistency.{find_key}

-- How often an array holds a key.
abbrev pub occurrences : InterDependencyMapping → List ServiceMapping → ℕ
occurrences key = count (λ m. same_dependency key (as_dependency m))

abbrev pub IsUnique : List ServiceMapping → Type 0
IsUnique arr = (key : InterDependencyMapping) → occurrences key arr ≤ 1

occurrences-mark :
    (key : InterDependencyMapping) (mark : ServiceMappingStatus) (arr : List ServiceMapping)
    → occurrences key (map (with_status mark) arr) ≡ occurrences key arr
occurrences-mark key mark [] = refl
occurrences-mark key mark (m ∷ arr) = ground (arith, occurrences-mark key mark arr)

occurrences-filter :
    (key : InterDependencyMapping) (test : InterDependencyMapping → Bool)
    (arr : List ServiceMapping)
    → occurrences key (filter (λ m. test (as_dependency m)) arr)
      ≡ (if test key then occurrences key arr else 0)
occurrences-filter key test [] = ground arith
occurrences-filter key test (m ∷ arr) =
    ground (arith, occurrences-filter key test arr, same_dependency_iff key (as_dependency m))

occurrences_none :
    (key : InterDependencyMapping) (arr : List ServiceMapping)
    → has_key key arr ≡ false
    → occurrences key arr ≡ 0
occurrences_none key [] h = refl
occurrences_none key (m ∷ arr) h = ground (arith, occurrences_none key arr)

occurrences_two :
    (key : InterDependencyMapping) (arr : List ServiceMapping) (i j : ℕ)
    → occurrences key arr ≤ 1
    → get_elem? (keys arr) i ≡ some key
    → get_elem? (keys arr) j ≡ some key
    → i ≡ j
occurrences_two key arr i j h e f =
    let (m, at, same) = get_elem?-map_inv as_dependency arr i e in
    let (m', at', same') = get_elem?-map_inv as_dependency arr j f in
    count_position (λ m. same_dependency key (as_dependency m)) arr i j h at
      (ground (arith, same_dependency_iff key (as_dependency m))) at'
      (ground (arith, same_dependency_iff key (as_dependency m')))

module _ {p : Platform} (laws : IsPlatform p) where
  -- A search of a sorted array without duplicates finds the position of the key.
  pub find_key_own :
      (arr : List ServiceMapping) (i : ℕ) (key : InterDependencyMapping)
      → IsSortedArray p arr
      → IsUnique arr
      → get_elem? (keys arr) i ≡ some key
      → find_key p (keys arr) key ≡ some i
  find_key_own arr i key sorted unique at = elim (Option-cases (find_key p (keys arr) key)) [
    | inl e ↦
        let found =
          is_some-bsearch laws (dependency-IsOrder laws) same_dependency same_dependency_iff key
            (keys arr) sorted in
        absurd (
          ground (
            arith,
            found,
            any_at (same_dependency key) (keys arr) i key at ((same_dependency_iff key key).1 refl),
          ))
    | inr (j, e) ↦
        let at' =
          bsearch_at laws (dependency-IsOrder laws) same_dependency same_dependency_iff key
            (keys arr) sorted j e in
        rw (e, occurrences_two key arr i j (unique key) at at') refl
  ]

  module _ (old new : List ServiceMapping) (old_sorted : IsSortedArray p old)
      (new_sorted : IsSortedArray p new) where
    abbrev intersection : List ServiceMapping
    intersection = intersect_service_mapping_array p new old

    occurrences-unify :
        (key : InterDependencyMapping)
        → occurrences key (unify_service_mapping_array p old new intersection)
          ≡ occurrences key old
            + (if has_key key new && has_key key old then 0 else occurrences key new)
    unfolding unify_service_mapping_array
    occurrences-unify key =
        count-perm _ (laws.sort_perm ServiceMapping (compare_service_mappings p) _)
        ∙ count-append _ (map (with_status activated) old) _
        ∙ ground (
          arith,
          occurrences-mark key activated old,
          occurrences-mark key deactivated new,
          occurrences-filter key
              (λ k. not (
                is_found p intersection (record {
                  service = k.service;
                  container = k.container;
                  target = k.target;
                  container_provided_by_service = Option.none;
                  status = deactivated;
                })))
              (map (with_status deactivated) new),
          is_some-find_service_mapping laws intersection key
              (IsSortedArray-intersect laws new old new_sorted old_sorted),
          has_key-intersect laws new old key new_sorted old_sorted,
        )

    -- For two sorted configurations that hold no key twice, the unified array holds none twice.
    pub IsUnique-unify :
        IsUnique old → IsUnique new → IsUnique (unify_service_mapping_array p old new intersection)
    IsUnique-unify unique_old unique_new key = ground (
      arith,
      occurrences-unify key,
      unique_old key,
      unique_new key,
      occurrences_none key old,
      occurrences_none key new,
    )
