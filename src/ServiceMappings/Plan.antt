-- ===== src/ServiceMappings/Plan.antt =====
-- What `transition` computes from two configurations: the arrays to deactivate and to activate, and
-- the unified array with its statuses.
use disnix.Prelude.{
  ◌≡◌, ◌↔◌, refl, ◌∙◌, Bool, true, false, ◌&&◌, ◌||◌, not, List, [], ◌∷◌, map, filter, any, Option,
  any-append, any-perm, arith,
}
use disnix.Order.{IsSorted-map}
use disnix.Platform.{Platform, IsPlatform}
use disnix.Model.{
  InterDependencyMapping, ServiceMapping, ServiceMappingStatus, activated, deactivated, in_progress,
  error, as_dependency, compare_interdependency_mappings, compare_service_mappings,
}
use disnix.Model.Keys.{same_dependency, same_dependency_iff, dependency-IsOrder}
use disnix.ServiceMappings.{
  IsSortedArray, with_status, is_found, intersect_service_mapping_array,
  substract_service_mapping_array, unify_service_mapping_array,
}
use disnix.ServiceMappings.Lookup.{
  has_key, is_some-find_service_mapping, has_key-intersect, IsSortedArray-intersect,
  has_key-substract,
}

abbrev pub same_status : ServiceMappingStatus → ServiceMappingStatus → Bool
same_status deactivated deactivated = true
same_status in_progress in_progress = true
same_status activated activated = true
same_status error error = true
same_status _ _ = false

pub same_status_iff : (a b : ServiceMappingStatus) → (same_status a b ≡ true) ↔ (a ≡ b)
same_status_iff a b = ground arith

-- A linear scan for a key with a status.
abbrev pub has_status : InterDependencyMapping → ServiceMappingStatus → List ServiceMapping → Bool
has_status key status =
    any (λ m. same_dependency key (as_dependency m) && same_status status m.status)

has_status-marked :
    (key : InterDependencyMapping) (status mark : ServiceMappingStatus) (arr : List ServiceMapping)
    → has_status key status (map (with_status mark) arr)
      ≡ (has_key key arr && same_status status mark)
has_status-marked key status mark [] = refl
has_status-marked key status mark (m ∷ arr) = ground (arith, has_status-marked key status mark arr)

has_status-filter :
    (key : InterDependencyMapping) (status : ServiceMappingStatus)
    (test : InterDependencyMapping → Bool) (arr : List ServiceMapping)
    → has_status key status (filter (λ m. test (as_dependency m)) arr)
      ≡ (has_status key status arr && test key)
has_status-filter key status test [] = refl
has_status-filter key status test (m ∷ arr) =
    ground (arith, has_status-filter key status test arr, same_dependency_iff key (as_dependency m))

module _ {p : Platform} (laws : IsPlatform p) (old new : List ServiceMapping)
    (old_sorted : IsSortedArray p old) (new_sorted : IsSortedArray p new) where
  abbrev intersection : List ServiceMapping
  intersection = intersect_service_mapping_array p new old

  abbrev unified : List ServiceMapping
  unified = unify_service_mapping_array p old new intersection

  shared :
      (key : InterDependencyMapping)
      → has_key key intersection ≡ (has_key key new && has_key key old)
  shared key = has_key-intersect laws new old key new_sorted old_sorted

  has_status-unified :
      (key : InterDependencyMapping) (status : ServiceMappingStatus)
      → has_status key status unified ≡ (
          has_key key old && same_status status activated
          || (has_key key new && same_status status deactivated) && not (has_key key intersection))
  unfolding unify_service_mapping_array
  has_status-unified key status =
      any-perm _ (laws.sort_perm ServiceMapping (compare_service_mappings p) _)
      ∙ any-append _ (map (with_status activated) old) _
      ∙ ground (
        arith,
        has_status-marked key status activated old,
        has_status-marked key status deactivated new,
        has_status-filter key status
            (λ k. not (
              is_found p intersection (record {
                service = k.service;
                container = k.container;
                target = k.target;
                container_provided_by_service = Option.none;
                status = deactivated;
              })))
            (map (with_status deactivated) new),
        is_some-find_service_mapping laws intersection key
            (IsSortedArray-intersect laws new old new_sorted old_sorted),
      )

  -- For two sorted configurations, the unified array holds the keys of the old one as activated,
  -- those that only the new one has as deactivated, and none as in progress or in error.
  pub unify-status :
      (key : InterDependencyMapping)
      → (has_status key activated unified ≡ has_key key old)
        × (has_status key deactivated unified ≡ (has_key key new && not (has_key key old)))
        × (has_status key in_progress unified ≡ false)
        × (has_status key error unified ≡ false)
  unify-status key = (
    ground (arith, shared key, has_status-unified key activated),
    ground (arith, shared key, has_status-unified key deactivated),
    ground (arith, shared key, has_status-unified key in_progress),
    ground (arith, shared key, has_status-unified key error),
  )

  -- The unified array is sorted, so that it can be searched.
  pub IsSortedArray-unify : IsSortedArray p unified
  unfolding unify_service_mapping_array compare_service_mappings
  IsSortedArray-unify = IsSorted-map _ as_dependency _ (
      laws.sort_sorted ServiceMapping InterDependencyMapping (compare_interdependency_mappings p)
        as_dependency _ (dependency-IsOrder laws))

  -- For two sorted configurations, the keys to deactivate are those of the old one that the new one
  -- lacks, and the keys to activate those of the new one that the old one lacks.
  pub substract-plan :
      (key : InterDependencyMapping)
      → (has_key key (substract_service_mapping_array p old intersection)
          ≡ (has_key key old && not (has_key key new)))
        × (has_key key (substract_service_mapping_array p new intersection)
            ≡ (has_key key new && not (has_key key old)))
  substract-plan key =
      let sorted = IsSortedArray-intersect laws new old new_sorted old_sorted in
      (
        ground (arith, shared key, has_key-substract laws old intersection key sorted),
        ground (arith, shared key, has_key-substract laws new intersection key sorted),
      )
