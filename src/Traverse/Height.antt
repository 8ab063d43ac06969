-- ===== src/Traverse/Height.antt =====
-- src/libmanifest/servicemapping-traverse.c: traverse_interdependent_mappings comes to an end when the
-- services do not depend on each other in a circle.
use disnix.Prelude.{
  ℕ, zero, suc, ◌<◌, ◌==◌, ◌≡◌, ◌≢◌, refl, ap, subst, sym, ◌∙◌, inl, inr, Bool, true, some, none,
  List, [], ◌∷◌, String, map, lookup, get_elem?, is_some, All, All-weaken, All_at, Option-cases,
  Bool-cases, arith,
}
use disnix.Order.{IsSorted}
use disnix.Platform.{IsPlatform}
use disnix.Platform.Posix.{IsWorld, ProcReactStatus}
use disnix.Model.{
  InterDependencyMapping, ServiceMapping, ServiceMappingStatus, deactivated, in_progress, activated,
  error, ManifestService, as_dependency, compare_interdependency_mappings,
}
use disnix.Model.Keys.{same_dependency, same_dependency_iff, dependency-IsOrder}
use disnix.Model.Search.{bsearch_at}
use disnix.ServiceMappings.{find_service_mapping, find_interdependency_mapping}
use disnix.ServiceMappings.Plan.{same_status_iff}
use disnix.Traverse.{
  Context, visit_all, deactivate_by_status, deactivate_mapping_at,
  find_interdependent_service_mappings, traverse_interdependent_mappings,
}
use disnix.Traverse.State.{
  service_error, service_in_progress, service_done, TraverseState, returned, status_at, set_status,
}
use disnix.Traverse.Consistency.{
  keys-set_status, Tracks-fresh, Tracks-set_status, status_at-set_ne, status_at-set_self,
}
use disnix.Traverse.Live.{
  weight_of, weight-set_status, Live, Live-table, Ends, Ends-from, Ends-return, Ends-pointer,
}
use disnix.Traverse.Progress.{Waitable, Ends-attempt}
use disnix.Traverse.Termination.{Active, Ends-if_done, Ends-visit_all}
use disnix.Traverse.Depth.{found_service}

-- A height of the services that is lower than that of every service that is depended on, and sorted
-- dependencies.
pub record IsLayered (c : Context) (height : String → ℕ) : Type 0 where
  pub below :
      (name : String) (service : ManifestService)
      → lookup name c.services_table ≡ some service
      → All (λ key. height name < height key.service) service.depends_on
  pub dependencies_sorted :
      (name : String) (service : ManifestService)
      → lookup name c.services_table ≡ some service
      → IsSorted (compare_interdependency_mappings c.platform) service.depends_on

module _ (c : Context) (laws : IsPlatform c.platform) (height : String → ℕ)
    (layered : IsLayered c height) where
  -- A service whose dependencies hold a key is lower than the key's service.
  lower :
      (name : String) (service : ManifestService) (key : InterDependencyMapping)
      → lookup name c.services_table ≡ some service
      → is_some (find_interdependency_mapping c.platform service.depends_on key) ≡ true
      → height name < height key.service
  unfolding find_interdependency_mapping
  lower name service key e found =
      elim (Option-cases (
        c.platform.bsearch InterDependencyMapping (compare_interdependency_mappings c.platform) key
          service.depends_on)) [
            | inl f ↦ absurd (ground (arith, found, ap is_some f))
            | inr (i, f) ↦
                All_at (λ key. height name < height key.service) service.depends_on i key
                  (bsearch_at laws (dependency-IsOrder laws) same_dependency same_dependency_iff key
                    service.depends_on (layered.dependencies_sorted name service e) i f)
                  (layered.below name service e)
          ]

  -- The mappings that depend on a mapping are lower.
  dependents_lower :
      (arr : List ServiceMapping) (mapping : ServiceMapping) (dependents : List ServiceMapping)
      → find_interdependent_service_mappings c arr mapping ≡ some dependents
      → All
          (λ (key : InterDependencyMapping). height key.service < height mapping.service)
          (map as_dependency dependents)
  unfolding find_interdependent_service_mappings
  dependents_lower [] mapping dependents e =
      subst
        (λ ds.
          All (λ (key : InterDependencyMapping). height key.service < height mapping.service)
            (map as_dependency ds))
        (the_same e) tt
    where
      the_same : {xs ys : List ServiceMapping} → some xs ≡ some ys → xs ≡ ys
      the_same h = cc
  dependents_lower (current ∷ rest) mapping dependents e =
      elim (Option-cases (lookup current.service c.services_table)) [
        | inl f ↦ absurd (ground (arith, rw (f, find_interdependent_service_mappings) at e))
        | inr (service, f) ↦
            elim (Bool-cases (
              is_some (
                find_interdependency_mapping c.platform service.depends_on
                  (as_dependency mapping)))) [
                    | inl g ↦
                        elim (Option-cases (find_interdependent_service_mappings c rest mapping)) [
                          | inl h ↦ absurd (
                              ground
                                (arith, rw (f, g, h, find_interdependent_service_mappings) at e))
                          | inr (others, h) ↦
                              let e' : some (current ∷ others) ≡ some dependents =
                                rw (f, g, h, find_interdependent_service_mappings) at e in
                              subst
                                (λ ds.
                                  All
                                    (λ (key : InterDependencyMapping).
                                      height key.service < height mapping.service)
                                    (map as_dependency ds))
                                (the_same e')
                                (
                                  lower current.service service (as_dependency mapping) f g,
                                  dependents_lower rest mapping others h,
                                )
                        ]
                    | inr g ↦
                        dependents_lower rest mapping dependents
                          (rw (f, g, find_interdependent_service_mappings) at e)
                  ]
      ]
    where
      the_same : {xs ys : List ServiceMapping} → some xs ≡ some ys → xs ≡ ys
      the_same h = cc

module _ (c : Context) (ks : List InterDependencyMapping) (laws : IsPlatform c.platform)
    (sorted : IsSorted (compare_interdependency_mappings c.platform) ks) (posix : IsWorld c.world)
    (forks : (tick : ℕ) (children : List ℕ) → c.world.fork tick children ≢ none)
    (finished : (status : ProcReactStatus) (result : Bool)
      → weight_of activated (c.complete_service_mapping status result) ≡ 0)
    (height : String → ℕ) (layered : IsLayered c height) where
  -- A mapping whose target is gone is marked as deactivated.
  Ends-retire :
      (i : ℕ) (s : TraverseState)
      → Live ks s
      → status_at s.mappings i ≡ some activated
      → Ends ks activated posix.signals Waitable s
          (returned service_done, record s { mappings = set_status s.mappings i deactivated })
  Ends-retire i s h now =
      let others = Tracks-fresh s.mappings s.pid_table i h.tracked now (λ e. cc) in
      Ends-from ks activated posix.signals s
        (ground (
          arith,
          weight-set_status activated s.mappings i activated deactivated now,
          same_status_iff activated activated,
          same_status_iff activated deactivated,
        ))
        (Ends-return ks activated posix.signals service_done _
          (record {
            same_keys = keys-set_status s.mappings i deactivated ∙ h.same_keys;
            tracked = Tracks-set_status s.mappings s.pid_table i deactivated h.tracked others;
            alive = h.alive;
            distinct = h.distinct;
            watched = λ j e. elim (Bool-cases (i == j)) [
              | inl same ↦
                  let same' : i ≡ j = ground arith in
                  absurd (
                    ground (
                      arith,
                      e,
                      subst
                          (λ k.
                            status_at (set_status s.mappings i deactivated) k ≡ some deactivated)
                          same' (status_at-set_self s.mappings i deactivated now),
                    ))
              | inr other ↦
                  let ne : i ≢ j = ground arith in
                  h.watched j (sym (status_at-set_ne s.mappings i j deactivated ne) ∙ e)
            ];
            staffed = h.staffed;
          })
          (λ e. cc))

  Ends-deactivate_by_status :
      (i : ℕ) (mapping : ServiceMapping) (s : TraverseState) (status : ServiceMappingStatus)
      → Live ks s
      → get_elem? s.mappings i ≡ some mapping
      → mapping.status ≡ status
      → Ends ks activated posix.signals Waitable s (deactivate_by_status c status i mapping s)
  unfolding deactivate_by_status
  Ends-deactivate_by_status i mapping s activated h at same =
      elim (Option-cases (lookup mapping.target s.targets)) [
        | inl e ↦
            rw (e, deactivate_by_status)
              (Ends-pointer ks activated posix.signals (lookup mapping.service c.services_table) _ s
                λ _ _. Ends-retire i s h (rw (at, same) refl))
        | inr (target, e) ↦
            rw (e, deactivate_by_status)
              (Ends-attempt c ks activated posix forks (λ e. cc) i mapping target s h at same e)
      ]
  Ends-deactivate_by_status i mapping s deactivated h at same =
      Ends-return ks activated posix.signals service_done s h (λ e. cc)
  Ends-deactivate_by_status i mapping s in_progress h at same =
      Ends-return ks activated posix.signals service_in_progress s h
        (λ _. Live-table ks s _ h (h.watched i (rw (at, same) refl)))
  Ends-deactivate_by_status i mapping s error h at same =
      Ends-return ks activated posix.signals service_error s h (λ e. cc)

  Ends-deactivate_mapping_at :
      (i : ℕ) (s : TraverseState)
      → Live ks s
      → Ends ks activated posix.signals Waitable s (deactivate_mapping_at c i s)
  unfolding deactivate_mapping_at
  Ends-deactivate_mapping_at i s h =
      Ends-pointer ks activated posix.signals (get_elem? s.mappings i) _ s
        λ mapping at. Ends-deactivate_by_status i mapping s mapping.status h at refl

  pub Active-traverse_interdependent_mappings :
      (depth : ℕ)
      → Active c ks activated posix forks finished
          (λ key. height key.service < depth)
          (traverse_interdependent_mappings c depth)
  unfolding traverse_interdependent_mappings
  Active-traverse_interdependent_mappings zero key less s h = absurd (omega (arith, less))
  Active-traverse_interdependent_mappings (suc depth) key less s h =
      Ends-pointer ks activated posix.signals (find_service_mapping c.platform s.mappings key) _ s
        λ i f. Ends-pointer ks activated posix.signals (get_elem? s.mappings i) _ s λ mapping at.
          Ends-pointer ks activated posix.signals
            (find_interdependent_service_mappings c s.mappings mapping) _ s
            λ dependents e.
              let same = found_service c ks laws sorted key s i mapping h f at in
              Ends-if_done c ks activated posix forks finished
                (visit_all c (traverse_interdependent_mappings c depth)
                  (map as_dependency dependents))
                (deactivate_mapping_at c i) s
                (Ends-visit_all c ks activated posix forks finished
                  (λ key. height key.service < depth) _
                  (Active-traverse_interdependent_mappings depth) (map as_dependency dependents)
                  (All-weaken _ _ (λ d lower. omega (arith, lower, less, ap height same))
                    (map as_dependency dependents)
                    (dependents_lower c laws height layered s.mappings mapping dependents e))
                  s h)
                λ s' h'. Ends-deactivate_mapping_at i s' h'
