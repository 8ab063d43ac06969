-- ===== src/Traverse/Depth.antt =====
-- src/libmanifest/servicemapping-traverse.c: traverse_inter_dependency_mappings comes to an end when
-- the services do not depend on each other in a circle.
use disnix.Prelude.{
  ℕ, zero, suc, ◌<◌, ◌≡◌, ◌≢◌, refl, ap, subst, inl, inr, Bool, none, some, List, String, lookup,
  get_elem?, get_elem?-map, All, All-weaken, Option-cases, arith,
}
use disnix.Order.{IsSorted}
use disnix.Platform.{IsPlatform, Table}
use disnix.Platform.Posix.{IsWorld, ProcReactStatus}
use disnix.Model.{
  InterDependencyMapping, ServiceMapping, ServiceMappingStatus, deactivated, in_progress, activated,
  error, ManifestService, as_dependency, compare_interdependency_mappings,
}
use disnix.Model.Keys.{same_dependency, same_dependency_iff, dependency-IsOrder}
use disnix.Model.Search.{bsearch_at}
use disnix.ServiceMappings.{find_service_mapping}
use disnix.Traverse.{
  Context, visit_all, activate_by_status, activate_mapping_at, traverse_inter_dependency_mappings,
}
use disnix.Traverse.State.{
  service_error, service_in_progress, service_done, TraverseState, status_at,
}
use disnix.Traverse.Live.{weight_of, Live, Live-table, Ends, Ends-return, Ends-pointer}
use disnix.Traverse.Progress.{Waitable, Ends-attempt}
use disnix.Traverse.Termination.{Active, Ends-if_done, Ends-visit_all}

-- A rank of the services that is higher than that of every service that is depended on.
abbrev pub IsRanked : (String → ℕ) → Table ManifestService → Type 0
IsRanked rank table =
    (name : String) (service : ManifestService)
    → lookup name table ≡ some service
    → All (λ key. rank key.service < rank name) service.depends_on

module _ (c : Context) (ks : List InterDependencyMapping) (laws : IsPlatform c.platform)
    (sorted : IsSorted (compare_interdependency_mappings c.platform) ks) where
  -- What find_service_mapping finds is a mapping of that service.
  pub found_service :
      (key : InterDependencyMapping) (s : TraverseState) (i : ℕ) (mapping : ServiceMapping)
      → Live ks s
      → find_service_mapping c.platform s.mappings key ≡ some i
      → get_elem? s.mappings i ≡ some mapping
      → mapping.service ≡ key.service
  unfolding find_service_mapping
  found_service key s i mapping h f at =
      let place : get_elem? ks i ≡ some key =
        bsearch_at laws (dependency-IsOrder laws) same_dependency same_dependency_iff key ks sorted
          i
          (subst
            (λ l. c.platform.bsearch _ (compare_interdependency_mappings c.platform) key l ≡ some i)
            h.same_keys f) in
      let own : get_elem? ks i ≡ some (as_dependency mapping) =
        rw h.same_keys at (get_elem?-map as_dependency s.mappings i at) in
      ground (arith, place, own)

module _ (c : Context) (ks : List InterDependencyMapping) (laws : IsPlatform c.platform)
    (sorted : IsSorted (compare_interdependency_mappings c.platform) ks) (posix : IsWorld c.world)
    (forks : (tick : ℕ) (children : List ℕ) → c.world.fork tick children ≢ none)
    (finished : (status : ProcReactStatus) (result : Bool)
      → weight_of deactivated (c.complete_service_mapping status result) ≡ 0)
    (rank : String → ℕ) (ranked : IsRanked rank c.services_table) where
  -- A mapping in progress can be waited for.
  Waitable-in_progress :
      (i : ℕ) (s : TraverseState)
      → Live ks s
      → status_at s.mappings i ≡ some in_progress
      → Waitable service_in_progress s
  Waitable-in_progress i s h now = λ _. Live-table ks s _ h (h.watched i now)

  Ends-activate_by_status :
      (i : ℕ) (mapping : ServiceMapping) (s : TraverseState) (status : ServiceMappingStatus)
      → Live ks s
      → get_elem? s.mappings i ≡ some mapping
      → mapping.status ≡ status
      → Ends ks deactivated posix.signals Waitable s (activate_by_status c status i mapping s)
  unfolding activate_by_status
  Ends-activate_by_status i mapping s deactivated h at same =
      elim (Option-cases (lookup mapping.target s.targets)) [
        | inl e ↦
            rw (e, activate_by_status)
              (Ends-return ks deactivated posix.signals service_error s h (λ e. cc))
        | inr (target, e) ↦
            rw (e, activate_by_status)
              (Ends-attempt c ks deactivated posix forks (λ e. cc) i mapping target s h at same e)
      ]
  Ends-activate_by_status i mapping s activated h at same =
      Ends-return ks deactivated posix.signals service_done s h (λ e. cc)
  Ends-activate_by_status i mapping s in_progress h at same =
      Ends-return ks deactivated posix.signals service_in_progress s h
        (Waitable-in_progress i s h (rw (at, same) refl))
  Ends-activate_by_status i mapping s error h at same =
      Ends-return ks deactivated posix.signals service_error s h (λ e. cc)

  Ends-activate_mapping_at :
      (i : ℕ) (s : TraverseState)
      → Live ks s
      → Ends ks deactivated posix.signals Waitable s (activate_mapping_at c i s)
  unfolding activate_mapping_at
  Ends-activate_mapping_at i s h =
      Ends-pointer ks deactivated posix.signals (get_elem? s.mappings i) _ s
        λ mapping at. Ends-activate_by_status i mapping s mapping.status h at refl

  pub Active-traverse_inter_dependency_mappings :
      (depth : ℕ)
      → Active c ks deactivated posix forks finished
          (λ key. rank key.service < depth)
          (traverse_inter_dependency_mappings c depth)
  unfolding traverse_inter_dependency_mappings
  Active-traverse_inter_dependency_mappings zero key less s h = absurd (omega (arith, less))
  Active-traverse_inter_dependency_mappings (suc depth) key less s h =
      Ends-pointer ks deactivated posix.signals (find_service_mapping c.platform s.mappings key) _ s
        λ i f. Ends-pointer ks deactivated posix.signals (get_elem? s.mappings i) _ s λ mapping at.
          Ends-pointer ks deactivated posix.signals (lookup mapping.service c.services_table) _ s
            λ service e.
              let same = found_service c ks laws sorted key s i mapping h f at in
              Ends-if_done c ks deactivated posix forks finished
                (visit_all c (traverse_inter_dependency_mappings c depth) service.depends_on)
                (activate_mapping_at c i) s
                (Ends-visit_all c ks deactivated posix forks finished
                  (λ key. rank key.service < depth) _
                  (Active-traverse_inter_dependency_mappings depth) service.depends_on
                  (All-weaken _ _ (λ d lower. omega (arith, lower, less, ap rank same))
                    service.depends_on (ranked mapping.service service e))
                  s h)
                λ s' h'. Ends-activate_mapping_at i s' h'
