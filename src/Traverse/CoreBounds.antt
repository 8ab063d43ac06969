-- ===== src/Traverse/CoreBounds.antt =====
-- src/libmanifest/servicemapping-traverse.c: the cores of the targets, through both strategies and
-- the loops.
use disnix.Prelude.{
  ℕ, zero, suc, ◌≡◌, ◌∙◌, inl, inr, Bool, some, List, [], ◌∷◌, true, map, lookup, get_elem?,
  Bool-cases, Option-cases, length, ltb, arith,
}
use disnix.Model.{
  InterDependencyMapping, ServiceMapping, ServiceMappingStatus, deactivated, in_progress, activated,
  error, as_dependency,
}
use disnix.ServiceMappings.{find_service_mapping}
use disnix.Traverse.{
  Context, wait_for_service_mapping_to_complete, visit_all, activate_by_status, activate_mapping_at,
  traverse_inter_dependency_mappings, find_interdependent_service_mappings, deactivate_by_status,
  deactivate_mapping_at, traverse_interdependent_mappings, visit_round, count_status,
  traverse_rounds, traverse_service_mappings,
}
use disnix.Traverse.State.{ServiceStatus, TraverseState, Step}
use disnix.Traverse.Consistency.{keys-set_status}
use disnix.Traverse.Cores.{
  Bounded, Preserves, Bounded-bind, Bounded-pointer, Bounded-if_done, Bounded-attempt, Bounded-wait,
}

module _ (c : Context) (ks : List InterDependencyMapping) where
  Bounded-visit_all :
      (visit : InterDependencyMapping → Step ServiceStatus)
      → ((key : InterDependencyMapping) → Preserves ks (visit key))
      → (list : List InterDependencyMapping) → Preserves ks (visit_all c visit list)
  unfolding visit_all
  Bounded-visit_all visit k [] s h = h
  Bounded-visit_all visit k (key ∷ rest) s h =
      Bounded-if_done ks (visit key) (visit_all c visit rest) s (k key s h)
        (Bounded-visit_all visit k rest)

  Bounded-activate_by_status :
      (status : ServiceMappingStatus) (i : ℕ) (mapping : ServiceMapping) (s : TraverseState)
      → Bounded ks s
      → get_elem? s.mappings i ≡ some mapping
      → Bounded ks (activate_by_status c status i mapping s).1
  unfolding activate_by_status
  Bounded-activate_by_status deactivated i mapping s h at =
      elim (Option-cases (lookup mapping.target s.targets)) [
        | inl e ↦ rw (e, activate_by_status) h
        | inr (target, e) ↦
            rw (e, activate_by_status) (Bounded-attempt c ks i mapping target s h at e)
      ]
  Bounded-activate_by_status activated i mapping s h at = h
  Bounded-activate_by_status in_progress i mapping s h at = h
  Bounded-activate_by_status error i mapping s h at = h

  Bounded-activate_mapping_at : (i : ℕ) → Preserves ks (activate_mapping_at c i)
  unfolding activate_mapping_at
  Bounded-activate_mapping_at i s h =
      Bounded-pointer ks (get_elem? s.mappings i) _ s h
        λ mapping at. Bounded-activate_by_status mapping.status i mapping s h at

  pub Bounded-traverse_inter_dependency_mappings :
      (depth : ℕ) (key : InterDependencyMapping)
      → Preserves ks (traverse_inter_dependency_mappings c depth key)
  unfolding traverse_inter_dependency_mappings
  Bounded-traverse_inter_dependency_mappings zero key s h = h
  Bounded-traverse_inter_dependency_mappings (suc depth) key s h =
      Bounded-pointer ks (find_service_mapping c.platform s.mappings key) _ s h λ i _.
        Bounded-pointer ks (get_elem? s.mappings i) _ s h λ mapping _.
          Bounded-pointer ks (lookup mapping.service c.services_table) _ s h λ service _.
            Bounded-if_done ks
              (visit_all c (traverse_inter_dependency_mappings c depth) service.depends_on)
              (activate_mapping_at c i) s
              (Bounded-visit_all _ (Bounded-traverse_inter_dependency_mappings depth)
                service.depends_on s h)
              (Bounded-activate_mapping_at i)

  Bounded-deactivate_by_status :
      (status : ServiceMappingStatus) (i : ℕ) (mapping : ServiceMapping) (s : TraverseState)
      → Bounded ks s
      → get_elem? s.mappings i ≡ some mapping
      → Bounded ks (deactivate_by_status c status i mapping s).1
  unfolding deactivate_by_status
  Bounded-deactivate_by_status activated i mapping s h at =
      elim (Option-cases (lookup mapping.target s.targets)) [
        | inl e ↦
            rw (e, deactivate_by_status)
              (Bounded-pointer ks (lookup mapping.service c.services_table) _ s h λ _ _. record {
                same_keys = keys-set_status s.mappings i deactivated ∙ h.same_keys;
                within = h.within;
              })
        | inr (target, e) ↦
            rw (e, deactivate_by_status) (Bounded-attempt c ks i mapping target s h at e)
      ]
  Bounded-deactivate_by_status deactivated i mapping s h at = h
  Bounded-deactivate_by_status in_progress i mapping s h at = h
  Bounded-deactivate_by_status error i mapping s h at = h

  Bounded-deactivate_mapping_at : (i : ℕ) → Preserves ks (deactivate_mapping_at c i)
  unfolding deactivate_mapping_at
  Bounded-deactivate_mapping_at i s h =
      Bounded-pointer ks (get_elem? s.mappings i) _ s h
        λ mapping at. Bounded-deactivate_by_status mapping.status i mapping s h at

  pub Bounded-traverse_interdependent_mappings :
      (depth : ℕ) (key : InterDependencyMapping)
      → Preserves ks (traverse_interdependent_mappings c depth key)
  unfolding traverse_interdependent_mappings
  Bounded-traverse_interdependent_mappings zero key s h = h
  Bounded-traverse_interdependent_mappings (suc depth) key s h =
      Bounded-pointer ks (find_service_mapping c.platform s.mappings key) _ s h λ i _.
        Bounded-pointer ks (get_elem? s.mappings i) _ s h λ mapping _.
          Bounded-pointer ks (find_interdependent_service_mappings c s.mappings mapping) _ s h
            λ dependents _.
              Bounded-if_done ks
                (visit_all c (traverse_interdependent_mappings c depth)
                  (map as_dependency dependents))
                (deactivate_mapping_at c i) s
                (Bounded-visit_all _ (Bounded-traverse_interdependent_mappings depth)
                  (map as_dependency dependents) s h)
                (Bounded-deactivate_mapping_at i)

  module _ (strategy : InterDependencyMapping → Step ServiceStatus)
      (k : (key : InterDependencyMapping) → Preserves ks (strategy key)) where
    Bounded-visit_round :
        (array : List ServiceMapping) (counted : Bool × ℕ)
        → Preserves ks (visit_round c strategy array counted)
    unfolding visit_round
    Bounded-visit_round [] counted s h = h
    Bounded-visit_round (mapping ∷ rest) counted s h =
        Bounded-bind ks (strategy (as_dependency mapping)) _ s (k (as_dependency mapping) s h)
          λ status s₁ h₁.
            Bounded-bind ks (wait_for_service_mapping_to_complete c) _ s₁ (Bounded-wait c ks s₁ h₁)
              λ _. Bounded-visit_round rest (count_status status counted)

    Bounded-traverse_rounds :
        (rounds : ℕ) (array : List ServiceMapping) (success : Bool)
        → Preserves ks (traverse_rounds c rounds strategy array success)
    unfolding traverse_rounds
    Bounded-traverse_rounds zero array success s h = h
    Bounded-traverse_rounds (suc rounds) array success s h =
        Bounded-bind ks (visit_round c strategy array (success, 0)) _ s
          (Bounded-visit_round array (success, 0) s h)
          λ (b, n) s' h'. elim (Bool-cases (ltb n (length array))) [
            | inl e ↦ rw e (Bounded-traverse_rounds rounds array b s' h')
            | inr e ↦ rw e h'
          ]

    pub Bounded-traverse_service_mappings :
        (rounds : ℕ) (array : List ServiceMapping)
        → Preserves ks (traverse_service_mappings c rounds strategy array)
    unfolding traverse_service_mappings
    Bounded-traverse_service_mappings rounds array s h =
        Bounded-traverse_rounds rounds array true _ (record {
          same_keys = h.same_keys;
          within = λ name t found. omega (arith, h.within name t found);
        })
