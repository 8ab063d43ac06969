-- ===== src/Traverse/Deactivation.antt =====
-- src/libmanifest/servicemapping-traverse.c: traverse_interdependent_mappings, the dependents first.
use disnix.Prelude.{
  ℕ, zero, suc, ◌≡◌, refl, sym, ap, subst, ◌∙◌, Bool, true, false, some, List, [], ◌∷◌, Memᴰ, map,
  lookup, get_elem?, get_elem?-map, get_elem?-map_inv, Option-cases, Bool-cases, inl, inr, ◌⊎◌,
  String, All, All_mem, any, is_some, arith,
}
use disnix.Order.{IsSorted}
use disnix.Platform.{IsPlatform}
use disnix.Model.{
  InterDependencyMapping, ServiceMapping, ServiceMappingStatus, deactivated, in_progress, activated,
  error, ManifestService, as_dependency, compare_interdependency_mappings,
}
use disnix.Model.Keys.{same_dependency, same_dependency_iff, dependency-IsOrder}
use disnix.Model.Search.{bsearch_at}
use disnix.ServiceMappings.{find_service_mapping, find_interdependency_mapping}
use disnix.ServiceMappings.Lookup.{find_interdependency_mapping_lem}
use disnix.Traverse.{
  Context, visit_all, deactivate_mapping_at, deactivate_by_status, traverse_interdependent_mappings,
  find_interdependent_service_mappings,
}
use disnix.Traverse.State.{service_done, TraverseState, returned, status_at, set_status}
use disnix.Traverse.Consistency.{
  find_key, DependsOn, IsConsistent-set_status, keys-set_status, status_at-set_self,
  status_at-set_ne, Tracks-fresh, Tracks-set_status, Inv,
}
use disnix.Traverse.Post.{Post, Post-return, Post-stop, Post-pointer}
use disnix.Traverse.Steps.{CanStart, Post-attempt}
use disnix.Traverse.Activation.{
  IsDone, DoneAt, Truthful, Post-NotDone, Post-if_done, Post-visit_all,
}

-- What deactivation relies on: sorted arrays, and no two mappings with one key.
pub record IsIndexed (c : Context) (ks : List InterDependencyMapping) : Type 0 where
  pub keys_sorted : IsSorted (compare_interdependency_mappings c.platform) ks
  pub own_position :
      (i : ℕ) (key : InterDependencyMapping)
      → get_elem? ks i ≡ some key
      → find_key c.platform ks key ≡ some i
  pub dependencies_sorted :
      (name : String) (service : ManifestService)
      → lookup name c.services_table ≡ some service
      → IsSorted (compare_interdependency_mappings c.platform) service.depends_on

any_mem :
    (key : InterDependencyMapping) {xs : List InterDependencyMapping}
    → Memᴰ key xs
    → any (same_dependency key) xs ≡ true
any_mem key (Memᴰ.head {x = x} e) = ground (arith, same_dependency_iff key x)
any_mem key (Memᴰ.tail m) = ground (arith, any_mem key m)

module _ (c : Context) (mapping : ServiceMapping) where
  abbrev depends : ManifestService → Bool
  depends service =
      is_some (find_interdependency_mapping c.platform service.depends_on (as_dependency mapping))

  -- One round of the search for dependents.
  record Searched (x : ServiceMapping) (arr found : List ServiceMapping) : Type 0 where
    service : ManifestService
    defined : lookup x.service c.services_table ≡ some service
    rest : List ServiceMapping
    searched : find_interdependent_service_mappings c arr mapping ≡ some rest
    split :
        (depends service ≡ true) × (found ≡ x ∷ rest) ⊎ (depends service ≡ false) × (found ≡ rest)

  Searched-cons :
      (x : ServiceMapping) (arr found : List ServiceMapping)
      → find_interdependent_service_mappings c (x ∷ arr) mapping ≡ some found
      → Searched x arr found
  unfolding find_interdependent_service_mappings
  Searched-cons x arr found e = elim (Option-cases (lookup x.service c.services_table)) [
    | inl missing ↦ absurd (ground arith)
    | inr (service, defined) ↦ elim (Bool-cases (depends service)) [
      | inl yes_ ↦ elim (Option-cases (find_interdependent_service_mappings c arr mapping)) [
        | inl stopped ↦ absurd (ground arith)
        | inr (rest, searched) ↦ record {
          service = service;
          defined = defined;
          rest = rest;
          searched = searched;
          split = inl (yes_, ground arith);
        }
      ]
      | inr no_ ↦ record {
        service = service;
        defined = defined;
        rest = found;
        searched = ground arith;
        split = inr (no_, refl);
      }
    ]
  ]

module _ (c : Context) (ks : List InterDependencyMapping) (laws : IsPlatform c.platform)
    (indexed : IsIndexed c ks) where
  depends_listed :
      (mapping : ServiceMapping) (name : String) (service : ManifestService)
      → lookup name c.services_table ≡ some service
      → Memᴰ (as_dependency mapping) service.depends_on
      → depends c mapping service ≡ true
  depends_listed mapping name service defined listed =
      find_interdependency_mapping_lem laws service.depends_on (as_dependency mapping)
        (indexed.dependencies_sorted name service defined)
      ∙ any_mem (as_dependency mapping) listed

  -- The search for dependents finds each mapping of the array that depends on the given one.
  dependents_found :
      (mapping m : ServiceMapping) (service : ManifestService) (arr found : List ServiceMapping)
      (j : ℕ)
      → get_elem? arr j ≡ some m
      → lookup m.service c.services_table ≡ some service
      → Memᴰ (as_dependency mapping) service.depends_on
      → find_interdependent_service_mappings c arr mapping ≡ some found
      → Memᴰ (as_dependency m) (map as_dependency found)
  dependents_found mapping m service [] found j at defined listed e = cc
  dependents_found mapping m service (x ∷ arr) found zero at defined listed e =
      let s = Searched-cons c mapping x arr found e in
      let same : x ≡ m = cc in
      let same_service : s.service ≡ service =
        cc (
          s.defined,
          defined,
          ap (λ (y : ServiceMapping). lookup y.service c.services_table) same,
        ) in
      elim s.split [
        | inl (_, e') ↦ rw e' (Memᴰ.head (ap as_dependency (sym same)))
        | inr (absent, _) ↦ cc (
          absent,
          depends_listed mapping m.service service defined listed,
          ap (depends c mapping) same_service,
        )
      ]
  dependents_found mapping m service (x ∷ arr) found (suc j) at defined listed e =
      let s = Searched-cons c mapping x arr found e in
      let later = dependents_found mapping m service arr s.rest j at defined listed s.searched in
      elim s.split [ inl (_, e') ↦ rw e' (Memᴰ.tail later) | inr (_, e') ↦ rw e' later ]

  abbrev Done : List InterDependencyMapping → TraverseState → Type 0
  Done list s = All (λ key. IsDone c ks deactivated key s) list

  -- All dependents of a mapping are deactivated, once the search has found them and they are done.
  dependents-Settled :
      (i j : ℕ) (s t : TraverseState) (mapping : ServiceMapping) (found : List ServiceMapping)
      → Inv c ks s
      → get_elem? s.mappings i ≡ some mapping
      → find_interdependent_service_mappings c s.mappings mapping ≡ some found
      → Done (map as_dependency found) t
      → DependsOn c ks j i
      → status_at t.mappings j ≡ some deactivated
  dependents-Settled i j s t mapping found h at searched done d =
      let (m, at_j, same) =
        get_elem?-map_inv as_dependency s.mappings j {y = d.key} (rw h.same_keys d.at) in
      let at_i : get_elem? ks i ≡ some (as_dependency mapping) =
        rw h.same_keys at (get_elem?-map as_dependency s.mappings i at) in
      let dep : get_elem? ks i ≡ some d.dependency =
        bsearch_at laws (dependency-IsOrder laws) same_dependency same_dependency_iff d.dependency
          ks indexed.keys_sorted i d.position in
      let is_dep : d.dependency ≡ as_dependency mapping = cc (dep, at_i) in
      let listed : Memᴰ (as_dependency mapping) d.service.depends_on =
        subst (λ k. Memᴰ k d.service.depends_on) is_dep d.listed in
      let defined : lookup m.service c.services_table ≡ some d.service =
        subst (λ (k : InterDependencyMapping). lookup k.service c.services_table ≡ some d.service)
          (sym same) d.defined in
      All_mem (λ key. IsDone c ks deactivated key t) done
        (dependents_found mapping m d.service s.mappings found j at_j defined listed searched) j
        (indexed.own_position j (as_dependency m) (rw same d.at))

  -- All that depend on position `i` are deactivated.
  abbrev DependentsDone : ℕ → TraverseState → Type 0
  DependentsDone i s = (j : ℕ) → DependsOn c ks j i → status_at s.mappings j ≡ some deactivated

  CanStart-deactivate :
      (i : ℕ) (s : TraverseState)
      → Inv c ks s
      → DependentsDone i s
      → status_at s.mappings i ≡ some activated
      → CanStart c ks deactivated i s
  CanStart-deactivate i s h done now = record {
    inv = h;
    from = activated;
    now = now;
    idle = λ e. cc;
    away = λ e. cc;
    below = λ j d.
        let up = h.consistent i j d activated now (λ e. cc) in
        ((λ same. cc (now, done i (rw (← same) at d))), up);
    above = λ j d ne status e live. live (ground (arith, done j d));
  }

  -- A mapping whose target is gone is taken to be deactivated.
  Post-skip :
      (i : ℕ) (key : InterDependencyMapping) (s : TraverseState)
      → find_key c.platform ks key ≡ some i
      → Inv c ks s
      → DependentsDone i s
      → status_at s.mappings i ≡ some activated
      → Post c ks deactivated
          (DoneAt c ks deactivated key)
          s
          (returned service_done, record s { mappings = set_status s.mappings i deactivated })
  Post-skip i key s f h done now = record {
    inv = record {
      same_keys = keys-set_status s.mappings i deactivated ∙ h.same_keys;
      consistent =
          IsConsistent-set_status s.mappings i deactivated h.consistent
            (λ j d live. absurd (live refl))
            (λ j d ne status e live. absurd (live (ground (arith, done j d))));
      tracked =
          Tracks-set_status s.mappings s.pid_table i deactivated h.tracked
            (Tracks-fresh s.mappings s.pid_table i h.tracked now (λ e. cc));
    };
    settles = λ j e.
        status_at-set_ne s.mappings i j deactivated
          (λ same. ground (arith, now, e, ap (status_at s.mappings) same))
        ∙ e;
    post = λ a e d j f'.
        let same : i ≡ j = ground arith in
        rw (← same) (status_at-set_self s.mappings i deactivated now);
  }

  Post-deactivate_by_status :
      (key : InterDependencyMapping) (i : ℕ) (s : TraverseState) (mapping : ServiceMapping)
      (status : ServiceMappingStatus)
      → find_key c.platform ks key ≡ some i
      → status_at s.mappings i ≡ some status
      → Inv c ks s
      → DependentsDone i s
      → Post c ks deactivated
          (DoneAt c ks deactivated key)
          s
          (deactivate_by_status c status i mapping s)
  unfolding deactivate_by_status
  Post-deactivate_by_status key i s mapping activated f now h done =
      elim (Option-cases (lookup mapping.target s.targets)) [
        | inl e ↦
            rw (e, deactivate_by_status)
              (Post-pointer c ks deactivated (lookup mapping.service c.services_table) _ s h
                λ service _. Post-skip i key s f h done now)
        | inr (target, e) ↦
            rw (e, deactivate_by_status)
              (Post-NotDone c ks deactivated (
                Post-attempt c ks deactivated i mapping target s
                  (CanStart-deactivate i s h done now)))
      ]
  Post-deactivate_by_status key i s mapping deactivated f now h done =
      Post-return c ks deactivated h (λ e j f'. ground (arith, f, f', now))
  Post-deactivate_by_status key i s mapping in_progress f now h done =
      Post-return c ks deactivated h (λ e. cc)
  Post-deactivate_by_status key i s mapping error f now h done =
      Post-return c ks deactivated h (λ e. cc)

  Post-deactivate_mapping_at :
      (key : InterDependencyMapping) (i : ℕ) (s : TraverseState)
      → find_key c.platform ks key ≡ some i
      → Inv c ks s
      → DependentsDone i s
      → Post c ks deactivated (DoneAt c ks deactivated key) s (deactivate_mapping_at c i s)
  unfolding deactivate_mapping_at
  Post-deactivate_mapping_at key i s f h done =
      Post-pointer c ks deactivated (get_elem? s.mappings i) _ s h λ current e.
        let now : status_at s.mappings i ≡ some current.status = rw e in
        Post-deactivate_by_status key i s current current.status f now h done

  -- Following the dependents keeps the invariant, and `service_done` means deactivated.
  pub Post-traverse_interdependent_mappings :
      (depth : ℕ) → Truthful c ks deactivated (traverse_interdependent_mappings c depth)
  unfolding traverse_interdependent_mappings find_service_mapping
  Post-traverse_interdependent_mappings zero key s h = (Post-stop c ks deactivated h).1
  Post-traverse_interdependent_mappings (suc depth) key s h =
      Post-pointer c ks deactivated (find_service_mapping c.platform s.mappings key) _ s h λ i f.
        Post-pointer c ks deactivated (get_elem? s.mappings i) _ s h λ mapping at.
          Post-pointer c ks deactivated (find_interdependent_service_mappings c s.mappings mapping)
            _ s h
            λ found e.
              Post-if_done c ks deactivated
                (visit_all c (traverse_interdependent_mappings c depth) (map as_dependency found))
                (deactivate_mapping_at c i) s
                (Post-visit_all c ks deactivated _ (Post-traverse_interdependent_mappings depth)
                  (map as_dependency found) s h)
                λ s' h' done.
                  Post-deactivate_mapping_at key i s' (rw (h.same_keys, find_service_mapping) at f)
                    h' (λ j. dependents-Settled i j s s' mapping found h at e (done refl))
