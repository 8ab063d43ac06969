-- ===== src/Transition/Upgrade.antt =====
-- src/libdeploy/transition.c: the upgrade from one configuration to the next.
use disnix.Prelude.{
  ℕ, ◌≡◌, ◌≢◌, refl, sym, subst, ◌∙◌, ap, true, false, ◌||◌, Bool-cases, inl, inr, some, List,
  lookup, Memᴰ, get_elem?, get_elem?-map, get_elem?-map_inv, any_at, any_position, All_at, String,
  arith,
}
use disnix.Order.{IsSorted}
use disnix.Platform.{Platform, IsPlatform, Table}
use disnix.Platform.Posix.{World}
use disnix.Model.{
  InterDependencyMapping, ServiceMapping, ServiceMappingStatus, deactivated, in_progress, activated,
  error, ManifestService, Manifest, as_dependency, compare_interdependency_mappings,
}
use disnix.Model.Keys.{same_dependency, same_dependency_iff}
use disnix.ServiceMappings.{
  keys, IsSortedArray, intersect_service_mapping_array, substract_service_mapping_array,
  unify_service_mapping_array,
}
use disnix.ServiceMappings.Lookup.{has_key}
use disnix.ServiceMappings.Plan.{
  same_status_iff, has_status, unify-status, IsSortedArray-unify, substract-plan,
}
use disnix.ServiceMappings.Unique.{IsUnique, IsUnique-unify, find_key_own}
use disnix.Traverse.State.{TraverseState, Outcome, returned, status_at}
use disnix.Traverse.Consistency.{find_key, DependsOn, IsConsistent}
use disnix.Traverse.Deactivation.{IsIndexed}
use disnix.Transition.{
  Setting, activation, deactivation, Flags, TransitionStatus, success, failed,
  generate_union_services_table, setting, transition,
}
use disnix.Transition.Keeps.{Kept, AllAt, Keeps}
use disnix.Transition.Rollback.{Meaning, Reached, Meaning-execute_transition}

-- Each dependency of a mapping of the array is the key of a mapping of the array.
abbrev pub IsClosed : Table ManifestService → List ServiceMapping → Type 0
IsClosed services arr =
    (key dependency : InterDependencyMapping) (service : ManifestService)
    → has_key key arr ≡ true
    → lookup key.service services ≡ some service
    → Memᴰ dependency service.depends_on
    → has_key dependency arr ≡ true

-- The dependencies of each service of a table are sorted, as parse_interdependency_mapping_array
-- leaves them.
abbrev pub HasSortedDependencies : Platform → Table ManifestService → Type 0
HasSortedDependencies p services =
    (name : String) (service : ManifestService)
    → lookup name services ≡ some service
    → IsSorted (compare_interdependency_mappings p) service.depends_on

pub has_status_at :
    (key : InterDependencyMapping) (status : ServiceMappingStatus) (arr : List ServiceMapping)
    (i : ℕ)
    → get_elem? (keys arr) i ≡ some key
    → status_at arr i ≡ some status
    → has_status key status arr ≡ true
has_status_at key status arr i at now =
    let (m, at', same) = get_elem?-map_inv as_dependency arr i at in
    any_at _ arr i m at' (
      ground
        (arith, same_dependency_iff key (as_dependency m), same, same_status_iff status m.status))

pub has_status_position :
    (key : InterDependencyMapping) (status : ServiceMappingStatus) (arr : List ServiceMapping)
    → has_status key status arr ≡ true
    → (i : ℕ) × (get_elem? (keys arr) i ≡ some key) × (status_at arr i ≡ some status)
has_status_position key status arr h =
    let (i, m, at, e) = any_position _ arr h in
    let same : key ≡ as_dependency m =
      (same_dependency_iff key (as_dependency m)).0 (ground arith) in
    let now : status ≡ m.status = (same_status_iff status m.status).0 (ground arith) in
    (i, get_elem?-map as_dependency arr i at ∙ ap some (sym same), rw at (ap some (sym now)))

module _ (p : Platform) (w : World) (depth rounds : ℕ) (laws : IsPlatform p)
    (manifest previous : Manifest) (flags : Flags) where
  abbrev pub new : List ServiceMapping
  new = manifest.service_mapping_array

  abbrev pub old : List ServiceMapping
  old = previous.service_mapping_array

  abbrev pub services : Table ManifestService
  services = generate_union_services_table manifest.services_table previous.services_table

  abbrev intersection : List ServiceMapping
  intersection = intersect_service_mapping_array p new old

  abbrev unified : List ServiceMapping
  unified = unify_service_mapping_array p old new intersection

  abbrev activations : List ServiceMapping
  activations = substract_service_mapping_array p new intersection

  abbrev t : Setting
  t = setting p w depth rounds services flags

  abbrev run : TraverseState → Outcome TransitionStatus × TraverseState
  run = transition p w depth rounds manifest (some previous) flags

  module _ (old_sorted : IsSortedArray p old) (new_sorted : IsSortedArray p new)
      (old_unique : IsUnique old) (new_unique : IsUnique new)
      (dependencies_sorted : HasSortedDependencies p services)
      (old_closed : IsClosed services old) where
    sorted : IsSortedArray p unified
    sorted = IsSortedArray-unify laws old new old_sorted new_sorted

    unique : IsUnique unified
    unique = IsUnique-unify laws old new old_sorted new_sorted old_unique new_unique

    indexed : IsIndexed (deactivation t) (keys unified)
    indexed = record {
      keys_sorted = sorted;
      own_position = λ i key at. find_key_own laws unified i key sorted unique at;
      dependencies_sorted = dependencies_sorted;
    }

    -- A mapping of the unified array that is not deactivated is one of the old configuration.
    was_active :
        (i : ℕ) (key : InterDependencyMapping) (status : ServiceMappingStatus)
        → get_elem? (keys unified) i ≡ some key
        → status_at unified i ≡ some status
        → status ≢ deactivated
        → has_key key old ≡ true
    was_active i key deactivated at now ne = absurd (ne refl)
    was_active i key in_progress at now ne =
        let found = has_status_at key in_progress unified i at now in
        ground (arith, unify-status laws old new old_sorted new_sorted key)
    was_active i key activated at now ne =
        let found = has_status_at key activated unified i at now in
        ground (arith, unify-status laws old new old_sorted new_sorted key)
    was_active i key error at now ne =
        let found = has_status_at key error unified i at now in
        ground (arith, unify-status laws old new old_sorted new_sorted key)

    -- A key with a status in the unified array is found at a position with that status.
    at_status :
        (key : InterDependencyMapping) (status : ServiceMappingStatus) (j : ℕ)
        → has_status key status unified ≡ true
        → find_key p (keys unified) key ≡ some j
        → status_at unified j ≡ some status
    at_status key status j h f =
        let (i, at, now) = has_status_position key status unified h in
        let found = find_key_own laws unified i key sorted unique at in
        let same : i ≡ j = ground arith in subst (λ k. status_at unified k ≡ some status) same now

    unified-IsConsistent : IsConsistent (activation t) (keys unified) unified
    unified-IsConsistent i j d status now ne =
        at_status d.dependency activated j
          ((unify-status laws old new old_sorted new_sorted d.dependency).0
            ∙ old_closed d.key d.dependency d.service (was_active i d.key status d.at now ne)
                d.defined d.listed)
          d.position

    upgraded :
        (s : TraverseState)
        → Keeps t
            (keys unified)
            (Meaning t
              (keys unified)
              laws
              indexed
              activations
              (some old)
              flags
              (Reached t (keys unified) laws indexed activations (some old) flags))
            (run s)
    unfolding transition
    upgraded s =
        Meaning-execute_transition t (keys unified) laws indexed activations (some old) flags _ _
          (record { same_keys = refl; consistent = unified-IsConsistent })

    -- A key of either configuration has a position in the unified array.
    in_unified :
        (key : InterDependencyMapping)
        → (has_key key new || has_key key old) ≡ true
        → (i : ℕ) × (get_elem? (keys unified) i ≡ some key)
    in_unified key h = elim (Bool-cases (has_key key old)) [
      | inl e ↦
          let (i, at, now) =
            has_status_position key activated unified
              ((unify-status laws old new old_sorted new_sorted key).0 ∙ e) in
          (i, at)
      | inr e ↦
          let plan = (unify-status laws old new old_sorted new_sorted key).1 in
          let (i, at, now) = has_status_position key deactivated unified (ground (arith, plan)) in
          (i, at)
    ]

    -- Of two configurations that are sorted and hold no key twice, the old one holding all
    -- dependencies of its mappings, and with the dependencies of each service sorted: after the
    -- transition from the old to the new one, whatever its outcome, a mapping that is not
    -- deactivated, and whose service is in the joint table, has each of its dependencies activated
    -- that is a key of one of the two.
    pub transition-dependencies :
        (s : TraverseState) (key dependency : InterDependencyMapping)
        (status : ServiceMappingStatus) (service : ManifestService)
        → has_status key status (run s).1.mappings ≡ true
        → status ≢ deactivated
        → lookup key.service services ≡ some service
        → Memᴰ dependency service.depends_on
        → (has_key dependency new || has_key dependency old) ≡ true
        → has_status dependency activated (run s).1.mappings ≡ true
    transition-dependencies s key dependency status service found ne defined listed known =
        let kept = (upgraded s).kept in
        let (i, at, now) = has_status_position key status (run s).1.mappings found in
        let (j, at') = in_unified dependency known in
        let depends : DependsOn (activation t) (keys unified) i j = record {
          key = key;
          at = rw (← kept.same_keys) at;
          service = service;
          defined = defined;
          dependency = dependency;
          listed = listed;
          position = find_key_own laws unified j dependency sorted unique at';
        } in
        has_status_at dependency activated (run s).1.mappings j (rw kept.same_keys at')
          (kept.consistent i j depends status now ne)

    reached :
        (array : List ServiceMapping) (key : InterDependencyMapping) (before : ServiceMappingStatus)
        (s : TraverseState)
        → Kept t (keys unified) s
        → AllAt t (keys unified) activated array s
        → has_key key array ≡ true
        → has_status key before unified ≡ true
        → has_status key activated s.mappings ≡ true
    reached array key before s kept all listed held =
        let (i, at, now) = has_status_position key before unified held in
        let (n, key', at', same) = any_position (same_dependency key) (keys array) listed in
        let same' : key' ≡ key = sym ((same_dependency_iff key key').0 same) in
        let there : get_elem? (keys array) n ≡ some key = at' ∙ ap some same' in
        has_status_at key activated s.mappings i (rw kept.same_keys at) (
          All_at _ (keys array) n key there all i
            (find_key_own laws unified i key sorted unique at))

    -- Of two configurations that are sorted and hold no key twice, the old one holding all
    -- dependencies of its mappings, and with the dependencies of each service sorted: if the
    -- transition returns `success`, each key of the new configuration that the old one lacks is
    -- activated.
    pub transition-success :
        (s : TraverseState) (key : InterDependencyMapping)
        → (run s).0 ≡ returned success
        → has_key key new ≡ true
        → has_key key old ≡ false
        → has_status key activated (run s).1.mappings ≡ true
    transition-success s key e in_new in_old =
        let plan = (substract-plan laws old new old_sorted new_sorted key).1 in
        let status = (unify-status laws old new old_sorted new_sorted key).1 in
        reached activations key deactivated (run s).1 (upgraded s).kept
          (((upgraded s).post success e).0 refl) (ground arith) (ground arith)

    -- Of two configurations that are sorted and hold no key twice, the old one holding all
    -- dependencies of its mappings, and with the dependencies of each service sorted: if the
    -- transition returns `failed`, and rollbacks are not switched off, each key of the old
    -- configuration is activated.
    pub transition-rollback :
        (s : TraverseState) (key : InterDependencyMapping)
        → (run s).0 ≡ returned failed
        → flags.no_rollback ≡ false
        → has_key key old ≡ true
        → has_status key activated (run s).1.mappings ≡ true
    transition-rollback s key e rollback in_old =
        let status = (unify-status laws old new old_sorted new_sorted key).0 in
        reached old key activated (run s).1 (upgraded s).kept
          (((upgraded s).post failed e).1 refl rollback) in_old (ground arith)
