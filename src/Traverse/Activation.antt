-- ===== src/Traverse/Activation.antt =====
-- src/libmanifest/servicemapping-traverse.c: traverse_inter_dependency_mappings, dependencies first.
use disnix.Prelude.{
  ℕ, zero, suc, ◌≡◌, refl, ap, subst, ◌∙◌, some, List, [], ◌∷◌, Memᴰ, lookup, get_elem?,
  get_elem?-map, Option-cases, inl, inr, All, All_mem, arith,
}
use disnix.Model.{
  InterDependencyMapping, ServiceMapping, ServiceMappingStatus, deactivated, in_progress, activated,
  error, ManifestService, as_dependency,
}
use disnix.ServiceMappings.{find_service_mapping}
use disnix.Traverse.{
  Context, visit_all, activate_mapping_at, activate_by_status, traverse_inter_dependency_mappings,
}
use disnix.Traverse.State.{
  ServiceStatus, service_error, service_in_progress, service_wait, service_done, TraverseState,
  Outcome, Step, if_done, ◌>>=◌, status_at,
}
use disnix.Traverse.Consistency.{find_key, DependsOn, Inv}
use disnix.Traverse.Post.{Post, Post-return, Post-stop, Post-bind, Post-pointer}
use disnix.Traverse.Steps.{NotDone, CanStart, Post-attempt}

module _ (c : Context) (ks : List InterDependencyMapping) (goal : ServiceMappingStatus) where
  -- The mapping that a key finds has reached the goal.
  abbrev pub IsDone : InterDependencyMapping → TraverseState → Type 0
  IsDone key s = (i : ℕ) → find_key c.platform ks key ≡ some i → status_at s.mappings i ≡ some goal

  -- A visit that reports `service_done` speaks the truth.
  abbrev pub DoneAt : InterDependencyMapping → ServiceStatus → TraverseState → Type 0
  DoneAt key status s = status ≡ service_done → IsDone key s

  abbrev pub AllDone : List InterDependencyMapping → ServiceStatus → TraverseState → Type 0
  AllDone list status s = status ≡ service_done → All (λ key. IsDone key s) list

  pub Post-NotDone :
      {Q : TraverseState → Type 0} {s : TraverseState} {r : Outcome ServiceStatus × TraverseState}
      → Post c ks goal NotDone s r
      → Post c ks goal (λ status s. status ≡ service_done → Q s) s r
  Post-NotDone h = record {
    inv = h.inv;
    settles = h.settles;
    post = λ a e d. absurd (h.post a e d);
  }

  module _ {Q : ServiceStatus → TraverseState → Type 0} {R : TraverseState → Type 0} where
    -- A step that goes on only after `service_done`.
    pub Post-if_done :
        (m next : Step ServiceStatus) (s : TraverseState)
        → Post c ks goal Q s (m s)
        → ((s' : TraverseState)
            → Inv c ks s'
            → Q service_done s'
            → Post c ks goal (λ status t. status ≡ service_done → R t) s' (next s'))
        → Post c ks goal
            (λ status t. status ≡ service_done → R t)
            s
            ((m >>= λ status. if_done status next) s)
    Post-if_done m next s h k = Post-bind c ks goal m (λ status. if_done status next) s h go
      where
        go :
            (status : ServiceStatus) (s' : TraverseState)
            → Inv c ks s'
            → Q status s'
            → Post c ks goal (λ status t. status ≡ service_done → R t) s' (if_done status next s')
        go service_done s' i q = k s' i q
        go service_error s' i q = Post-return c ks goal i (λ e. cc)
        go service_in_progress s' i q = Post-return c ks goal i (λ e. cc)
        go service_wait s' i q = Post-return c ks goal i (λ e. cc)

  abbrev pub Truthful : (InterDependencyMapping → Step ServiceStatus) → Type 0
  Truthful visit =
      (key : InterDependencyMapping) (s : TraverseState)
      → Inv c ks s
      → Post c ks goal (DoneAt key) s (visit key s)

  -- The loop over the mappings that come first is truthful if each visit is.
  pub Post-visit_all :
      (visit : InterDependencyMapping → Step ServiceStatus)
      → Truthful visit
      → (list : List InterDependencyMapping) (s : TraverseState) → Inv c ks s
      → Post c ks goal (AllDone list) s (visit_all c visit list s)
  unfolding visit_all
  Post-visit_all visit truthful [] s h = Post-return c ks goal h (λ _. tt)
  Post-visit_all visit truthful (key ∷ rest) s h =
      Post-if_done (visit key) (visit_all c visit rest) s (truthful key s h) λ s' h' d.
        let others = Post-visit_all visit truthful rest s' h' in
        record {
          inv = others.inv;
          settles = others.settles;
          post = λ a e e'. ((λ i f. others.settles i (d refl i f)), others.post a e e');
        }

module _ (c : Context) (ks : List InterDependencyMapping) where
  -- A deactivated mapping with all its dependencies activated can be started.
  CanStart-activate :
      (i : ℕ) (s : TraverseState) (mapping : ServiceMapping) {service : ManifestService}
      → Inv c ks s
      → get_elem? ks i ≡ some (as_dependency mapping)
      → lookup mapping.service c.services_table ≡ some service
      → All (λ key. IsDone c ks activated key s) service.depends_on
      → status_at s.mappings i ≡ some deactivated
      → CanStart c ks activated i s
  CanStart-activate i s mapping {service} h at defined done now = record {
    inv = h;
    from = deactivated;
    now = now;
    idle = λ e. cc;
    away = λ e. cc;
    below = λ j d.
        let up = dependency_done j d in
        ((λ same. ground (arith, now, up, ap (status_at s.mappings) same)), up);
    above = λ j d ne status e live. cc (now, h.consistent j i d status e live);
  }
    where
      same_service : {j : ℕ} (d : DependsOn c ks i j) → d.service ≡ service
      same_service d =
          let same : d.key ≡ as_dependency mapping = cc (at, d.at) in
          let found : lookup mapping.service c.services_table ≡ some d.service =
            subst
              (λ (k : InterDependencyMapping). lookup k.service c.services_table ≡ some d.service)
              same d.defined in
          cc (found, defined)

      dependency_done : (j : ℕ) → DependsOn c ks i j → status_at s.mappings j ≡ some activated
      dependency_done j d =
          All_mem (λ key. IsDone c ks activated key s) done
            (subst (λ (x : ManifestService). Memᴰ d.dependency x.depends_on) (same_service d)
              d.listed)
            j d.position

  -- The switch on the status of the mapping.
  Post-activate_by_status :
      (key : InterDependencyMapping) (i : ℕ) (s : TraverseState) (mapping : ServiceMapping)
      (status : ServiceMappingStatus)
      → find_key c.platform ks key ≡ some i
      → status_at s.mappings i ≡ some status
      → Inv c ks s
      → (status ≡ deactivated → CanStart c ks activated i s)
      → Post c ks activated (DoneAt c ks activated key) s (activate_by_status c status i mapping s)
  unfolding activate_by_status
  Post-activate_by_status key i s mapping deactivated f now h start =
      elim (Option-cases (lookup mapping.target s.targets)) [
        | inl e ↦ rw (e, activate_by_status) (Post-return c ks activated h (λ d. cc))
        | inr (target, e) ↦
            rw (e, activate_by_status)
              (Post-NotDone c ks activated
                (Post-attempt c ks activated i mapping target s (start refl)))
      ]
  Post-activate_by_status key i s mapping activated f now h start =
      Post-return c ks activated h (λ e j f'. ground (arith, f, f', now))
  Post-activate_by_status key i s mapping in_progress f now h start =
      Post-return c ks activated h (λ e. cc)
  Post-activate_by_status key i s mapping error f now h start =
      Post-return c ks activated h (λ e. cc)

  Post-activate_mapping_at :
      (key : InterDependencyMapping) (i : ℕ) (s : TraverseState) (mapping : ServiceMapping)
      {service : ManifestService}
      → find_key c.platform ks key ≡ some i
      → Inv c ks s
      → get_elem? ks i ≡ some (as_dependency mapping)
      → lookup mapping.service c.services_table ≡ some service
      → All (λ key. IsDone c ks activated key s) service.depends_on
      → Post c ks activated (DoneAt c ks activated key) s (activate_mapping_at c i s)
  unfolding activate_mapping_at
  Post-activate_mapping_at key i s mapping f h at defined done =
      Post-pointer c ks activated (get_elem? s.mappings i) _ s h λ current e.
        let now : status_at s.mappings i ≡ some current.status = rw e in
        Post-activate_by_status key i s current current.status f now h
          (λ same. CanStart-activate i s mapping h at defined done (now ∙ ap some same))

  -- Following the dependencies keeps the invariant, and `service_done` means activated.
  pub Post-traverse_inter_dependency_mappings :
      (depth : ℕ) → Truthful c ks activated (traverse_inter_dependency_mappings c depth)
  unfolding traverse_inter_dependency_mappings find_service_mapping
  Post-traverse_inter_dependency_mappings zero key s h = (Post-stop c ks activated h).1
  Post-traverse_inter_dependency_mappings (suc depth) key s h =
      Post-pointer c ks activated (find_service_mapping c.platform s.mappings key) _ s h λ i f.
        Post-pointer c ks activated (get_elem? s.mappings i) _ s h λ mapping at.
          Post-pointer c ks activated (lookup mapping.service c.services_table) _ s h λ service e.
            Post-if_done c ks activated
              (visit_all c (traverse_inter_dependency_mappings c depth) service.depends_on)
              (activate_mapping_at c i) s
              (Post-visit_all c ks activated _ (Post-traverse_inter_dependency_mappings depth)
                service.depends_on s h)
              λ s' h' done.
                Post-activate_mapping_at key i s' mapping
                  (rw (h.same_keys, find_service_mapping) at f) h'
                  (rw h.same_keys at (get_elem?-map as_dependency s.mappings i at)) e (done refl)
