-- ===== src/Traverse/Steps.antt =====
-- src/libmanifest/servicemapping-traverse.c: a process that is started, and one that has ended.
use disnix.Prelude.{
  ℕ, ◌≡◌, ◌≢◌, refl, ap, ◌∙◌, inl, inr, Option, none, some, List, lookup, get_elem?, Option-cases,
  Bool-cases, arith, ltb, All-filter,
}
use disnix.Platform.Posix.{Exit}
use disnix.Model.{
  InterDependencyMapping, ServiceMapping, ServiceMappingStatus, deactivated, in_progress, activated,
  Target,
}
use disnix.Parameters.{request_available_target_core, create_mapping_parameters}
use disnix.Traverse.{
  Context, spawn, record_pid, start_process, start_mapping, attempt_to_map_service_mapping,
  complete_process, wait_for_service_mapping_to_complete,
}
use disnix.Traverse.State.{
  ServiceStatus, service_done, TraverseState, Command, status_at, set_status, remove_pid,
  lookup_pid,
}
use disnix.Traverse.Consistency.{
  DependsOn, IsConsistent-set_status, keys-set_status, status_at-set_self, status_at-set_ne,
  Tracks-filter, Tracks-fresh, Tracks-set_status, Tracks-lookup, Inv,
}
use disnix.Traverse.Post.{Post, Post-return, Post-from, Post-pointer}

abbrev pub NotDone : ServiceStatus → TraverseState → Type 0
NotDone status s = status ≢ service_done

module _ (c : Context) (ks : List InterDependencyMapping) (goal : ServiceMappingStatus) where
  -- A state that differs outside the mappings and the pid table.
  pub Inv-same :
      {s t : TraverseState}
      → Inv c ks s
      → t.mappings ≡ s.mappings
      → t.pid_table ≡ s.pid_table
      → Inv c ks t
  Inv-same h e e' = record {
    same_keys = rw e h.same_keys;
    consistent = rw e h.consistent;
    tracked = rw (e, e') h.tracked;
  }

  -- What allows a process to be started for the mapping at position `i`.
  pub record CanStart (i : ℕ) (s : TraverseState) : Type 0 where
    pub inv : Inv c ks s
    pub from : ServiceMappingStatus
    pub now : status_at s.mappings i ≡ some from
    pub idle : from ≢ in_progress
    pub away : from ≢ goal
    pub below : (j : ℕ) → DependsOn c ks i j → (i ≢ j) × (status_at s.mappings j ≡ some activated)
    pub above :
        (j : ℕ)
        → DependsOn c ks j i
        → i ≢ j
        → (status : ServiceMappingStatus) → status_at s.mappings j ≡ some status
        → ¬ (status ≢ deactivated)

  Inv-started :
      (i : ℕ) (s : TraverseState) (pid : ℕ)
      → CanStart i s
      → Inv c ks (record_pid c i (some pid) s).1
  unfolding record_pid
  Inv-started i s pid h =
      let fresh = Tracks-fresh s.mappings s.pid_table i h.inv.tracked h.now h.idle in
      let others = Tracks-filter s.mappings _ s.pid_table h.inv.tracked in
      record {
        same_keys = keys-set_status s.mappings i in_progress ∙ h.inv.same_keys;
        consistent =
            IsConsistent-set_status s.mappings i in_progress h.inv.consistent (λ j d _. h.below j d)
              (λ j d ne st e live. absurd (h.above j d ne st e live));
        tracked = (
          status_at-set_self s.mappings i in_progress h.now,
          All-filter _ _ s.pid_table fresh,
          Tracks-set_status s.mappings _ i in_progress others (All-filter _ _ s.pid_table fresh),
        );
      }

  Post-record_pid :
      (i : ℕ) (s : TraverseState) (pid : Option ℕ)
      → CanStart i s
      → Post c ks goal NotDone s (record_pid c i pid s)
  unfolding record_pid
  Post-record_pid i s none h = Post-return c ks goal h.inv (λ e. cc)
  Post-record_pid i s (some pid) h = record {
    inv = Inv-started i s pid h;
    settles = λ j e.
        status_at-set_ne s.mappings i j in_progress
          (λ same. h.away (cc (h.now, ap (status_at s.mappings) same)))
        ∙ e;
    post = λ a e. λ d. cc;
  }

  -- Only the mappings and the pid table matter.
  CanStart-same :
      (i : ℕ) {s : TraverseState} (t : TraverseState)
      → CanStart i s
      → t.mappings ≡ s.mappings
      → t.pid_table ≡ s.pid_table
      → CanStart i t
  CanStart-same i t h e e' = record {
    inv = Inv-same h.inv e e';
    from = h.from;
    now = rw e h.now;
    idle = h.idle;
    away = h.away;
    below = rw e h.below;
    above = rw e h.above;
  }

  Post-start_process :
      (i : ℕ) (command : Command) (s : TraverseState)
      → CanStart i s
      → Post c ks goal NotDone s (start_process c i command s)
  unfolding start_process
  Post-start_process i command s h = elim (Option-cases (c.world.fork s.tick s.children)) [
    | inl e ↦
        rw (e, spawn)
          (Post-from c ks goal s (λ j q. q)
            (Post-record_pid i _ none (CanStart-same i _ h refl refl)))
    | inr (pid, e) ↦
        rw (e, spawn)
          (Post-from c ks goal s (λ j q. q)
            (Post-record_pid i _ (some pid) (CanStart-same i _ h refl refl)))
  ]

  Post-start_mapping :
      (i : ℕ) (mapping : ServiceMapping) (target : Target) (s : TraverseState)
      → CanStart i s
      → Post c ks goal NotDone s (start_mapping c i mapping target s)
  unfolding start_mapping
  Post-start_mapping i mapping target s h =
      Post-pointer c ks goal
        (create_mapping_parameters c.platform mapping.service mapping.container
          mapping.container_provided_by_service c.services_table target)
        _ s h.inv
        λ params _.
          Post-pointer c ks goal
            (c.map_service_mapping mapping params.service target params.type params.arguments)
            (start_process c i) s h.inv λ command _. Post-start_process i command s h

  -- An attempt to start a process keeps the invariant, and does not report the mapping as done.
  pub Post-attempt :
      (i : ℕ) (mapping : ServiceMapping) (target : Target) (s : TraverseState)
      → CanStart i s
      → Post c ks goal NotDone s (attempt_to_map_service_mapping c i mapping target s)
  unfolding attempt_to_map_service_mapping
  Post-attempt i mapping target s h = elim (Bool-cases (ltb 0 target.available_cores)) [
    | inl e ↦
        rw (e, request_available_target_core)
          (Post-from c ks goal s (λ j q. q)
            (Post-start_mapping i mapping _ _ (CanStart-same i _ h refl refl)))
    | inr e ↦ rw (e, request_available_target_core) (Post-return c ks goal h.inv (λ d. cc))
  ]

  -- The status that a completion gives: the goal or `error`.
  Inv-completed :
      (i : ℕ) (pid : ℕ) (status : ServiceMappingStatus) (s : TraverseState)
      → Inv c ks s
      → lookup_pid pid s.pid_table ≡ some i
      → Inv c ks (record s {
        mappings = set_status s.mappings i status;
        pid_table = remove_pid pid s.pid_table;
      })
  Inv-completed i pid status s h e =
      let (busy, others) = Tracks-lookup s.mappings s.pid_table pid h.tracked e in
      record {
        same_keys = keys-set_status s.mappings i status ∙ h.same_keys;
        consistent =
            IsConsistent-set_status s.mappings i status h.consistent
              (λ j d _.
                let up = h.consistent i j d in_progress busy (λ x. cc) in
                ((λ same. cc (busy, up, ap (status_at s.mappings) same)), up))
              (λ j d ne st e' live. cc (busy, h.consistent j i d st e' live));
        tracked =
            Tracks-set_status s.mappings _ i status
              (Tracks-filter s.mappings _ s.pid_table h.tracked) others;
      }

  completed_settles :
      (i : ℕ) (pid : ℕ) (status : ServiceMappingStatus) (s : TraverseState)
      → goal ≢ in_progress
      → Inv c ks s
      → lookup_pid pid s.pid_table ≡ some i
      → (j : ℕ) → status_at s.mappings j ≡ some goal
      → status_at (set_status s.mappings i status) j ≡ some goal
  completed_settles i pid status s busy_goal h e j q =
      let (busy, _) = Tracks-lookup s.mappings s.pid_table pid h.tracked e in
      status_at-set_ne s.mappings i j status
        (λ same. busy_goal (ground (arith, busy, q, ap (status_at s.mappings) same)))
      ∙ q

  -- The completion of a process keeps the invariant.
  pub Post-complete_process :
      (e : Exit) (s : TraverseState)
      → goal ≢ in_progress
      → Inv c ks s
      → Post c ks goal (λ _ _. Unit {0}) s (complete_process c e s)
  unfolding complete_process
  Post-complete_process e s busy_goal h =
      Post-pointer c ks goal (lookup_pid e.pid s.pid_table) _ s h λ i found.
        Post-pointer c ks goal (get_elem? s.mappings i) _ s h λ mapping _.
          let status = c.complete_service_mapping e.status e.result in
          let inv = Inv-completed i e.pid status s h found in
          Post-from c ks goal s (completed_settles i e.pid status s busy_goal h found) (
            Post-pointer c ks goal (lookup mapping.target s.targets) _ _ inv λ _ _.
              Post-from c ks goal _ (λ j q. q) (Post-return c ks goal (Inv-same inv refl refl) tt))

  pub Post-wait :
      (s : TraverseState)
      → goal ≢ in_progress
      → Inv c ks s
      → Post c ks goal (λ _ _. Unit {0}) s (wait_for_service_mapping_to_complete c s)
  unfolding wait_for_service_mapping_to_complete
  Post-wait s busy_goal h = elim (Option-cases (c.world.wait s.tick s.children)) [
    | inl e ↦
        rw (e, wait_for_service_mapping_to_complete)
          (Post-from c ks goal s (λ j q. q) (Post-return c ks goal (Inv-same h refl refl) tt))
    | inr (x, e) ↦
        rw (e, wait_for_service_mapping_to_complete)
          (Post-from c ks goal s (λ j q. q)
            (Post-complete_process x _ busy_goal (Inv-same h refl refl)))
  ]
