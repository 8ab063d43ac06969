-- ===== src/Traverse/Progress.antt =====
-- src/libmanifest/servicemapping-traverse.c: starting a process and waiting for one, in a world whose
-- forks succeed.
use disnix.Prelude.{
  ℕ, suc, ◌-◌, ◌≤◌, ◌<◌, ◌==◌, ◌≡◌, ◌≢◌, sym, ap, subst, ◌∙◌, inl, inr, Bool, true, false, none,
  some, List, [], ◌∷◌, ◌++◌, str_eq, Memᴰ, lookup, get_elem?, get_elem?-map, any, All, All-weaken,
  Bool-cases, Option-cases, ltb, arith,
}
use disnix.Platform.Posix.{IsWorld, Exit, ProcReactStatus}
use disnix.Model.{
  InterDependencyMapping, ServiceMapping, ServiceMappingStatus, in_progress, Target, as_dependency,
}
use disnix.Parameters.{
  request_available_target_core, signal_available_target_core, create_mapping_parameters,
}
use disnix.ServiceMappings.Plan.{same_status_iff}
use disnix.Traverse.{
  Context, spawn, record_pid, start_process, start_mapping, attempt_to_map_service_mapping,
  complete_process, wait_for_service_mapping_to_complete,
}
use disnix.Traverse.State.{
  ServiceStatus, service_error, service_in_progress, service_wait, service_done, Command,
  TraverseState, status_at, set_status, modify_target, lookup_pid, remove_pid, insert_pid, reap,
}
use disnix.Traverse.Consistency.{
  Tracks-filter, Tracks-fresh, Tracks-set_status, Tracks-lookup, keys-set_status,
  status_at-set_self, status_at-set_ne,
}
use disnix.Traverse.Running.{
  is_child, is_target, running, lookup-modify_target, is_child-fresh, is_child-reap, unused_pid,
  remove_pid-unused, Distinct-remove, count-remove_other, watched-remove,
}
use disnix.Traverse.Live.{
  weight_of, weight, distance, weight-set_status, Live, Live-table, Ends, Ends-return, Ends-from,
  Ends-pointer,
}

-- The statuses after which the loop goes on.
abbrev pub is_pending : ServiceStatus → Bool
is_pending service_in_progress = true
is_pending service_wait = true
is_pending service_done = false
is_pending service_error = false

-- What is pending can be waited for.
abbrev pub Waitable : ServiceStatus → TraverseState → Type 0
Waitable status s = is_pending status ≡ true → s.children ≢ []

module _ (c : Context) (ks : List InterDependencyMapping) (start : ServiceMappingStatus)
    (posix : IsWorld c.world)
    (forks : (tick : ℕ) (children : List ℕ) → c.world.fork tick children ≢ none) where
  -- What a process may be started from: the mapping has its first status, and a core is taken.
  record Starting (i : ℕ) (mapping : ServiceMapping) (target : Target) (s : TraverseState)
      : Type 0 where
    live : Live ks s
    at : get_elem? s.mappings i ≡ some mapping
    first : mapping.status ≡ start
    found : lookup mapping.target s.targets ≡ some target
    free : ltb 0 target.available_cores ≡ true

  module _ (idle : start ≢ in_progress) where
    Live-started :
        (i : ℕ) (mapping : ServiceMapping) (target : Target) (s : TraverseState) (tick pid : ℕ)
        (log : List Command)
        → Starting i mapping target s
        → ¬ Memᴰ pid s.children
        → Live ks (record s {
          targets =
              modify_target mapping.target
                (λ _. record target { available_cores = target.available_cores - 1 })
                s.targets;
          tick = tick;
          children = pid ∷ s.children;
          log = log;
          mappings = set_status s.mappings i in_progress;
          pid_table = insert_pid pid i s.pid_table;
        })
    Live-started i mapping target s tick pid log h fresh =
        let unused =
          unused_pid pid s.children s.pid_table (is_child-fresh pid s.children fresh)
            h.live.alive in
        let same_table : remove_pid pid s.pid_table ≡ s.pid_table =
          remove_pid-unused pid s.pid_table unused in
        let now : status_at s.mappings i ≡ some start = rw h.at (ap some h.first) in
        let others = Tracks-fresh s.mappings s.pid_table i h.live.tracked now idle in
        let key : get_elem? ks i ≡ some (as_dependency mapping) =
          rw (← h.live.same_keys) (get_elem?-map as_dependency s.mappings i h.at) in
        rw same_table (record {
          same_keys = keys-set_status s.mappings i in_progress ∙ h.live.same_keys;
          tracked = (
            status_at-set_self s.mappings i in_progress now,
            others,
            Tracks-set_status s.mappings s.pid_table i in_progress h.live.tracked others,
          );
          alive = (
            ground arith,
            All-weaken (λ e. is_child e.0 s.children ≡ true) _ (λ e a. ground (arith, a))
                s.pid_table h.live.alive,
          );
          distinct = (unused, h.live.distinct);
          watched = λ j e. elim (Bool-cases (i == j)) [
            | inl same ↦ ground arith
            | inr other ↦
                let ne : i ≢ j = ground arith in
                ground (
                  arith,
                  h.live.watched j (sym (status_at-set_ne s.mappings i j in_progress ne) ∙ e),
                )
          ];
          staffed = λ name t e. elim (Bool-cases (str_eq mapping.target name)) [
            | inl same ↦
                let here : is_target name (get_elem? ks i) ≡ true =
                  ap (is_target name) key ∙ same in
                ground (arith, here)
            | inr other ↦
                let kept : lookup name s.targets ≡ some t = ground (
                  arith,
                  e,
                  lookup-modify_target mapping.target name
                      (λ _. record target { available_cores = target.available_cores - 1 })
                      s.targets,
                ) in
                ground (arith, h.live.staffed name t kept)
          ];
        })

    -- The state with a core of the target taken.
    abbrev taken : ServiceMapping → Target → TraverseState → TraverseState
    taken mapping target s = record s {
      targets =
          modify_target mapping.target
            (λ _. record target { available_cores = target.available_cores - 1 }) s.targets;
    }

    Ends-record_pid :
        (i : ℕ) (mapping : ServiceMapping) (target : Target) (s : TraverseState) (command : Command)
        → Starting i mapping target s
        → Ends ks start posix.signals Waitable
            (taken mapping target s)
            (start_process c i command (taken mapping target s))
    unfolding start_process spawn record_pid
    Ends-record_pid i mapping target s command h =
        elim (Option-cases (c.world.fork s.tick s.children)) [
          | inl failed ↦ absurd (forks s.tick s.children failed)
          | inr (pid, e) ↦
              let now : status_at s.mappings i ≡ some start = rw h.at (ap some h.first) in
              let live =
                Live-started i mapping target s (suc s.tick) pid (s.log ++ command ∷ []) h
                  (posix.fork_fresh s.tick s.children pid e) in
              rw (e, spawn)
                (Ends-from ks start posix.signals (taken mapping target s)
                  (ground (
                    arith,
                    weight-set_status start s.mappings i start in_progress now,
                    same_status_iff start start,
                    same_status_iff start in_progress,
                    posix.signals_pass s.tick,
                  ))
                  (Ends-return ks start posix.signals service_in_progress _ live
                    (λ _ none_left. ground arith)))
        ]

    -- An attempt to start a process for a mapping in its first status.
    pub Ends-attempt :
        (i : ℕ) (mapping : ServiceMapping) (target : Target) (s : TraverseState)
        → Live ks s
        → get_elem? s.mappings i ≡ some mapping
        → mapping.status ≡ start
        → lookup mapping.target s.targets ≡ some target
        → Ends ks start posix.signals Waitable s
            (attempt_to_map_service_mapping c i mapping target s)
    unfolding attempt_to_map_service_mapping start_mapping
    Ends-attempt i mapping target s h at first found =
        elim (Bool-cases (ltb 0 target.available_cores)) [
          | inl free ↦
              rw (free, request_available_target_core)
                (Ends-from ks start posix.signals s (omega arith) (
                  Ends-pointer ks start posix.signals
                    (create_mapping_parameters c.platform mapping.service mapping.container
                      mapping.container_provided_by_service c.services_table _)
                    _ _
                    λ params _.
                      Ends-pointer ks start posix.signals
                        (c.map_service_mapping mapping params.service _ params.type
                          params.arguments)
                        (start_process c i) _
                        λ command _. Ends-record_pid i mapping target s command (record {
                          live = h;
                          at = at;
                          first = first;
                          found = found;
                          free = free;
                        })))
          | inr busy ↦
              rw (busy, request_available_target_core)
                (Ends-return ks start posix.signals service_wait s h λ _.
                  let staff = h.staffed mapping.target target found in
                  Live-table ks s (λ e. is_target mapping.target (get_elem? ks e.1)) h
                    (counted s.pid_table (ground arith)))
        ]
      where
        counted :
            (table : List (ℕ × ℕ))
            → 1 ≤ running ks mapping.target table
            → any (λ e. is_target mapping.target (get_elem? ks e.1)) table ≡ true
        counted [] le = absurd (omega arith)
        counted (e ∷ table) le = ground (arith, counted table)

  module _
      (finished : (status : ProcReactStatus) (result : Bool)
        → weight_of start (c.complete_service_mapping status result) ≡ 0) where
    -- A process that has ended has brought its mapping to its end.
    Live-completed :
        (e : Exit) (i : ℕ) (mapping : ServiceMapping) (s : TraverseState)
        → Live ks s
        → lookup_pid e.pid s.pid_table ≡ some i
        → get_elem? s.mappings i ≡ some mapping
        → Live ks (record s {
          targets = modify_target mapping.target signal_available_target_core s.targets;
          tick = suc s.tick;
          children = reap e.pid s.children;
          mappings = set_status s.mappings i (c.complete_service_mapping e.status e.result);
          pid_table = remove_pid e.pid s.pid_table;
        })
    unfolding signal_available_target_core
    Live-completed e i mapping s h listed at =
        let status = c.complete_service_mapping e.status e.result in
        let (busy, others) = Tracks-lookup s.mappings s.pid_table e.pid h.tracked listed in
        let key : get_elem? ks i ≡ some (as_dependency mapping) =
          rw (← h.same_keys) (get_elem?-map as_dependency s.mappings i at) in
        record {
          same_keys = keys-set_status s.mappings i status ∙ h.same_keys;
          tracked =
              Tracks-set_status s.mappings (remove_pid e.pid s.pid_table) i status
                (Tracks-filter s.mappings _ s.pid_table h.tracked) others;
          alive = still_alive s.pid_table h.alive;
          distinct = Distinct-remove e.pid s.pid_table h.distinct;
          watched = λ j now. elim (Bool-cases (i == j)) [
            | inl same ↦
                let same' : i ≡ j = ground arith in
                let here : status_at (set_status s.mappings i status) i ≡ some in_progress =
                  subst (λ k. status_at (set_status s.mappings i status) k ≡ some in_progress)
                    (sym same') now in
                let end : weight_of start status ≡ 0 = finished e.status e.result in
                absurd (
                  ground (
                    arith,
                    status_at-set_self s.mappings i status busy,
                    here,
                    end,
                    same_status_iff in_progress status,
                  ))
            | inr other ↦
                let ne : i ≢ j = ground arith in
                watched-remove e.pid s.pid_table i j h.distinct listed ne
                  (h.watched j (sym (status_at-set_ne s.mappings i j status ne) ∙ now))
          ];
          staffed = λ name t found. elim (Bool-cases (str_eq mapping.target name)) [
            | inl same ↦ ground (
              arith,
              found,
              lookup-modify_target mapping.target name signal_available_target_core s.targets,
            )
            | inr other ↦
                let kept : lookup name s.targets ≡ some t = ground (
                  arith,
                  found,
                  lookup-modify_target mapping.target name signal_available_target_core s.targets,
                ) in
                let elsewhere : is_target name (get_elem? ks i) ≡ false =
                  ap (is_target name) key ∙ other in
                omega (
                  arith,
                  h.staffed name t kept,
                  count-remove_other (λ k. is_target name (get_elem? ks k)) e.pid s.pid_table i
                      h.distinct listed elsewhere,
                )
          ];
        }
      where
        still_alive :
            (table : List (ℕ × ℕ))
            → All (λ f. is_child f.0 s.children ≡ true) table
            → All (λ f. is_child f.0 (reap e.pid s.children) ≡ true) (remove_pid e.pid table)
        still_alive [] k = tt
        still_alive ((q, j) ∷ table) k = elim (Bool-cases (q == e.pid)) [
          | inl same ↦ rw same (still_alive table k.1)
          | inr other ↦ rw other (is_child-reap e.pid q s.children other k.0, still_alive table k.1)
        ]

    -- A wait comes nearer to the end, if there is a process to wait for.
    abbrev pub Nearer : TraverseState → Unit {0} → TraverseState → Type 0
    Nearer s _ t =
        s.children ≢ [] → distance ks start posix.signals t < distance ks start posix.signals s

    Ends-complete :
        (e : Exit) (s : TraverseState)
        → Live ks s
        → Ends ks start posix.signals (Nearer s) s (
            complete_process c e (record s { tick = suc s.tick; children = reap e.pid s.children }))
    unfolding complete_process
    Ends-complete e s h =
        let s' = record s { tick = suc s.tick; children = reap e.pid s.children } in
        Ends-from ks start posix.signals s {s' = s'} (omega (arith, posix.signals_pass s.tick)) (
          Ends-pointer ks start posix.signals (lookup_pid e.pid s.pid_table) _ s' λ i listed.
            Ends-pointer ks start posix.signals (get_elem? s.mappings i) _ s' λ mapping at.
              let status = c.complete_service_mapping e.status e.result in
              let (busy, _) = Tracks-lookup s.mappings s.pid_table e.pid h.tracked listed in
              let end : weight_of start status ≡ 0 = finished e.status e.result in
              let less : weight start (set_status s.mappings i status) < weight start s.mappings =
                ground (
                  arith,
                  weight-set_status start s.mappings i in_progress status busy,
                  end,
                  same_status_iff in_progress in_progress,
                ) in
              Ends-from ks start posix.signals s' (omega (arith, less)) (
                Ends-pointer ks start posix.signals (lookup mapping.target s.targets) _ _ λ _ _.
                  Ends-from ks start posix.signals _ (omega arith) (
                    Ends-return ks start posix.signals tt _
                      (Live-completed e i mapping s h listed at)
                      (λ _. omega (arith, less, posix.signals_pass s.tick)))))

    pub Ends-wait :
        (s : TraverseState)
        → Live ks s
        → Ends ks start posix.signals (Nearer s) s (wait_for_service_mapping_to_complete c s)
    unfolding wait_for_service_mapping_to_complete
    Ends-wait s h = elim (Option-cases (c.world.wait s.tick s.children)) [
      | inl e ↦
          rw (e, wait_for_service_mapping_to_complete)
            (Ends-from ks start posix.signals s (omega (arith, posix.signals_pass s.tick)) (
              Ends-return ks start posix.signals tt _
                (record {
                  same_keys = h.same_keys;
                  tracked = h.tracked;
                  alive = h.alive;
                  distinct = h.distinct;
                  watched = h.watched;
                  staffed = h.staffed;
                })
                (λ some_left. omega (arith, posix.wait_interrupted s.tick s.children some_left e))))
      | inr (x, e) ↦ rw (e, wait_for_service_mapping_to_complete) (Ends-complete x s h)
    ]
