-- ===== src/Traverse/Cores.antt =====
-- src/libmanifest/servicemapping-traverse.c: the cores of the targets when a process is started and
-- when one has ended.
use disnix.Prelude.{
  ℕ, suc, ◌+◌, ◌-◌, ◌≤◌, ◌≡◌, refl, ap, ◌∙◌, inl, inr, Bool, Option, none, some, List, String,
  str_eq, eq_iff, subst, true, lookup, get_elem?, get_elem?-map, Bool-cases, Option-cases, ltb,
  arith,
}
use disnix.Platform.{Table}
use disnix.Platform.Posix.{Exit}
use disnix.Model.{InterDependencyMapping, ServiceMapping, in_progress, Target, as_dependency}
use disnix.Parameters.{
  request_available_target_core, signal_available_target_core, create_mapping_parameters,
}
use disnix.ServiceMappings.{keys}
use disnix.Traverse.{
  Context, spawn, record_pid, start_process, start_mapping, attempt_to_map_service_mapping,
  complete_process, wait_for_service_mapping_to_complete,
}
use disnix.Traverse.State.{
  ServiceStatus, service_error, service_in_progress, service_wait, service_done, Command,
  TraverseState, Outcome, returned, crashed, unfinished, Step, if_done, ◌>>=◌, proceed,
  with_pointer, set_status, modify_target, lookup_pid, remove_pid, reap,
}
use disnix.Traverse.Consistency.{keys-set_status}
use disnix.Traverse.Running.{
  is_target, running, lookup-modify_target, count-remove_pid, count-remove_listed,
}

module _ (ks : List InterDependencyMapping) where
  -- The cores that are available and those that processes of the table have are not more than there
  -- are.
  pub record Bounded (s : TraverseState) : Type 0 where
    pub same_keys : keys s.mappings ≡ ks
    pub within :
        (name : String) (t : Target)
        → lookup name s.targets ≡ some t
        → t.available_cores + running ks name s.pid_table ≤ t.num_of_cores

  abbrev pub Preserves : {A : Type 0} → Step A → Type 0
  Preserves m = (s : TraverseState) → Bounded s → Bounded (m s).1

  pub Bounded-bind :
      {A B : Type 0} (m : Step A) (f : A → Step B) (s : TraverseState)
      → Bounded (m s).1
      → ((a : A) → Preserves (f a))
      → Bounded ((m >>= f) s).1
  Bounded-bind {A} {B} m f s h k = go (m s).0 (m s).1 h
    where
      go : (o : Outcome A) (s' : TraverseState) → Bounded s' → Bounded (proceed o f s').1
      go (returned a) s' h' = k a s' h'
      go crashed s' h' = h'
      go unfinished s' h' = h'

  pub Bounded-pointer :
      {A B : Type 0} (o : Option A) (f : A → Step B) (s : TraverseState)
      → Bounded s
      → ((a : A) → o ≡ some a → Bounded (f a s).1)
      → Bounded (with_pointer o f s).1
  Bounded-pointer none f s h k = h
  Bounded-pointer (some a) f s h k = k a refl

  pub Bounded-if_done :
      (m next : Step ServiceStatus) (s : TraverseState)
      → Bounded (m s).1
      → Preserves next
      → Bounded ((m >>= λ status. if_done status next) s).1
  Bounded-if_done m next s h k = Bounded-bind m (λ status. if_done status next) s h go
    where
      go : (status : ServiceStatus) → Preserves (if_done status next)
      go service_done s' h' = k s' h'
      go service_error s' h' = h'
      go service_in_progress s' h' = h'
      go service_wait s' h' = h'

module _ (c : Context) (ks : List InterDependencyMapping) where
  -- A core of the target of the mapping at `i` is taken, and no process has it yet.
  record Taken (i : ℕ) (target : String) (s : TraverseState) : Type 0 where
    bounded : Bounded ks s
    own : (name : String) → is_target name (get_elem? ks i) ≡ str_eq target name
    spare :
        (name : String) (t : Target)
        → str_eq target name ≡ true
        → lookup name s.targets ≡ some t
        → suc (t.available_cores + running ks name s.pid_table) ≤ t.num_of_cores

  Bounded-start_process :
      (i : ℕ) (target : String) (command : Command) (s : TraverseState)
      → Taken i target s
      → Bounded ks (start_process c i command s).1
  unfolding start_process spawn record_pid
  Bounded-start_process i target command s h =
      elim (Option-cases (c.world.fork s.tick s.children)) [
        | inl e ↦
            rw (e, spawn) (record { same_keys = h.bounded.same_keys; within = h.bounded.within })
        | inr (pid, e) ↦
            rw (e, spawn)
              (record {
                same_keys = keys-set_status s.mappings i in_progress ∙ h.bounded.same_keys;
                within = λ name t found.
                    let fewer =
                      count-remove_pid (λ k. is_target name (get_elem? ks k)) pid s.pid_table in
                    elim (Bool-cases (str_eq target name)) [
                      | inl same ↦ ground (arith, fewer, h.own name, h.spare name t same found)
                      | inr other ↦ ground (arith, fewer, h.own name, h.bounded.within name t found)
                    ];
              })
      ]

  own_key :
      (i : ℕ) (mapping : ServiceMapping) (s : TraverseState)
      → Bounded ks s
      → get_elem? s.mappings i ≡ some mapping
      → (name : String) → is_target name (get_elem? ks i) ≡ str_eq mapping.target name
  own_key i mapping s h at name =
      let key : get_elem? ks i ≡ some (as_dependency mapping) =
        rw (← h.same_keys) (get_elem?-map as_dependency s.mappings i at) in
      ap (is_target name) key

  -- What a change has made of the target that it changed.
  changed_target :
      (name other : String) (f : Target → Target) (targets : Table Target) (t old : Target)
      → str_eq name other ≡ true
      → lookup name targets ≡ some old
      → lookup other (modify_target name f targets) ≡ some t
      → (lookup other targets ≡ some old) × (t ≡ f old)
  changed_target name other f targets t old same found e =
      let n : name ≡ other = (eq_iff name other).0 same in
      let found' : lookup other targets ≡ some old =
        subst (λ x. lookup x targets ≡ some old) n found in
      (found', ground (arith, lookup-modify_target name other f targets, same, e, found'))

  Taken-request :
      (i : ℕ) (mapping : ServiceMapping) (target : Target) (s : TraverseState)
      → Bounded ks s
      → get_elem? s.mappings i ≡ some mapping
      → lookup mapping.target s.targets ≡ some target
      → ltb 0 target.available_cores ≡ true
      → Taken i mapping.target (record s {
        targets =
            modify_target mapping.target
              (λ _. record target { available_cores = target.available_cores - 1 })
              s.targets;
      })
  Taken-request i mapping target s h at found free =
      let f : Target → Target =
        λ _. record target { available_cores = target.available_cores - 1 } in
      record {
        bounded = record {
          same_keys = h.same_keys;
          within = λ name t e. elim (Bool-cases (str_eq mapping.target name)) [
            | inl same ↦ omega (arith, taken_core name t same e)
            | inr other ↦
                ground
                  (arith, e, lookup-modify_target mapping.target name f s.targets, h.within name t)
          ];
        };
        own = own_key i mapping s h at;
        spare = taken_core;
      }
    where
      taken_core :
          (name : String) (t : Target)
          → str_eq mapping.target name ≡ true
          → lookup name (
              modify_target mapping.target
                (λ _. record target { available_cores = target.available_cores - 1 })
                s.targets)
            ≡ some t
          → suc (t.available_cores + running ks name s.pid_table) ≤ t.num_of_cores
      taken_core name t same e =
          let (found', t') = changed_target mapping.target name _ s.targets t target same found e in
          ground (
            arith,
            h.within name target found',
            ap (λ (x : Target). x.available_cores) t',
            ap (λ (x : Target). x.num_of_cores) t',
            free,
          )

  pub Bounded-attempt :
      (i : ℕ) (mapping : ServiceMapping) (target : Target) (s : TraverseState)
      → Bounded ks s
      → get_elem? s.mappings i ≡ some mapping
      → lookup mapping.target s.targets ≡ some target
      → Bounded ks (attempt_to_map_service_mapping c i mapping target s).1
  unfolding attempt_to_map_service_mapping start_mapping
  Bounded-attempt i mapping target s h at found = elim (Bool-cases (ltb 0 target.available_cores)) [
    | inl free ↦
        let h' = Taken-request i mapping target s h at found free in
        rw (free, request_available_target_core)
          (Bounded-pointer ks
            (create_mapping_parameters c.platform mapping.service mapping.container
              mapping.container_provided_by_service c.services_table _)
            _ _ h'.bounded
            λ params _.
              Bounded-pointer ks
                (c.map_service_mapping mapping params.service _ params.type params.arguments)
                (start_process c i) _ h'.bounded
                λ command _. Bounded-start_process i mapping.target command _ h')
    | inr none_free ↦ rw (none_free, request_available_target_core) h
  ]

  -- A core is given back after its process has left the table.
  signalled :
      (e : Exit) (s : TraverseState)
      → Bounded ks s
      → (i : ℕ) (mapping : ServiceMapping) (target : Target) → lookup_pid e.pid s.pid_table ≡ some i
      → get_elem? s.mappings i ≡ some mapping
      → lookup mapping.target s.targets ≡ some target
      → (name : String) (t : Target)
      → lookup name (modify_target mapping.target signal_available_target_core s.targets) ≡ some t
      → t.available_cores + running ks name (remove_pid e.pid s.pid_table) ≤ t.num_of_cores
  unfolding signal_available_target_core
  signalled e s h i mapping target listed at found name t changed =
      let test : ℕ → Bool = λ k. is_target name (get_elem? ks k) in
      elim (Bool-cases (str_eq mapping.target name)) [
        | inl same ↦
            let (found', t') =
              changed_target mapping.target name signal_available_target_core s.targets t target
                same found changed in
            let listed_on : test i ≡ true = own_key i mapping s h at name ∙ same in
            ground (
              arith,
              h.within name target found',
              ap (λ (x : Target). x.available_cores) t',
              ap (λ (x : Target). x.num_of_cores) t',
              count-remove_listed test e.pid s.pid_table i listed listed_on,
            )
        | inr other ↦ ground (
          arith,
          changed,
          lookup-modify_target mapping.target name signal_available_target_core s.targets,
          h.within name t,
          count-remove_pid test e.pid s.pid_table,
        )
      ]

  Bounded-complete :
      (e : Exit) (s : TraverseState) → Bounded ks s → Bounded ks (complete_process c e s).1
  unfolding complete_process
  Bounded-complete e s h = Bounded-pointer ks (lookup_pid e.pid s.pid_table) _ s h λ i listed.
      Bounded-pointer ks (get_elem? s.mappings i) _ s h λ mapping at.
        let status = c.complete_service_mapping e.status e.result in
        let s' = record s {
          mappings = set_status s.mappings i status;
          pid_table = remove_pid e.pid s.pid_table;
        } in
        let h' : Bounded ks s' = record {
          same_keys = keys-set_status s.mappings i status ∙ h.same_keys;
          within = λ name t found. omega (
            arith,
            h.within name t found,
            count-remove_pid (λ k. is_target name (get_elem? ks k)) e.pid s.pid_table,
          );
        } in
        Bounded-pointer ks (lookup mapping.target s.targets) _ s' h' λ target found. record {
          same_keys = h'.same_keys;
          within = signalled e s h i mapping target listed at found;
        }

  pub Bounded-wait : Preserves ks (wait_for_service_mapping_to_complete c)
  unfolding wait_for_service_mapping_to_complete
  Bounded-wait s h = elim (Option-cases (c.world.wait s.tick s.children)) [
    | inl e ↦
        rw (e, wait_for_service_mapping_to_complete)
          (record { same_keys = h.same_keys; within = h.within })
    | inr (x, e) ↦
        rw (e, wait_for_service_mapping_to_complete)
          (Bounded-complete x (record s { tick = suc s.tick; children = reap x.pid s.children })
            (record { same_keys = h.same_keys; within = h.within }))
  ]
