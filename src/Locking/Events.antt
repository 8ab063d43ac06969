-- ===== src/Locking/Events.antt =====
-- src/libmanifest/profilemapping-iterator.c: what an iteration has done when libprocreact is through.
use disnix.Prelude.{
  ℕ, suc, ◌≡◌, refl, sym, ap, ◌∙◌, ◌&&◌, ◌||◌, String, str_eq, eq_iff, Bool, true, Option, none,
  some, List, [], ◌∷◌, lookup, length, any, filter, not, arith, Option-cases, Bool-cases, inl, inr,
}
use disnix.Platform.{Table}
use disnix.Platform.Posix.{ProcReactStatus}
use disnix.Model.{Target}
use disnix.ModelIterator.{next_iteration_process, complete_iteration_process, find_item, is_success}
use disnix.Locking.{
  Event, spawned, completed, spawns, LockingState, ProfileOperation, Iteration, handle_event,
  handle_events, next_profile_mapping_process, complete_profile_mapping_process, unlock_operation,
}

abbrev pub is_in : String → List String → Bool
is_in name = any (str_eq name)

-- Whether a table has an entry of this name.
abbrev pub has_entry : String → Table String → Bool
has_entry name = any (λ e. str_eq name e.0)

is_in-filter :
    (name other : String) (names : List String)
    → is_in name (filter (λ n. not (str_eq other n)) names)
      ≡ (is_in name names && not (str_eq name other))
is_in-filter name other [] = refl
is_in-filter name other (n ∷ names) =
    ground (arith, is_in-filter name other names, eq_iff name n, eq_iff other n, eq_iff name other)

has_entry_length :
    (name : String) (table : Table String) → has_entry name table ≡ true → ¬ (0 ≡ length table)
has_entry_length name [] h e = absurd (ground arith)
has_entry_length name (entry ∷ table) h e = omega arith

module _ {S : Type 0} (targets : Table Target) (operation : ProfileOperation S)
    (table : Table String) where
  -- What a call of `next` that comes back has done.
  pub record Next (pid : Option ℕ) (it it' : Iteration S) : Type 0 where
    pub name : String
    pub path : String
    pub rest : Table String
    pub target : Target
    pub known : lookup name targets ≡ some target
    pub entries : it.iter ≡ (name, path) ∷ rest
    pub left : it'.iter ≡ rest
    pub mapped : it'.user_data ≡ operation.map_profile_mapping name path target it.user_data
    pub recorded : it'.model_iterator_data ≡ next_iteration_process it.model_iterator_data pid name

  pub Next-intro :
      (pid : Option ℕ) (it it' : Iteration S)
      → next_profile_mapping_process targets operation pid it ≡ some it'
      → Next pid it it'
  unfolding next_profile_mapping_process
  Next-intro pid it it' e = go it.iter refl e
    where
      go :
          (iter : Table String)
          → it.iter ≡ iter
          → elim iter [
            | [] ↦ none
            | ◌∷◌ entry rest ↦ elim (lookup entry.0 targets) [
              | none ↦ none
              | some target ↦ some (record {
                model_iterator_data = next_iteration_process it.model_iterator_data pid entry.0;
                iter = rest;
                user_data = operation.map_profile_mapping entry.0 entry.1 target it.user_data;
              })
            ]
          ]
            ≡ some it'
          → Next pid it it'
      go [] same e = absurd (ground arith)
      go ((name, path) ∷ rest) same e = elim (Option-cases (lookup name targets)) [
        | inl missing ↦ absurd (ground arith)
        | inr (target, found) ↦ record {
          name = name;
          path = path;
          rest = rest;
          target = target;
          known = found;
          entries = same;
          left = ground arith;
          mapped = ground arith;
          recorded = ground arith;
        }
      ]

  -- What a call of `complete` that comes back has done.
  pub record Completed (pid : Option ℕ) (status : ProcReactStatus) (result : Bool)
      (it it' : Iteration S) : Type 0 where
    pub name : String
    pub process : ℕ
    pub known : find_item process it.model_iterator_data.pid_table ≡ some name
    pub left : it'.iter ≡ it.iter
    pub same_table : it'.model_iterator_data.pid_table ≡ it.model_iterator_data.pid_table
    pub outcome :
        it'.model_iterator_data.success
        ≡ (it.model_iterator_data.success && is_success status result)
    pub handled :
        it'.user_data
        ≡ operation.complete_map_profile_mapping name (lookup name table) status result it.user_data

  pub Completed-intro :
      (pid : Option ℕ) (status : ProcReactStatus) (result : Bool) (it it' : Iteration S)
      → complete_profile_mapping_process targets operation table pid status result it ≡ some it'
      → Completed pid status result it it'
  unfolding complete_profile_mapping_process complete_iteration_process
  Completed-intro none status result it it' e = absurd (ground arith)
  Completed-intro (some process) status result it it' e =
      elim (Option-cases (find_item process it.model_iterator_data.pid_table)) [
        | inl missing ↦ absurd (ground arith)
        | inr (name, found) ↦ record {
          name = name;
          process = process;
          known = found;
          left = ground arith;
          same_table = ground arith;
          outcome = ground arith;
          handled = ground arith;
        }
      ]

  pub handle_events_cons :
      (event : Event) (events : List Event) (it it' : Iteration S)
      → handle_events targets operation table (event ∷ events) it ≡ some it'
      → (between : Iteration S) × (handle_event targets operation table event it ≡ some between)
        × (handle_events targets operation table events between ≡ some it')
  unfolding handle_events
  handle_events_cons event events it it' e =
      elim (Option-cases (handle_event targets operation table event it)) [
        | inl stopped ↦ absurd (ground arith)
        | inr (between, ran) ↦ (between, ran, ground arith)
      ]

module _ (targets : Table Target) (table : Table String) where
  -- An unlock iteration that has started as many processes as it has entries holds none of them.
  pub unlock_events :
      (events : List Event) (it it' : Iteration LockingState) (name : String)
      → handle_events targets unlock_operation table events it ≡ some it'
      → spawns events ≡ length it.iter
      → is_in name it'.user_data.to_release
        ≡ (is_in name it.user_data.to_release && not (has_entry name it.iter))
  unfolding handle_events handle_event
  unlock_events [] it it' name e n = elim (Bool-cases (has_entry name it.iter)) [
    | inl entry ↦ absurd (has_entry_length name it.iter entry n)
    | inr entry ↦
        let same : it ≡ it' = cc in
        ap (λ (x : Iteration LockingState). is_in name x.user_data.to_release) (sym same)
        ∙ ground arith
  ]
  unlock_events (spawned pid ∷ events) it it' name e n =
      let (between, ran, others) =
        handle_events_cons targets unlock_operation table (spawned pid) events it it' e in
      let next = Next-intro targets unlock_operation table pid it between ran in
      let size : length it.iter ≡ suc (length next.rest) = ap length next.entries in
      let ih =
        unlock_events events between it' name others
          (ground (arith, size, n, ap length next.left)) in
      let mapped : is_in name between.user_data.to_release
          ≡ (is_in name it.user_data.to_release && not (str_eq name next.name)) =
        ap (λ (x : LockingState). is_in name x.to_release) next.mapped
        ∙ is_in-filter name next.name it.user_data.to_release in
      let entry : has_entry name it.iter ≡ (str_eq name next.name || has_entry name next.rest) =
        ap (has_entry name) next.entries in
      let rest : has_entry name between.iter ≡ has_entry name next.rest =
        ap (has_entry name) next.left in
      ground (arith, ih, mapped, entry, rest)
  unlock_events (completed pid status result ∷ events) it it' name e n =
      let (between, ran, others) =
        handle_events_cons targets unlock_operation table (completed pid status result) events it
          it' e in
      let done = Completed-intro targets unlock_operation table pid status result it between ran in
      unlock_events events between it' name others (n ∙ ap length (sym done.left))
      ∙ rw (done.handled, done.left) refl
