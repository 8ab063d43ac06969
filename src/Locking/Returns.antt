-- ===== src/Locking/Returns.antt =====
-- src/libmanifest/profilemapping-iterator.c: an iteration comes back when libprocreact reports only
-- processes that it has been given, and each entry has a target.
use disnix.Prelude.{
  ℕ, suc, ◌==◌, ◌≡◌, ◌≢◌, refl, ap, subst, sym, ◌∙◌, ◌&&◌, String, Bool, true, false, Option, none,
  some, List, [], ◌∷◌, lookup, length, filter, not, is_some, any, All, arith, Option-cases,
  Bool-cases, inl, inr,
}
use disnix.Platform.{Table}
use disnix.Platform.Posix.{ProcReactStatus}
use disnix.Model.{Target}
use disnix.ModelIterator.{
  ModelIteratorData, is_success, find_item, next_iteration_process, complete_iteration_process,
}
use disnix.Locking.{
  Event, spawned, completed, spawns, Iteration, ProfileOperation, handle_event, handle_events,
  next_profile_mapping_process, complete_profile_mapping_process,
}

-- Whether each process that ended is one of these or was started before.
abbrev pub is_causal : List ℕ → List Event → Bool
is_causal pids [] = true
is_causal pids (spawned none ∷ events) = is_causal pids events
is_causal pids (spawned (some pid) ∷ events) = is_causal (pid ∷ pids) events
is_causal pids (completed none status result ∷ events) = false
is_causal pids (completed (some pid) status result ∷ events) =
    any (λ p. p == pid) pids && is_causal pids events

find_item-filter :
    (table : List (ℕ × String)) (p q : ℕ)
    → (p == q) ≡ false
    → find_item q (filter (λ e. not (e.0 == p)) table) ≡ find_item q table
find_item-filter [] p q h = refl
find_item-filter ((r, item) ∷ table) p q h = ground (arith, find_item-filter table p q h)

-- The pids that are known to an iteration.
abbrev Known : List ℕ → List (ℕ × String) → Type 0
Known pids table =
    (pid : ℕ) → any (λ p. p == pid) pids ≡ true → is_some (find_item pid table) ≡ true

Known-next :
    (pids : List ℕ) (table : List (ℕ × String)) (p : ℕ) (item : String)
    → Known pids table
    → Known (p ∷ pids) ((p, item) ∷ filter (λ e. not (e.0 == p)) table)
Known-next pids table p item h pid e = elim (Bool-cases (p == pid)) [
  | inl same ↦ ground (arith, same)
  | inr other ↦ ground (arith, other, ap is_some (find_item-filter table p pid other), h pid)
]

abbrev pub with_pid : Option ℕ → List ℕ → List ℕ
with_pid none pids = pids
with_pid (some pid) pids = pid ∷ pids

Known-next_iteration_process :
    (pids : List ℕ) (d : ModelIteratorData String) (pid : Option ℕ) (item : String)
    → Known pids d.pid_table
    → Known (with_pid pid pids) (next_iteration_process d pid item).pid_table
unfolding next_iteration_process
Known-next_iteration_process pids d none item h = h
Known-next_iteration_process pids d (some pid) item h = Known-next pids d.pid_table pid item h

pid_table-complete_iteration_process :
    (d : ModelIteratorData String) (pid : Option ℕ) (status : ProcReactStatus) (result : Bool)
    → (complete_iteration_process d pid status result).1.pid_table ≡ d.pid_table
unfolding complete_iteration_process
pid_table-complete_iteration_process d pid status result =
    elim (Bool-cases (is_success status result)) [ inl good ↦ rw good refl | inr bad ↦ rw bad refl ]

module _ {S : Type 0} (targets : Table Target) (operation : ProfileOperation S)
    (table : Table String) where
  -- All entries that are left have a target, and the processes are known.
  pub record Ready (pids : List ℕ) (it : Iteration S) : Type 0 where
    pub known : Known pids it.model_iterator_data.pid_table
    pub found : All (λ e. lookup e.0 targets ≢ none) it.iter

  Returns-next :
      (pid : Option ℕ) (pids : List ℕ) (it : Iteration S) (n : ℕ)
      → Ready pids it
      → suc n ≡ length it.iter
      → (it' : Iteration S) × (next_profile_mapping_process targets operation pid it ≡ some it')
        × Ready (with_pid pid pids) it'
        × (n ≡ length it'.iter)
  unfolding next_profile_mapping_process next_iteration_process
  Returns-next pid pids it n ready size = go it.iter refl ready.found size
    where
      go :
          (iter : Table String)
          → it.iter ≡ iter
          → All (λ e. lookup e.0 targets ≢ none) iter
          → suc n ≡ length iter
          → (it' : Iteration S) × (next_profile_mapping_process targets operation pid it ≡ some it')
            × Ready (with_pid pid pids) it'
            × (n ≡ length it'.iter)
      go [] same all size = absurd (omega (arith, size))
      go ((name, path) ∷ rest) same all size = elim (Option-cases (lookup name targets)) [
        | inl missing ↦ absurd (all.0 missing)
        | inr (target, found) ↦ (
          record {
            model_iterator_data = next_iteration_process it.model_iterator_data pid name;
            iter = rest;
            user_data = operation.map_profile_mapping name path target it.user_data;
          },
          rw (same, found, next_profile_mapping_process) refl,
          record {
            known = Known-next_iteration_process pids it.model_iterator_data pid name ready.known;
            found = all.1;
          },
          omega (arith, size),
        )
      ]

  handle_events_after :
      (event : Event) (events : List Event) (it it' : Iteration S)
      → handle_event targets operation table event it ≡ some it'
      → handle_events targets operation table (event ∷ events) it
        ≡ handle_events targets operation table events it'
  unfolding handle_events
  handle_events_after event events it it' e = rw (e, handle_events) refl

  pub handle_events-returns :
      (events : List Event) (pids : List ℕ) (it : Iteration S)
      → Ready pids it
      → spawns events ≡ length it.iter
      → is_causal pids events ≡ true
      → (it' : Iteration S) × (handle_events targets operation table events it ≡ some it')
  unfolding handle_events handle_event complete_profile_mapping_process complete_iteration_process
  handle_events-returns [] pids it ready n causal = (it, refl)
  handle_events-returns (spawned none ∷ events) pids it ready n causal =
      let (it', ran, ready', size) = Returns-next none pids it (spawns events) ready n in
      let (it'', rest) = handle_events-returns events pids it' ready' size causal in
      (it'', handle_events_after (spawned none) events it it' ran ∙ rest)
  handle_events-returns (spawned (some pid) ∷ events) pids it ready n causal =
      let (it', ran, ready', size) = Returns-next (some pid) pids it (spawns events) ready n in
      let (it'', rest) = handle_events-returns events (pid ∷ pids) it' ready' size causal in
      (it'', handle_events_after (spawned (some pid)) events it it' ran ∙ rest)
  handle_events-returns (completed none status result ∷ events) pids it ready n causal = cc
  handle_events-returns (completed (some pid) status result ∷ events) pids it ready n causal =
      elim (Option-cases (find_item pid it.model_iterator_data.pid_table)) [
        | inl missing ↦ absurd (ground (arith, ready.known pid, missing))
        | inr (name, found) ↦
            let d =
              (complete_iteration_process it.model_iterator_data (some pid) status result).1 in
            let (it', rest) =
              handle_events-returns events pids
                (record it {
                  model_iterator_data = d;
                  user_data =
                      operation.complete_map_profile_mapping name (lookup name table) status result
                        it.user_data;
                })
                (record {
                  known =
                      subst (Known pids)
                        (sym (
                          pid_table-complete_iteration_process it.model_iterator_data (some pid)
                            status result))
                        ready.known;
                  found = ready.found;
                })
                n (ground arith) in
            (
              it',
              handle_events_after (completed (some pid) status result) events it _
                    (rw (found, complete_profile_mapping_process) refl)
                  ∙ rest,
            )
      ]
