-- ===== src/Locking/Release.antt =====
-- src/libdeploy/locking.c: which targets hold a lock after `lock` and after `unlock`.
use disnix.Prelude.{
  suc, ◌≡◌, sym, ap, subst, ◌∙◌, ◌&&◌, ◌||◌, String, Bool, true, some, [], not, arith, Option-cases,
  Bool-cases, inl, inr,
}
use disnix.Platform.{Table}
use disnix.Model.{Target}
use disnix.ModelIterator.{init_model_iterator_data}
use disnix.Locking.{
  ProfileOperation, Iteration, started, Driver, IsDriver, LockingState, handle_events,
  create_profile_mapping_iterator, unlock_operation, lock_operation, run_iteration, unlock, lock,
}
use disnix.Locking.Events.{is_in, has_entry, unlock_events}
use disnix.Locking.Log.{some_inj}
use disnix.Locking.Taking.{LockInvariant, LockInvariant-events}

-- What an iteration that returns has been.
run_iteration-handle_events :
    (x : Driver) (targets : Table Target) (operation : ProfileOperation LockingState)
    (table : Table String) (s s' : LockingState) (success : Bool)
    → run_iteration x targets operation table s ≡ some (success, s')
    → (it : Iteration LockingState) × (handle_events targets operation table
          (x.fork_in_parallel_and_wait s.calls table)
          (create_profile_mapping_iterator targets operation table
            (record s { calls = suc s.calls }))
        ≡ some it)
      × (it.user_data ≡ s')
unfolding run_iteration
run_iteration-handle_events x targets operation table s s' success e =
    elim (Option-cases (
      handle_events targets operation table (x.fork_in_parallel_and_wait s.calls table) (
        create_profile_mapping_iterator targets operation table
          (record s { calls = suc s.calls })))) [
            | inl stopped ↦ absurd (ground (arith, rw (stopped, run_iteration) at e))
            | inr (it, ran) ↦ elim (Option-cases (started it.user_data.commands)) [
              | inl crashed ↦ absurd (ground (arith, rw (ran, crashed, run_iteration) at e))
              | inr (commands, all) ↦
                  let same : some (it.model_iterator_data.success, it.user_data)
                      ≡ some (success, s') =
                    rw (ran, all, run_iteration) at e in
                  (it, ran, ap (λ (r : Bool × LockingState). r.1) (some_inj same))
            ]
          ]

module _ {x : Driver} (laws : IsDriver x) (targets : Table Target) where
  -- After an `unlock` that returns, the targets to release are those of before that are not in its
  -- table.
  pub unlock-to_release :
      (table : Table String) (s s' : LockingState) (success : Bool) (name : String)
      → unlock x targets table s ≡ some (success, s')
      → is_in name s'.to_release ≡ (is_in name s.to_release && not (has_entry name table))
  unfolding unlock create_profile_mapping_iterator
  unlock-to_release table s s' success name e =
      let (it', ran, ended) =
        run_iteration-handle_events x targets unlock_operation table s s' success e in
      ap (λ (s : LockingState). is_in name s.to_release) (sym ended)
      ∙ unlock_events targets table (x.fork_in_parallel_and_wait s.calls table) _ it' name ran
          (laws.complete_spawns s.calls table)

  -- The iteration of `lock` before its failure is handled.
  run_lock :
      (table : Table String) (s s' : LockingState) (success : Bool)
      → run_iteration x targets lock_operation table (record s { lock_table = [] })
        ≡ some (success, s')
      → LockInvariant table s.to_release s'
  unfolding create_profile_mapping_iterator init_model_iterator_data
  run_lock table s s' success e =
      let (it', ran, ended) =
        run_iteration-handle_events x targets lock_operation table (record s { lock_table = [] }) s'
          success e in
      subst (LockInvariant table s.to_release) ended (
        LockInvariant-events table s.to_release targets (x.fork_in_parallel_and_wait s.calls table)
          _ it' ran tt (λ name h. h)
          (record { accounted = λ name h. ground arith; own = λ name h. absurd (ground arith) }))

  -- If libprocreact calls `next` once for each entry: after a `lock` that returns, a target that
  -- has confirmed a lock and has not been told to unlock since was such before, or `lock` has
  -- returned TRUE and the target is in its table. Whether a target that is told to unlock does so
  -- is left open.
  pub lock-to_release :
      (table : Table String) (s s' : LockingState) (success : Bool) (name : String)
      → lock x targets table s ≡ some (success, s')
      → is_in name s'.to_release ≡ true
      → (is_in name s.to_release || success && has_entry name table) ≡ true
  unfolding lock
  lock-to_release table s s' success name e held =
      elim (Option-cases
        (run_iteration x targets lock_operation table (record s { lock_table = [] }))) [
          | inl stopped ↦ absurd (ground arith)
          | inr ((b, s₁), ran) ↦
              let inv = run_lock table s s₁ b ran in
              elim (Bool-cases (b && not (x.interrupted s₁.calls))) [
                | inl kept ↦
                    let same : s₁ ≡ s' = ground arith in
                    let held' : is_in name s₁.to_release ≡ true =
                      subst (λ (s : LockingState). is_in name s.to_release ≡ true) (sym same)
                        held in
                    ground (arith, inv.accounted name held', inv.own name)
                | inr failed ↦ elim (Option-cases (unlock x targets s₁.lock_table s₁)) [
                  | inl stopped ↦ absurd (ground arith)
                  | inr ((b', s₂), undone) ↦
                      let same : s₂ ≡ s' = ground arith in
                      let held' : is_in name s₂.to_release ≡ true =
                        subst (λ (s : LockingState). is_in name s.to_release ≡ true) (sym same)
                          held in
                      ground (
                        arith,
                        unlock-to_release s₁.lock_table s₁ s₂ b' name undone,
                        inv.accounted name,
                      )
                ]
              ]
        ]
