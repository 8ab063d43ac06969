-- ===== src/Locking/Taking.antt =====
-- src/libdeploy/locking.c: what a lock iteration holds, and what stands in its lock table.
use disnix.Prelude.{
  ◌≡◌, sym, ap, subst, ◌∙◌, ◌||◌, String, eq_iff, Bool, true, false, Option, none, some, List, [],
  ◌∷◌, lookup, arith, All,
}
use disnix.Platform.{Table}
use disnix.Model.{Target}
use disnix.ModelIterator.{is_success, All-find_item, All-next_iteration_process}
use disnix.Locking.{
  Event, spawned, completed, LockingState, Iteration, handle_event, handle_events, lock_operation,
  insert_lock,
}
use disnix.Locking.Events.{is_in, has_entry, Next-intro, Completed-intro, handle_events_cons}

-- Nothing new is to be released but what stands in the lock table, and the lock table has only entries of the
-- table that is iterated over.
pub record LockInvariant (table : Table String) (before : List String) (s : LockingState)
    : Type 0 where
  pub accounted :
      (name : String)
      → is_in name s.to_release ≡ true
      → (is_in name before || has_entry name s.lock_table) ≡ true
  pub own : (name : String) → has_entry name s.lock_table ≡ true → has_entry name table ≡ true

module _ (table : Table String) (before : List String) where
  LockInvariant-insert :
      (success : Bool) (name : String) (path : Option String) (s : LockingState)
      → has_entry name table ≡ true
      → LockInvariant table before s
      → LockInvariant table before (insert_lock success name path s)
  LockInvariant-insert true name (some path) s listed h = record {
    accounted = λ n e. ground (arith, h.accounted n);
    own = λ n e. ground (arith, h.own n, eq_iff n name, listed);
  }
  LockInvariant-insert true name none s listed h = record {
    accounted = λ n e. ground (arith, h.accounted n);
    own = λ n e. ground (arith, h.own n, eq_iff n name, listed);
  }
  LockInvariant-insert false name path s listed h = h

  module _ (targets : Table Target) where
    pub LockInvariant-events :
        (events : List Event) (it it' : Iteration LockingState)
        → handle_events targets lock_operation table events it ≡ some it'
        → All (λ e. has_entry e.1 table ≡ true) it.model_iterator_data.pid_table
        → ((name : String) → has_entry name it.iter ≡ true → has_entry name table ≡ true)
        → LockInvariant table before it.user_data
        → LockInvariant table before it'.user_data
    unfolding handle_events handle_event
    LockInvariant-events [] it it' e known remaining h =
        let same : it ≡ it' = cc in
        subst (λ (x : Iteration LockingState). LockInvariant table before x.user_data) same h
    LockInvariant-events (spawned pid ∷ events) it it' e known remaining h =
        let (between, ran, others) =
          handle_events_cons targets lock_operation table (spawned pid) events it it' e in
        let next = Next-intro targets lock_operation table pid it between ran in
        let listed : has_entry next.name table ≡ true =
          remaining next.name
            (ap (has_entry next.name) next.entries ∙ ground (arith, eq_iff next.name next.name)) in
        LockInvariant-events events between it' others
          (subst (λ d. All (λ e. has_entry e.1 table ≡ true) d.pid_table) (sym next.recorded)
            (All-next_iteration_process (λ name. has_entry name table ≡ true) it.model_iterator_data
              pid next.name listed known))
          (λ name listed'. remaining name (
            ap (has_entry name) next.entries
            ∙ ground (arith, ap (has_entry name) next.left, listed')))
          (subst (LockInvariant table before) (sym next.mapped)
            (record { accounted = h.accounted; own = h.own }))
    LockInvariant-events (completed pid status result ∷ events) it it' e known remaining h =
        let (between, ran, others) =
          handle_events_cons targets lock_operation table (completed pid status result) events it
            it' e in
        let done = Completed-intro targets lock_operation table pid status result it between ran in
        let listed : has_entry done.name table ≡ true =
          All-find_item (λ name. has_entry name table ≡ true) it.model_iterator_data.pid_table
            done.process {item = done.name} known done.known in
        LockInvariant-events events between it' others
          (subst (All (λ e. has_entry e.1 table ≡ true)) (sym done.same_table) known)
          (λ name listed'. remaining name (ap (has_entry name) (sym done.left) ∙ listed'))
          (subst (LockInvariant table before) (sym done.handled) (
            LockInvariant-insert (is_success status result) done.name (lookup done.name table)
              it.user_data listed h))
