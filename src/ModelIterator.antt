-- ===== src/ModelIterator.antt =====
-- src/libmodel/modeliterator.c: the bookkeeping of a batch of processes, one for each item of a model.
-- A pid is `none` for -1, and so is an item for NULL.
use disnix.Prelude.{
  ℕ, suc, ◌==◌, ◌≡◌, subst, Bool, true, false, Option, none, some, List, [], ◌∷◌, ltb, filter, not,
  arith, if◌then◌else◌, Bool-cases, inl, inr, All, All-filter,
}
use disnix.Platform.Posix.{ProcReactStatus, ok}

pub record ModelIteratorData (A : Type 0) : Type 0 where
  pub index : ℕ
  pub length : ℕ
  pub success : Bool
  pub pid_table : List (ℕ × A)

-- A process succeeds if its status is PROCREACT_STATUS_OK and its result is true.
abbrev pub is_success : ProcReactStatus → Bool → Bool
is_success ok result = result
is_success _ _ = false

module _ {A : Type 0} where
  abbrev pub find_item : ℕ → List (ℕ × A) → Option A
  find_item pid [] = none
  find_item pid ((q, item) ∷ rest) = if q == pid then some item else find_item pid rest

  unfoldable pub init_model_iterator_data : ℕ → ModelIteratorData A
  init_model_iterator_data length = record {
    index = 0;
    length = length;
    success = true;
    pid_table = [];
  }

  unfoldable pub has_next_iteration_process : ModelIteratorData A → Bool
  has_next_iteration_process d = ltb d.index d.length

  unfoldable pub next_iteration_process : ModelIteratorData A → Option ℕ → A → ModelIteratorData A
  next_iteration_process d none item = record d { index = suc d.index }
  next_iteration_process d (some pid) item = record d {
    index = suc d.index;
    pid_table = (pid, item) ∷ filter (λ e. not (e.0 == pid)) d.pid_table;
  }

  -- The entry of the pid stays in the table.
  unfoldable pub complete_iteration_process :
      ModelIteratorData A → Option ℕ → ProcReactStatus → Bool → Option A × ModelIteratorData A
  complete_iteration_process d pid status result =
      let item : Option A = elim pid [ none ↦ none | some pid ↦ find_item pid d.pid_table ] in
      let d' = if is_success status result then d else record d { success = false } in (item, d')

  module _ (P : A → Type 0) where
    pub All-find_item :
        (table : List (ℕ × A)) (pid : ℕ) {item : A}
        → All (λ e. P e.1) table
        → find_item pid table ≡ some item
        → P item
    All-find_item [] pid h e = cc
    All-find_item ((q, x) ∷ rest) pid {item} h e = elim (Bool-cases (q == pid)) [
      | inl same ↦ subst P (ground arith) h.0
      | inr other ↦ All-find_item rest pid {item = item} h.1 (ground arith)
    ]

    -- What holds of the items of a batch holds of those in its table.
    pub All-next_iteration_process :
        (d : ModelIteratorData A) (pid : Option ℕ) (item : A)
        → P item
        → All (λ e. P e.1) d.pid_table
        → All (λ e. P e.1) (next_iteration_process d pid item).pid_table
    unfolding next_iteration_process
    All-next_iteration_process d none item h k = k
    All-next_iteration_process d (some pid) item h k =
        (h, All-filter (λ e. P e.1) (λ e. not (e.0 == pid)) d.pid_table k)
