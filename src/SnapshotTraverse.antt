-- ===== src/SnapshotTraverse.antt =====
-- src/libmanifest/snapshotmapping-traverse.c: a process for each mapping of an array, as far as the
-- cores of its target go. A pid is `none` for -1; `none` as a result stands for the dereference of a
-- NULL pointer.
pub mod Transferred
use disnix.Prelude.{
  ℕ, zero, suc, ◌==◌, ◌≡◌, ◌&&◌, not, String, Bool, true, false, Option, none, some, List, [], ◌∷◌,
  ◌++◌, lookup, length, get_elem?, modify, filter, if◌then◌else◌,
}
use disnix.Platform.{Platform, Table}
use disnix.Platform.Posix.{World, Exit, ProcReactStatus, ok}
use disnix.Model.{SnapshotMapping, ManifestService, Target}
use disnix.Parameters.{
  request_available_target_core, signal_available_target_core, MappingParameters,
  create_mapping_parameters,
}
use disnix.Traverse.State.{modify_target, reap}

-- A `map_snapshot_item_function`: the command of the process that it starts.
abbrev pub MapSnapshotItem : Type 0 → Type 0
MapSnapshotItem C = SnapshotMapping → Target → MappingParameters → C

pub record SnapshotState (C : Type 0) : Type 0 where
  pub items : List SnapshotMapping
  pub targets : Table Target
  pub pid_table : List (Option ℕ × ℕ)  -- a pid, and the position of its mapping
  pub children : List ℕ
  pub tick : ℕ
  pub log : List C  -- the commands started, the first one first

abbrev pub same_pid : Option ℕ → Option ℕ → Bool
same_pid none none = true
same_pid (some p) (some q) = p == q
same_pid none (some q) = false
same_pid (some p) none = false

abbrev pub lookup_item : Option ℕ → List (Option ℕ × ℕ) → Option ℕ
lookup_item pid [] = none
lookup_item pid ((q, i) ∷ rest) = if same_pid q pid then some i else lookup_item pid rest

abbrev pub remove_item : Option ℕ → List (Option ℕ × ℕ) → List (Option ℕ × ℕ)
remove_item pid = filter (λ e. not (same_pid e.0 pid))

abbrev pub is_success : ProcReactStatus → Bool → Bool
is_success ok result = result
is_success _ _ = false

abbrev pub mark_transferred : SnapshotMapping → SnapshotMapping
mark_transferred m = record m { transferred = true }

module _ {C : Type 0} (p : Platform) (w : World) (services_table : Table ManifestService)
    (map_snapshot_item : MapSnapshotItem C) where
  -- `fork` in the mapping function, and the entry of its pid, also where that is -1.
  unfoldable pub start_item : ℕ → C → SnapshotState C → SnapshotState C
  start_item i command s =
      let pid = w.fork s.tick s.children in
      let s' = record s { tick = suc s.tick; pid_table = (pid, i) ∷ remove_item pid s.pid_table } in
      elim pid [
        | none ↦ s'
        | some q ↦ record s' { children = q ∷ s.children; log = s.log ++ command ∷ [] }
      ]

  -- The body of the `for` loop.
  unfoldable pub visit_item : ℕ → SnapshotMapping → SnapshotState C → Option (SnapshotState C)
  visit_item i mapping s = elim (lookup mapping.target s.targets) [
    | none ↦ some s
    | some target ↦
        if mapping.transferred
        then some s
        else (let (granted, target') = request_available_target_core target in
            let params =
              create_mapping_parameters p mapping.service mapping.container
                mapping.container_provided_by_service services_table target' in
            if granted
            then elim params [
              | none ↦ none
              | some params ↦ some (
                  start_item i (map_snapshot_item mapping target' params)
                    (record s { targets = modify_target mapping.target (λ _. target') s.targets }))
            ]
            else some s)
  ]

  -- The `for` loop, from a position on.
  unfoldable pub visit_items : ℕ → List SnapshotMapping → SnapshotState C → Option (SnapshotState C)
  visit_items i [] s = some s
  visit_items i (mapping ∷ rest) s = elim (visit_item i mapping s) [
    | none ↦ none
    | some s' ↦ visit_items (suc i) rest s'
  ]

  -- What follows a successful `wait`.
  unfoldable pub complete_item : Exit → SnapshotState C → Option (Bool × SnapshotState C)
  complete_item e s = elim (lookup_item (some e.pid) s.pid_table) [
    | none ↦ none
    | some i ↦ elim (get_elem? s.items i) [
      | none ↦ none
      | some mapping ↦ elim (lookup mapping.target s.targets) [
        | none ↦ none
        | some target ↦ some (
          is_success e.status e.result,
          record s {
            items = modify s.items i mark_transferred;
            pid_table = remove_item (some e.pid) s.pid_table;
            targets = modify_target mapping.target signal_available_target_core s.targets;
          },
        )
      ]
    ]
  ]

  unfoldable pub wait_to_complete_snapshot_item : SnapshotState C → Option (Bool × SnapshotState C)
  wait_to_complete_snapshot_item s = elim s.pid_table [
    | [] ↦ some (true, s)
    | ◌∷◌ _ _ ↦ elim (w.wait s.tick s.children) [
      | none ↦ some (false, record s { tick = suc s.tick })
      | some e ↦ complete_item e (record s { tick = suc s.tick; children = reap e.pid s.children })
    ]
  ]

  -- The `while` loop: as many rounds as there are mappings.
  unfoldable pub process_rounds : ℕ → Bool → SnapshotState C → Option (Bool × SnapshotState C)
  process_rounds zero status s = some (status, s)
  process_rounds (suc rounds) status s = elim (visit_items 0 s.items s) [
    | none ↦ none
    | some s₁ ↦ elim (wait_to_complete_snapshot_item s₁) [
      | none ↦ none
      | some (result, s₂) ↦ process_rounds rounds (status && result) s₂
    ]
  ]

  unfoldable pub map_snapshot_items : SnapshotState C → Option (Bool × SnapshotState C)
  map_snapshot_items s = process_rounds (length s.items) true (record s { pid_table = [] })
