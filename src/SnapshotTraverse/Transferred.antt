-- ===== src/SnapshotTraverse/Transferred.antt =====
-- src/libmanifest/snapshotmapping-traverse.c: mappings that are marked as transferred.
use disnix.Prelude.{
  ℕ, zero, suc, ◌≡◌, refl, true, some, List, [], ◌∷◌, lookup, length, All, Option-cases, inl, inr,
}
use disnix.Platform.{Platform, Table}
use disnix.Platform.Posix.{World}
use disnix.Model.{SnapshotMapping, ManifestService}
use disnix.SnapshotTraverse.{
  MapSnapshotItem, SnapshotState, visit_item, visit_items, wait_to_complete_snapshot_item,
  process_rounds, map_snapshot_items,
}

module _ {C : Type 0} (p : Platform) (w : World) (services_table : Table ManifestService)
    (map_snapshot_item : MapSnapshotItem C) where
  passed_item :
      (i : ℕ) (mapping : SnapshotMapping) (s : SnapshotState C)
      → mapping.transferred ≡ true
      → visit_item p w services_table map_snapshot_item i mapping s ≡ some s
  unfolding visit_item
  passed_item i mapping s e = elim (Option-cases (lookup mapping.target s.targets)) [
    | inl missing ↦ rw (missing, visit_item) refl
    | inr (target, found) ↦ rw (found, visit_item, e) refl
  ]

  passed_items :
      (i : ℕ) (items : List SnapshotMapping) (s : SnapshotState C)
      → All (λ m. m.transferred ≡ true) items
      → visit_items p w services_table map_snapshot_item i items s ≡ some s
  unfolding visit_items
  passed_items i [] s h = refl
  passed_items i (mapping ∷ rest) s h =
      rw (passed_item i mapping s h.0, visit_items) (passed_items (suc i) rest s h.1)

  passed_rounds :
      (rounds : ℕ) (s : SnapshotState C)
      → All (λ m. m.transferred ≡ true) s.items
      → process_rounds p w services_table map_snapshot_item rounds true
          (record s { pid_table = [] })
        ≡ some (true, record s { pid_table = [] })
  unfolding process_rounds wait_to_complete_snapshot_item
  passed_rounds zero s h = refl
  passed_rounds (suc rounds) s h =
      rw (passed_items 0 s.items (record s { pid_table = [] }) h, process_rounds)
        (passed_rounds rounds s h)

  -- If all mappings of the array are marked as transferred, as a traversal leaves them, a traversal
  -- starts no process, changes nothing but its pid table, and reports success.
  pub map_snapshot_items-transferred :
      (s : SnapshotState C)
      → All (λ m. m.transferred ≡ true) s.items
      → map_snapshot_items p w services_table map_snapshot_item s
        ≡ some (true, record s { pid_table = [] })
  unfolding map_snapshot_items
  map_snapshot_items-transferred s h = passed_rounds (length s.items) s h
