-- ===== src/Tests/Moves.antt =====
-- State that is moved between the machines of the example deployment.
use disnix.Prelude.{◌≡◌, refl, true, false, none, some, List, [], ◌∷◌}
use disnix.Platform.Posix.{ok, abnormal_termination}
use disnix.Model.{SnapshotMapping}
use disnix.Migrate.{SnapshotCommand, retrieve, Executor}
use disnix.Migrate.Plan.{Answer, restore_services}
use disnix.Transition.{Flags}
use disnix.SnapshotTraverse.{SnapshotState, map_snapshot_items}
use disnix.SnapshotTraverse.Transferred.{map_snapshot_items-transferred}
use disnix.Tests.Machine.{platform, calm}
use disnix.Tests.Upgrade.{new_manifest, machines, no_flags}

-- The second command of a child fails.
abbrev second_fails : Executor
second_fails [] command = (ok, true)
second_fails (_ ∷ _) command = (abnormal_termination, true)

abbrev three : List SnapshotCommand
three =
    retrieve (some "h") "mysql" "x" false
    ∷ retrieve (some "h") "mysql" "y" false
    ∷ retrieve (some "h") "mysql" "z" false
    ∷ []

-- The restoring of the services fails.
abbrev restoring_fails : Answer
restoring_fails log (restore_services arr services) = false
restoring_fails log other = true

abbrev flags : Flags
flags = record no_flags { delete_state = true }

abbrev moved : SnapshotMapping
moved = record {
  component = "db";
  container = "mysql";
  target = "a";
  service = "s1";
  container_provided_by_service = none;
  transferred = true;
}

abbrev traversed : SnapshotState SnapshotCommand
traversed = record {
  items = moved ∷ [];
  targets = machines;
  pid_table = [];
  children = [];
  tick = 2;
  log = [];
}

map_snapshot_items-transferred_example :
    map_snapshot_items platform calm new_manifest.services_table
      (λ m target params. retrieve none m.container m.component false)
      traversed
    ≡ some (true, traversed)
map_snapshot_items-transferred_example =
    map_snapshot_items-transferred platform calm new_manifest.services_table
      (λ m target params. retrieve none m.container m.component false) traversed (refl, tt)
