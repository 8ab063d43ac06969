-- ===== src/Lib.antt =====
-- Disnix deploys services to machines over a network. This library models the part of the coordinator
-- that changes a running deployment, and the locks that guard it.
--
-- A manifest maps services to containers on targets. deploy (src/libdeploy/deploy.c) distributes the
-- closures, locks the profiles of all targets, activates the new configuration, migrates the state,
-- sets the profiles and unlocks. The activation is `transition` (src/libdeploy/transition.c): it
-- computes from the old and the new arrays of mappings what to deactivate and what to activate, and
-- runs two traversals of src/libmanifest/servicemapping-traverse.c over the unified array, which start
-- a process for a mapping when those that it waits for are done. When a traversal fails or the user
-- interrupts, it rolls back.
--
-- The files:
--   Prelude, Order: shared names, lists with native numbers, and comparison functions in C's manner.
--   Platform: what comes from outside, as parameters: xmlStrcmp, bsearch, g_ptr_array_sort and
--     libnixxml's environment variables; Platform/Posix: fork, wait and the interrupt flag.
--   Model: the structs of src/libmanifest and src/libinfrastructure/target.h and their comparisons.
--   ServiceMappings: src/libmanifest/servicemappingarray.c. Lookup and Plan compare its operations
--     with linear scans, Unique is about duplicate keys.
--   Parameters: src/libmanifest/mappingparameters.c and the core accounting of
--     src/libinfrastructure/target.c.
--   Traverse: src/libmanifest/servicemapping-traverse.c. State has the state and the steps, Consistency
--     the invariant, Post the form of a triple, Steps, Activation, Deactivation and Rounds the
--     functions from the inside out. Running has the pid table, Live, Progress, Termination,
--     Depth and Height what keeps a traversal going and brings it to an end, Cores and CoreBounds the cores in use.
--   Transition: src/libdeploy/transition.c. Keeps has what its steps keep, Rollback the meaning of each
--     status, Upgrade and Installation the results with and without an old configuration, Termination
--     and Cores what follows from the files of these names under Traverse.
--   ModelIterator: src/libmodel/modeliterator.c. Locking: src/libmanifest/profilemapping-iterator.c and
--     src/libdeploy/locking.c, with Events, Taking and Release; Returns,
--     Log and Commands are about an iteration that comes back and what it starts.
--   Deploy: src/libdeploy/deploy.c and src/libdeploy/activate.c, with Unlocked.
--   Profiles: src/libdeploy/distribute.c and src/libdeploy/set-profiles.c, with Log and Results.
--   ProfileLocking: src/libprofilemanifest/profilelocking.c, with Notifications and Exclusion.
--   Snapshots: src/libmanifest/snapshotmappingarray.c, with Moved. SnapshotTraverse:
--     src/libmanifest/snapshotmapping-traverse.c, with Transferred.
--   Migrate: src/libmigrate, with Commands and Plan.
--   Options: how the programs on the machines read a command line, src/run-activity/main.c and
--     src/dbus-service/disnix-client-main.c, with the defaults of src/libmain/defaultoptions.c.
--   RemoteCommands: the command lines of src/libstatemgmt/remote-state-management.c,
--     src/libstatemgmt/remote-snapshot-management.c and src/libpkgmgmt/remote-package-management.c.
--     Reading and Selection have what both programs make of an option; Activities, SnapshotCommands,
--     SnapshotTransfers and PackageCommands go through the three files.
--   RunActivity: src/run-activity/run-activity.c, with Served.
--   DisnixClient: src/dbus-service/disnix-client.c, with Jobs.
--   ManifestChecks: the checks of src/libmanifest/manifest.c, with References.
--   Tests: a concrete platform, a small deployment, and an example of each result.
--
-- State is passed on explicitly. A pointer to a mapping is its position in the array, NULL is `none`,
-- and a step that dereferences NULL crashes. The kernel is a function of the number of calls so far
-- and of the children that have not been reaped; libprocreact's iterations are lists of its calls.
--
-- Fuel: traverse_inter_dependency_mappings and traverse_interdependent_mappings take fuel for the
-- depth of the dependencies, and traverse_rounds for the rounds of its loop, which the program
-- leaves to the processes. A run without enough fuel is `unfinished`. A depth above the ranks of
-- the services (for an activation, where a service ranks above its dependencies) or their heights
-- (for a deactivation, where it is below them) and more rounds than twice the number of mappings
-- and the signals that interrupt a wait (EINTR, with the handler of src/libmain/interrupt.c) are
-- enough: each round in which something is pending waits for a process or is interrupted. The runs of
-- Tests/Upgrade and Tests/Installation end with a depth of 3 and 5 rounds. All other loops are
-- structural.
--
-- The command line of the coordinator and the program on the machine meet in `argv`: getopt_long is
-- a parameter that keeps to its documentation on the words that the coordinator writes (IsGetopt), and
-- so are `atoi` and "%d" of sprintf.
-- The functions by which the program on the machine runs others are answers of a Machine; D-Bus and
-- the service behind it are answers of a Bus, which says what signals follow a call.
--
-- Not modelled: printing, parsing and freeing, the other command line tools, the D-Bus service, the
-- functions that run Nix and Dysnomia on a machine, and libprocreact and libnixxml, which are copies of
-- other projects.
pub mod Prelude
pub mod Order
pub mod Platform
pub mod Model
pub mod ServiceMappings
pub mod Parameters
pub mod Traverse
pub mod Transition
pub mod ModelIterator
pub mod Locking
pub mod Deploy
pub mod Profiles
pub mod ProfileLocking
pub mod Snapshots
pub mod SnapshotTraverse
pub mod Migrate
pub mod Options
pub mod RemoteCommands
pub mod RunActivity
pub mod DisnixClient
pub mod ManifestChecks
pub mod Tests
