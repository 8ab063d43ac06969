-- ===== src/Model.antt =====
-- The structs of src/libmanifest/{interdependencymapping, servicemapping, snapshotmapping,
-- manifestservice, manifest}.h and src/libinfrastructure/target.h. Fields that check_manifest has
-- tested against NULL are texts; those that may be NULL are options.
pub mod Keys
pub mod Search
use disnix.Prelude.{ℕ, String, Bool, Option, List, Ordering}
use disnix.Order.{or_else}
use disnix.Platform.{Platform, Table, Node}

pub record InterDependencyMapping : Type 0 where
  pub service : String
  pub container : String
  pub target : String

pub data ServiceMappingStatus : Type 0 where
  deactivated in_progress activated error : ServiceMappingStatus

pub record ServiceMapping : Type 0 where
  pub service : String
  pub container : String
  pub target : String
  pub container_provided_by_service : Option String
  pub status : ServiceMappingStatus

pub record SnapshotMappingKey : Type 0 where
  pub component : String
  pub container : String
  pub target : String

pub record SnapshotMapping : Type 0 where
  pub component : String
  pub container : String
  pub target : String
  pub service : String
  pub container_provided_by_service : Option String
  pub transferred : Bool

pub record ManifestService : Type 0 where
  pub name : String
  pub pkg : String
  pub type : String
  pub depends_on : List InterDependencyMapping
  pub connects_to : List InterDependencyMapping
  pub provides_containers_table : Table (Table Node)

-- The core counts are natural numbers: a request stops at 0, and a configuration with a negative
-- number of cores, which check_target lets pass, is left aside.
pub record Target : Type 0 where
  pub properties_table : Table Node
  pub containers_table : Table (Table Node)
  pub system : Option String
  pub client_interface : String
  pub target_property : String
  pub num_of_cores : ℕ
  pub available_cores : ℕ

pub record Manifest : Type 0 where
  pub profile_mapping_table : Table String
  pub services_table : Table ManifestService
  pub service_mapping_array : List ServiceMapping
  pub snapshot_mapping_array : List SnapshotMapping
  pub targets_table : Table Target

-- The cast of a `ServiceMapping*` to an `InterDependencyMapping*`: the structs begin alike.
abbrev pub as_dependency : ServiceMapping → InterDependencyMapping
as_dependency m = record { service = m.service; container = m.container; target = m.target }

-- The cast of a `SnapshotMapping*` to a `SnapshotMappingKey*`.
abbrev pub as_key : SnapshotMapping → SnapshotMappingKey
as_key m = record { component = m.component; container = m.container; target = m.target }

module _ (p : Platform) where
  unfoldable pub compare_interdependency_mappings :
      InterDependencyMapping → InterDependencyMapping → Ordering
  compare_interdependency_mappings left right = or_else (p.xml_strcmp left.target right.target) (
      or_else (p.xml_strcmp left.container right.container)
        (p.xml_strcmp left.service right.service))

  unfoldable pub compare_service_mappings : ServiceMapping → ServiceMapping → Ordering
  compare_service_mappings l r =
      compare_interdependency_mappings (as_dependency l) (as_dependency r)

  unfoldable pub compare_snapshot_mapping_keys : SnapshotMappingKey → SnapshotMappingKey → Ordering
  compare_snapshot_mapping_keys left right = or_else (p.xml_strcmp left.target right.target) (
      or_else (p.xml_strcmp left.container right.container)
        (p.xml_strcmp left.component right.component))

  unfoldable pub compare_snapshot_mapping : SnapshotMapping → SnapshotMapping → Ordering
  compare_snapshot_mapping l r = compare_snapshot_mapping_keys (as_key l) (as_key r)
