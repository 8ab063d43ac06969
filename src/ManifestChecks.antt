-- ===== src/ManifestChecks.antt =====
-- src/libmanifest/manifest.c: the checks on a manifest, with those that it calls of the other files of
-- src/libmanifest and of src/libinfrastructure/target.c. Before the checks any text may be NULL, so the
-- structs have options here; the structs of Model are what has passed.
pub mod References
use disnix.Prelude.{
  ℕ, String, str_eq, Bool, true, false, Option, none, some, List, [], ◌∷◌, ◌≡◌, ◌&&◌, ◌==◌, not,
  lookup, is_some, All, if◌then◌else◌,
}
use disnix.Platform.{Table, Node}
use disnix.Options.State.{ℤ, pos, negsuc}

pub record ParsedMapping : Type 0 where
  pub service : Option String
  pub container : Option String
  pub target : Option String

pub record ParsedService : Type 0 where
  pub name : Option String
  pub pkg : Option String
  pub type : Option String
  pub depends_on : List ParsedMapping
  pub connects_to : List ParsedMapping

pub record ParsedSnapshotMapping : Type 0 where
  pub component : Option String
  pub container : Option String
  pub service : Option String
  pub target : Option String
  pub container_provided_by_service : Option String

pub record ParsedTarget : Type 0 where
  pub properties_table : Table Node
  pub num_of_cores : ℤ
  pub target_property : Option String
  pub client_interface : Option String

pub record ParsedManifest : Type 0 where
  pub correct_version : Bool
  pub profile_mapping_table : Table (Option String)
  pub services_table : Table ParsedService
  pub service_mapping_array : List ParsedMapping
  pub snapshot_mapping_array : List ParsedSnapshotMapping
  pub targets_table : Table ParsedTarget

-- libnixxml's checks of a table of texts, of an array and of a table by a check of an element.
pub record NixXml : Type 1 where
  pub check_property_table : Table (Option String) → Bool
  pub check_array : (A : Type 0) → (A → Bool) → List A → Bool
  pub check_table : (A : Type 0) → (A → Bool) → Table A → Bool

-- A check of an array or a table succeeds only if that of each element does.
pub record IsNixXml (x : NixXml) : Type 1 where
  pub array_all :
      (A : Type 0) (check : A → Bool) (l : List A)
      → x.check_array A check l ≡ true
      → All (λ a. check a ≡ true) l
  pub table_all :
      (A : Type 0) (check : A → Bool) (table : Table A)
      → x.check_table A check table ≡ true
      → All (λ e. check e.1 ≡ true) table

-- A pointer as a key of a table: `NULL` is in none.
abbrev pub contains : {A : Type 0} → Table A → Option String → Bool
contains table none = false
contains table (some name) = is_some (lookup name table)

-- The chain of tests, which stops at the first NULL.
unfoldable pub check_interdependency_mapping : ParsedMapping → Bool
check_interdependency_mapping mapping =
    is_some mapping.service && is_some mapping.container && is_some mapping.target

unfoldable pub check_service_mapping : ParsedMapping → Bool
check_service_mapping mapping = check_interdependency_mapping mapping

unfoldable pub check_snapshot_mapping : ParsedSnapshotMapping → Bool
check_snapshot_mapping mapping =
    is_some mapping.component
    && is_some mapping.container
    && is_some mapping.service
    && is_some mapping.target

abbrev pub is_zero : ℤ → Bool
is_zero (pos n) = n == 0
is_zero (negsuc n) = false

unfoldable pub check_target : ParsedTarget → Bool
check_target target =
    not (is_zero target.num_of_cores)
    && is_some target.target_property
    && is_some target.client_interface
    && contains target.properties_table target.target_property

module _ (x : NixXml) where
  unfoldable pub check_manifest_service : ParsedService → Bool
  check_manifest_service service =
      is_some service.name
      && is_some service.pkg
      && is_some service.type
      && x.check_array ParsedMapping check_interdependency_mapping service.depends_on
      && x.check_array ParsedMapping check_interdependency_mapping service.connects_to

  unfoldable pub check_service_mapping_array_references :
      Table ParsedService → Table ParsedTarget → List ParsedMapping → Bool
  check_service_mapping_array_references services targets [] = true
  check_service_mapping_array_references services targets (mapping ∷ rest) =
      contains services mapping.service
      && contains targets mapping.target
      && check_service_mapping_array_references services targets rest

  unfoldable pub check_snapshot_mapping_array_references :
      Table ParsedService → Table ParsedTarget → List ParsedSnapshotMapping → Bool
  check_snapshot_mapping_array_references services targets [] = true
  check_snapshot_mapping_array_references services targets (mapping ∷ rest) =
      contains services mapping.service
      && contains targets mapping.target
      && check_snapshot_mapping_array_references services targets rest

  -- The checks of the properties; the references are checked only if they succeed.
  unfoldable pub check_manifest : ParsedManifest → Bool
  check_manifest manifest =
      if manifest.correct_version
        && x.check_property_table manifest.profile_mapping_table
        && x.check_table ParsedService check_manifest_service manifest.services_table
        && x.check_array ParsedMapping check_service_mapping manifest.service_mapping_array
        && x.check_array ParsedSnapshotMapping check_snapshot_mapping
            manifest.snapshot_mapping_array
        && x.check_table ParsedTarget check_target manifest.targets_table
      then check_service_mapping_array_references manifest.services_table manifest.targets_table
          manifest.service_mapping_array
        && check_snapshot_mapping_array_references manifest.services_table manifest.targets_table
            manifest.snapshot_mapping_array
      else false

-- Of a container that a service provides, the service must be in the new configuration.
abbrev pub is_provided : Table ParsedService → ParsedSnapshotMapping → Bool
is_provided services mapping = elim mapping.container_provided_by_service [
  | none ↦ true
  | some name ↦ is_some (lookup name services)
]

abbrev pub all_provided : Table ParsedService → List ParsedSnapshotMapping → Bool
all_provided services [] = true
all_provided services (mapping ∷ rest) = is_provided services mapping && all_provided services rest

unfoldable pub check_safe_data_migration : Option ParsedManifest → ParsedManifest → Bool → Bool
check_safe_data_migration none new no_migration = true
check_safe_data_migration (some old) new no_migration =
    if no_migration then true else all_provided new.services_table old.snapshot_mapping_array
