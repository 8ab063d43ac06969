-- ===== src/ManifestChecks/References.antt =====
-- src/libmanifest/manifest.c: what a manifest that has passed its checks can be relied on for.
use disnix.Prelude.{
  String, true, false, Option, none, some, List, [], ◌∷◌, ◌≡◌, ◌≢◌, refl, ap, ◌↔◌, lookup, is_some,
  All, All-weaken, arith,
}
use disnix.Platform.{Table}
use disnix.Options.State.{pos}
use disnix.ManifestChecks.{
  ParsedMapping, ParsedService, ParsedSnapshotMapping, ParsedTarget, ParsedManifest, NixXml,
  IsNixXml, contains, check_service_mapping_array_references,
  check_snapshot_mapping_array_references, is_zero, check_target, check_manifest, is_provided,
  all_provided, check_safe_data_migration,
}

-- A pointer that is a key of a table.
abbrev pub IsKey : {A : Type 0} → Table A → Option String → Type 0
IsKey {A} table pointer =
    (name : String) × (a : A) × (pointer ≡ some name) × (lookup name table ≡ some a)

contains-IsKey :
    {A : Type 0} (table : Table A) (pointer : Option String)
    → contains table pointer ≡ true
    → IsKey table pointer
contains-IsKey table none h = cc
contains-IsKey {A} table (some name) h = go (lookup name table) refl h
  where
    go :
        (found : Option A)
        → lookup name table ≡ found
        → is_some found ≡ true
        → IsKey table (some name)
    go none e h = cc
    go (some a) e h = (name, a, refl, e)

service_references :
    (x : NixXml) (services : Table ParsedService) (targets : Table ParsedTarget)
    (arr : List ParsedMapping)
    → check_service_mapping_array_references x services targets arr ≡ true
    → All (λ m. IsKey services m.service × IsKey targets m.target) arr
unfolding check_service_mapping_array_references
service_references x services targets [] h = tt
service_references x services targets (m ∷ arr) h = (
  (
    contains-IsKey services m.service (ground (arith, h)),
    contains-IsKey targets m.target (ground (arith, h)),
  ),
  service_references x services targets arr (ground (arith, h)),
)

snapshot_references :
    (x : NixXml) (services : Table ParsedService) (targets : Table ParsedTarget)
    (arr : List ParsedSnapshotMapping)
    → check_snapshot_mapping_array_references x services targets arr ≡ true
    → All (λ m. IsKey services m.service × IsKey targets m.target) arr
unfolding check_snapshot_mapping_array_references
snapshot_references x services targets [] h = tt
snapshot_references x services targets (m ∷ arr) h = (
  (
    contains-IsKey services m.service (ground (arith, h)),
    contains-IsKey targets m.target (ground (arith, h)),
  ),
  snapshot_references x services targets arr (ground (arith, h)),
)

-- A target with a number of cores, an interface, and a key among its properties.
abbrev pub IsUsable : ParsedTarget → Type 0
IsUsable target =
    (target.num_of_cores ≢ pos 0)
    × (is_some target.client_interface ≡ true)
    × IsKey target.properties_table target.target_property

check_target-IsUsable : (target : ParsedTarget) → check_target target ≡ true → IsUsable target
unfolding check_target
check_target-IsUsable target h = (
  λ e. ground (arith, h, ap is_zero e),
  ground (arith, h),
  contains-IsKey target.properties_table target.target_property (ground (arith, h)),
)

-- Of a manifest that passes check_manifest, with libnixxml's checks testing each element: each
-- service mapping and each snapshot mapping names a service of the services table and a target of
-- the targets table, and each target has a number of cores other than zero, a client interface, and
-- its target property among its properties.
pub check_manifest-references :
    (x : NixXml)
    → IsNixXml x
    → (manifest : ParsedManifest) → check_manifest x manifest ≡ true
    → All
        (λ m. IsKey manifest.services_table m.service × IsKey manifest.targets_table m.target)
        manifest.service_mapping_array
      × All
          (λ m. IsKey manifest.services_table m.service × IsKey manifest.targets_table m.target)
          manifest.snapshot_mapping_array
      × All (λ e. IsUsable e.1) manifest.targets_table
unfolding check_manifest
check_manifest-references x laws manifest h = (
  service_references x manifest.services_table manifest.targets_table manifest.service_mapping_array
      (ground (arith, h)),
  snapshot_references x manifest.services_table manifest.targets_table
      manifest.snapshot_mapping_array (ground (arith, h)),
  All-weaken _ _ (λ e passed. check_target-IsUsable e.1 passed) manifest.targets_table
      (laws.table_all ParsedTarget check_target manifest.targets_table (ground (arith, h))),
)

all_provided_iff :
    (services : Table ParsedService) (arr : List ParsedSnapshotMapping)
    → (all_provided services arr ≡ true) ↔ All (λ m. is_provided services m ≡ true) arr
all_provided_iff services [] = (λ h. tt, λ h. refl)
all_provided_iff services (m ∷ arr) =
    let rest = all_provided_iff services arr in
    (λ h. (ground (arith, h), rest.0 (ground (arith, h))), λ h. ground (arith, h.0, rest.1 h.1))

-- A change of configuration passes check_safe_data_migration, migrations not being switched off,
-- exactly if each snapshot mapping of the old manifest whose container a service provides has that
-- service in the new manifest.
pub check_safe_data_migration_lem :
    (old new : ParsedManifest)
    → (check_safe_data_migration (some old) new false ≡ true)
      ↔ All
          (λ m.
            (name : String)
            → m.container_provided_by_service ≡ some name
            → is_some (lookup name new.services_table) ≡ true)
          old.snapshot_mapping_array
unfolding check_safe_data_migration
check_safe_data_migration_lem old new =
    let services = new.services_table in
    let arr = old.snapshot_mapping_array in
    (
      λ h.
          All-weaken _ _ (λ m provided name e. ground (arith, provided, e)) arr
            ((all_provided_iff services arr).0 h),
      λ h. (all_provided_iff services arr).1 (All-weaken _ _ (λ m named. provided m named) arr h),
    )
  where
    provided :
        (m : ParsedSnapshotMapping)
        → ((name : String)
            → m.container_provided_by_service ≡ some name
            → is_some (lookup name new.services_table) ≡ true)
        → is_provided new.services_table m ≡ true
    provided m named = go m.container_provided_by_service named
      where
        go :
            (o : Option String)
            → ((name : String) → o ≡ some name → is_some (lookup name new.services_table) ≡ true)
            → elim o [ none ↦ true | some name ↦ is_some (lookup name new.services_table) ] ≡ true
        go none h = refl
        go (some name) h = h name refl
