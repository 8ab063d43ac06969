-- ===== src/Tests/Served.antt =====
-- A machine that serves the coordinator, and a manifest that is checked.
use disnix.Prelude.{
  ◌≡◌, ◌↔◌, refl, Bool, true, false, none, some, String, List, [], ◌∷◌, ◌&&◌, is_some, lookup, All,
  arith,
}
use disnix.Platform.{string}
use disnix.Options.Codes.{op_shell}
use disnix.Options.State.{pos, negsuc, initial_settings}
use disnix.RemoteCommands.{
  statemgmt_remote_activate, statemgmt_remote_deactivate, statemgmt_remote_snapshot,
  statemgmt_remote_restore, statemgmt_remote_delete_state,
}
use disnix.RunActivity.{
  statemgmt_activate, statemgmt_deactivate, statemgmt_collect_garbage, statemgmt_snapshot,
  statemgmt_restore, Machine, wait_for, run_disnix_activity,
}
use disnix.RunActivity.Served.{
  IsGuarded, serve, serve-exec_dysnomia_activity, run_disnix_activity-refused,
  run_disnix_activity-return_tempfile,
}
use disnix.Options.Codes.{op_export, op_capture_config}
use disnix.ManifestChecks.{
  ParsedManifest, NixXml, IsNixXml, check_interdependency_mapping, check_service_mapping,
  check_snapshot_mapping, check_target, check_manifest_service,
  check_service_mapping_array_references, check_snapshot_mapping_array_references, check_manifest,
  check_safe_data_migration,
}
use disnix.ManifestChecks.References.{
  IsKey, IsUsable, check_manifest-references, check_safe_data_migration_lem,
}
use disnix.Tests.CommandLines.{unset, atoi, arguments}
use disnix.Tests.Getopt.{getopt, getopt-IsGetopt}

-- Nothing succeeds on it.
abbrev machine : Machine
machine = record {
  environment = unset;
  exit_status = λ call. 1;
  future_get = λ call. none;
  wait_for_boolean = λ call. false;
  tempfilename = λ call. "/tmp/x";
  fchmod = λ name. negsuc 0;
  profile_manifest = λ profile. none;
  succeeds = λ call. false;
}

serve-exec_dysnomia_activity_example :
    (serve machine getopt getopt-IsGetopt atoi
        (statemgmt_remote_activate "ssh" "host" "web" "process" arguments "/nix/store/shop")
      ≡ wait_for machine
          (statemgmt_activate (some "process") (some "/nix/store/shop") "web" arguments))
    × (serve machine getopt getopt-IsGetopt atoi
          (statemgmt_remote_deactivate "ssh" "host" "web" "process" arguments "/nix/store/shop")
        ≡ wait_for machine
            (statemgmt_deactivate (some "process") (some "/nix/store/shop") "web" arguments))
    × (serve machine getopt getopt-IsGetopt atoi
          (statemgmt_remote_snapshot "ssh" "host" "web" "process" arguments "/nix/store/shop")
        ≡ wait_for machine
            (statemgmt_snapshot (some "process") (some "/nix/store/shop") "web" arguments))
    × (serve machine getopt getopt-IsGetopt atoi
          (statemgmt_remote_restore "ssh" "host" "web" "process" arguments "/nix/store/shop")
        ≡ wait_for machine
            (statemgmt_restore (some "process") (some "/nix/store/shop") "web" arguments))
    × (serve machine getopt getopt-IsGetopt atoi
          (statemgmt_remote_delete_state "ssh" "host" "web" "process" arguments "/nix/store/shop")
        ≡ wait_for machine
            (statemgmt_collect_garbage (some "process") (some "/nix/store/shop") "web" arguments))
serve-exec_dysnomia_activity_example =
    serve-exec_dysnomia_activity machine getopt getopt-IsGetopt atoi "ssh" "host" "web" "process"
      arguments "/nix/store/shop" refl

run_disnix_activity-refused_example :
    IsGuarded none
      ("/nix/store/shop" ∷ [])
      (run_disnix_activity machine op_shell initial_settings "default" ("/nix/store/shop" ∷ []))
run_disnix_activity-refused_example =
    run_disnix_activity-refused machine op_shell initial_settings "default" ("/nix/store/shop" ∷ [])
      refl

-- Its process succeeds, and so does fchmod.
abbrev writer : Machine
writer = record machine { wait_for_boolean = λ call. true; fchmod = λ name. pos 0 }

run_disnix_activity-return_tempfile_example :
    ((run_disnix_activity writer op_export initial_settings "default" []).exit_status ≡ 0)
    × ((run_disnix_activity writer op_export initial_settings "default" []).output ≡ "/tmp/x" ∷ [])
    × ((run_disnix_activity writer op_capture_config initial_settings "default" []).exit_status ≡ 0)
    × ((run_disnix_activity writer op_capture_config initial_settings "default" []).output
        ≡ "/tmp/x" ∷ [])
run_disnix_activity-return_tempfile_example =
    run_disnix_activity-return_tempfile writer initial_settings "default" []

abbrev all : {A : Type 0} → (A → Bool) → List A → Bool
all check [] = true
all check (a ∷ rest) = check a && all check rest

all-All :
    {A : Type 0} (check : A → Bool) (l : List A) → all check l ≡ true → All (λ a. check a ≡ true) l
all-All check [] h = tt
all-All check (a ∷ rest) h = (ground (arith, h), all-All check rest (ground (arith, h)))

abbrev nix_xml : NixXml
nix_xml = record {
  check_property_table = λ table. all (λ e. is_some e.1) table;
  check_array = λ A check l. all check l;
  check_table = λ A check table. all (λ e. check e.1) table;
}

nix_xml-IsNixXml : IsNixXml nix_xml
nix_xml-IsNixXml = record {
  array_all = λ A check l h. all-All check l h;
  table_all = λ A check table h. all-All (λ e. check e.1) table h;
}

abbrev parsed : ParsedManifest
parsed = record {
  correct_version = true;
  profile_mapping_table = ("a", some "p1") ∷ [];
  services_table =
      (
        "s1",
        record {
          name = some "db";
          pkg = some "db";
          type = some "mysql";
          depends_on = [];
          connects_to = [];
        },
      )
      ∷ [];
  service_mapping_array =
      record { service = some "s1"; container = some "mysql"; target = some "a" } ∷ [];
  snapshot_mapping_array =
      record {
        component = some "db";
        container = some "mysql";
        service = some "s1";
        target = some "a";
        container_provided_by_service = some "s1";
      }
      ∷ [];
  targets_table =
      (
        "a",
        record {
          properties_table = ("hostname", string "h") ∷ [];
          num_of_cores = pos 1;
          target_property = some "hostname";
          client_interface = some "ssh";
        },
      )
      ∷ [];
}

parsed_passes : check_manifest nix_xml parsed ≡ true
unfolding check_manifest check_manifest_service check_interdependency_mapping check_service_mapping
    check_snapshot_mapping check_target check_service_mapping_array_references
    check_snapshot_mapping_array_references
parsed_passes = refl

check_manifest-references_example :
    All
      (λ m. IsKey parsed.services_table m.service × IsKey parsed.targets_table m.target)
      parsed.service_mapping_array
    × All
        (λ m. IsKey parsed.services_table m.service × IsKey parsed.targets_table m.target)
        parsed.snapshot_mapping_array
    × All (λ e. IsUsable e.1) parsed.targets_table
check_manifest-references_example =
    check_manifest-references nix_xml nix_xml-IsNixXml parsed parsed_passes

check_safe_data_migration_example :
    (check_safe_data_migration (some parsed) parsed false ≡ true)
    ↔ All
        (λ m.
          (name : String)
          → m.container_provided_by_service ≡ some name
          → is_some (lookup name parsed.services_table) ≡ true)
        parsed.snapshot_mapping_array
check_safe_data_migration_example = check_safe_data_migration_lem parsed parsed
