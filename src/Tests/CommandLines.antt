-- ===== src/Tests/CommandLines.antt =====
-- Command lines of the coordinator, read by the programs on the machines.
use Prim.Native.String.{len, ◌++◌ as concat}
use text.Mathlib.TextPositions.{len-append}
use disnix.Prelude.{
  ℕ, zero, suc, ◌≡◌, refl, ap, ◌∙◌, true, none, some, String, List, [], ◌∷◌, arith,
}
use disnix.Options.Codes.{
  op_activate, op_deactivate, op_snapshot, op_restore, op_delete_state, op_lock, op_unlock,
  op_query_all_snapshots, op_query_latest_snapshot, op_print_missing_snapshots,
  op_resolve_snapshots, op_clean_snapshots, op_set, op_query_installed, op_realise,
  op_query_requisites, op_print_invalid, op_import, op_export, op_collect_garbage,
}
use disnix.Options.State.{ℤ, pos, negsuc, Settings, initial_settings, run, misuse}
use disnix.Options.Defaults.{Environment, check_profile_option}
use disnix.Options.{run_activity, disnix_client, main}
use disnix.RemoteCommands.{
  statemgmt_remote_activate, statemgmt_remote_deactivate, statemgmt_remote_snapshot,
  statemgmt_remote_restore, statemgmt_remote_delete_state, statemgmt_remote_lock,
  statemgmt_remote_unlock, statemgmt_remote_clean_snapshots, statemgmt_remote_query_all_snapshots,
  statemgmt_remote_query_latest_snapshot, statemgmt_remote_print_missing_snapshots,
  statemgmt_remote_resolve_snapshots, statemgmt_import_local_snapshots,
  statemgmt_import_remote_snapshots, statemgmt_export_remote_snapshots,
  pkgmgmt_remote_collect_garbage, pkgmgmt_remote_set, pkgmgmt_remote_query_installed,
  pkgmgmt_remote_realise, pkgmgmt_remote_query_requisites, pkgmgmt_remote_print_invalid,
  pkgmgmt_import_local_closure, pkgmgmt_export_remote_closure,
}
use disnix.RemoteCommands.Activities.{activity, main-exec_dysnomia_activity, main-lock_or_unlock}
use disnix.RemoteCommands.SnapshotCommands.{
  main-snapshot_queries, main-statemgmt_remote_clean_snapshots,
}
use disnix.RemoteCommands.SnapshotTransfers.{
  imported, main-import_snapshots, main-statemgmt_export_remote_snapshots,
}
use disnix.RemoteCommands.PackageCommands.{
  main-profile_commands, main-path_commands, main-pkgmgmt_remote_collect_garbage,
}
use disnix.Tests.Getopt.{getopt, getopt-IsGetopt}

-- Integers in unary, the even lengths for those that are not negative.
abbrev double : ℕ → ℕ
double zero = zero
double (suc n) = suc (suc (double n))

abbrev ones : ℕ → String
ones zero = ""
ones (suc n) = concat "1" (ones n)

abbrev print : ℤ → String
print (pos n) = ones (double n)
print (negsuc n) = ones (suc (double n))

abbrev next : ℤ → ℤ
next (pos n) = pos (suc n)
next (negsuc n) = negsuc (suc n)

abbrev decode : ℕ → ℤ
decode zero = pos zero
decode (suc zero) = negsuc zero
decode (suc (suc n)) = next (decode n)

abbrev pub atoi : String → ℤ
atoi text = decode (len text)

len-ones : (n : ℕ) → len (ones n) ≡ n
len-ones zero = refl
len-ones (suc n) = ground (arith, len-append "1" (ones n), len-ones n)

decode-even : (n : ℕ) → decode (double n) ≡ pos n
decode-even zero = refl
decode-even (suc n) = ap next (decode-even n)

decode-odd : (n : ℕ) → decode (suc (double n)) ≡ negsuc n
decode-odd zero = refl
decode-odd (suc n) = ap next (decode-odd n)

atoi-print : (n : ℤ) → atoi (print n) ≡ n
atoi-print (pos n) = ap decode (len-ones (double n)) ∙ decode-even n
atoi-print (negsuc n) = ap decode (len-ones (suc (double n))) ∙ decode-odd n

abbrev pub unset : Environment
unset name = none

abbrev pub arguments : List String
arguments = "port=80" ∷ "name=shop" ∷ []

abbrev settings : Settings
settings = initial_settings

main-exec_dysnomia_activity_example :
    (main run_activity getopt atoi unset (
        statemgmt_remote_activate "disnix-ssh-client" "host" "web" "process" arguments
          "/nix/store/shop")
      ≡ activity run_activity getopt getopt-IsGetopt atoi unset op_activate "web" "process"
          arguments "/nix/store/shop")
    × (main run_activity getopt atoi unset (
          statemgmt_remote_deactivate "disnix-ssh-client" "host" "web" "process" arguments
            "/nix/store/shop")
        ≡ activity run_activity getopt getopt-IsGetopt atoi unset op_deactivate "web" "process"
            arguments "/nix/store/shop")
    × (main run_activity getopt atoi unset (
          statemgmt_remote_snapshot "disnix-ssh-client" "host" "web" "process" arguments
            "/nix/store/shop")
        ≡ activity run_activity getopt getopt-IsGetopt atoi unset op_snapshot "web" "process"
            arguments "/nix/store/shop")
    × (main run_activity getopt atoi unset (
          statemgmt_remote_restore "disnix-ssh-client" "host" "web" "process" arguments
            "/nix/store/shop")
        ≡ activity run_activity getopt getopt-IsGetopt atoi unset op_restore "web" "process"
            arguments "/nix/store/shop")
    × (main run_activity getopt atoi unset (
          statemgmt_remote_delete_state "disnix-ssh-client" "host" "web" "process" arguments
            "/nix/store/shop")
        ≡ activity run_activity getopt getopt-IsGetopt atoi unset op_delete_state "web" "process"
            arguments "/nix/store/shop")
main-exec_dysnomia_activity_example =
    main-exec_dysnomia_activity run_activity getopt getopt-IsGetopt atoi unset "disnix-ssh-client"
      "host" "web" "process" arguments "/nix/store/shop" refl

main-lock_or_unlock_example :
    (main run_activity getopt atoi unset
        (statemgmt_remote_lock "disnix-ssh-client" "host" "default")
      ≡ run (record settings { operation = op_lock; profile = some "default" }) "default" [])
    × (main run_activity getopt atoi unset
          (statemgmt_remote_unlock "disnix-ssh-client" "host" "default")
        ≡ run (record settings { operation = op_unlock; profile = some "default" }) "default" [])
main-lock_or_unlock_example =
    main-lock_or_unlock run_activity getopt getopt-IsGetopt atoi unset "disnix-ssh-client" "host"
      "default"

main-snapshot_queries_example :
    (main run_activity getopt atoi unset
        (statemgmt_remote_query_all_snapshots "disnix-ssh-client" "host" (some "mysql") none)
      ≡ run
          (record settings { operation = op_query_all_snapshots; container = some "mysql" })
          "default"
          [])
    × (main run_activity getopt atoi unset
          (statemgmt_remote_query_latest_snapshot "disnix-ssh-client" "host" (some "mysql") none)
        ≡ run
            (record settings { operation = op_query_latest_snapshot; container = some "mysql" })
            "default"
            [])
    × (main run_activity getopt atoi unset
          (statemgmt_remote_print_missing_snapshots "disnix-ssh-client" "host" ("mysql/db/1" ∷ []))
        ≡ run
            (record settings { operation = op_print_missing_snapshots })
            "default"
            ("mysql/db/1" ∷ []))
    × (main run_activity getopt atoi unset
          (statemgmt_remote_resolve_snapshots "disnix-ssh-client" "host" ("mysql/db/1" ∷ []))
        ≡ run (record settings { operation = op_resolve_snapshots }) "default" ("mysql/db/1" ∷ []))
unfolding check_profile_option
main-snapshot_queries_example =
    main-snapshot_queries run_activity getopt getopt-IsGetopt atoi unset "disnix-ssh-client" "host"
      (some "mysql") none ("mysql/db/1" ∷ []) (refl, tt)

main-statemgmt_remote_clean_snapshots_example :
    main run_activity getopt atoi unset
      (statemgmt_remote_clean_snapshots print "disnix-ssh-client" "host" (pos 3) none (some "db"))
    ≡ run
        (record settings { operation = op_clean_snapshots; keep = pos 3; component = some "db" })
        "default"
        []
unfolding check_profile_option
main-statemgmt_remote_clean_snapshots_example =
    main-statemgmt_remote_clean_snapshots run_activity getopt getopt-IsGetopt atoi unset print
      (λ n fits. atoi-print n) "disnix-ssh-client" "host" (pos 3) (omega arith) none (some "db")

main-import_snapshots_example :
    (main run_activity getopt atoi unset
        (statemgmt_import_local_snapshots "disnix-ssh-client" "host" "mysql" "db" ("/tmp/1" ∷ []))
      ≡ imported run_activity getopt getopt-IsGetopt atoi unset "mysql" "db" ("/tmp/1" ∷ []))
    × (main run_activity getopt atoi unset (
          statemgmt_import_remote_snapshots "disnix-ssh-client" "host" "mysql" "db" ("/tmp/1" ∷ []))
        ≡ imported run_activity getopt getopt-IsGetopt atoi unset "mysql" "db" ("/tmp/1" ∷ []))
main-import_snapshots_example =
    main-import_snapshots run_activity getopt getopt-IsGetopt atoi unset "disnix-ssh-client" "host"
      "mysql" "db" ("/tmp/1" ∷ []) (refl, tt)

main-statemgmt_export_remote_snapshots_example :
    main run_activity getopt atoi unset
      (statemgmt_export_remote_snapshots "disnix-ssh-client" "host" ("mysql/db/1" ∷ []))
    ≡ misuse
main-statemgmt_export_remote_snapshots_example =
    main-statemgmt_export_remote_snapshots run_activity getopt getopt-IsGetopt atoi unset
      "disnix-ssh-client" "host" ("mysql/db/1" ∷ []) (refl, tt)

main-profile_commands_example :
    (main disnix_client getopt atoi unset
        (pkgmgmt_remote_set "disnix-client" "host" "default" "/nix/store/p")
      ≡ run
          (record settings { operation = op_set; profile = some "default" })
          "default"
          ("/nix/store/p" ∷ []))
    × (main disnix_client getopt atoi unset
          (pkgmgmt_remote_query_installed "disnix-client" "host" "default")
        ≡ run
            (record settings { operation = op_query_installed; profile = some "default" })
            "default"
            [])
main-profile_commands_example =
    main-profile_commands disnix_client getopt getopt-IsGetopt atoi unset "disnix-client" "host"
      "default" "/nix/store/p" refl

main-path_commands_example :
    (main disnix_client getopt atoi unset
        (pkgmgmt_remote_realise "disnix-client" "host" "/nix/store/x")
      ≡ run (record settings { operation = op_realise }) "default" ("/nix/store/x" ∷ []))
    × (main disnix_client getopt atoi unset
          (pkgmgmt_remote_query_requisites "disnix-client" "host" ("/nix/store/x" ∷ []))
        ≡ run (record settings { operation = op_query_requisites }) "default" ("/nix/store/x" ∷ []))
    × (main disnix_client getopt atoi unset
          (pkgmgmt_remote_print_invalid "disnix-client" "host" ("/nix/store/x" ∷ []))
        ≡ run (record settings { operation = op_print_invalid }) "default" ("/nix/store/x" ∷ []))
    × (main disnix_client getopt atoi unset
          (pkgmgmt_import_local_closure "disnix-client" "host" "/nix/store/x")
        ≡ run (record settings { operation = op_import }) "default" ("/nix/store/x" ∷ []))
    × (main disnix_client getopt atoi unset
          (pkgmgmt_export_remote_closure "disnix-client" "host" ("/nix/store/x" ∷ []))
        ≡ run (record settings { operation = op_export }) "default" ("/nix/store/x" ∷ []))
unfolding check_profile_option
main-path_commands_example =
    main-path_commands disnix_client getopt getopt-IsGetopt atoi unset "disnix-client" "host"
      "/nix/store/x" ("/nix/store/x" ∷ []) (refl, (refl, tt))

main-pkgmgmt_remote_collect_garbage_example :
    main disnix_client getopt atoi unset
      (pkgmgmt_remote_collect_garbage "disnix-client" "host" true)
    ≡ run (record settings { operation = op_collect_garbage; delete_old = true }) "default" []
unfolding check_profile_option
main-pkgmgmt_remote_collect_garbage_example =
    main-pkgmgmt_remote_collect_garbage disnix_client getopt getopt-IsGetopt atoi unset
      "disnix-client" "host" true
