-- ===== src/RemoteCommands/PackageCommands.antt =====
-- src/libpkgmgmt/remote-package-management.c: its command lines, read by the programs on the machines.
use text.Mathlib.Text.{starts_with}
use disnix.Prelude.{◌≡◌, refl, Bool, true, false, none, some, String, List, [], ◌∷◌}
use disnix.Options.Codes
use disnix.Options.Codes.{
  OptionCode, op_none, op_collect_garbage, op_set, op_query_installed, op_realise,
  op_query_requisites, op_print_invalid, op_import, op_export,
}
use disnix.Options.State.{ℤ, initial_settings, Start, run}
use disnix.Options.Defaults.{Environment, check_profile_option}
use disnix.Options.{Getopt, flag, short_flag, option, IsGetopt, Program, main}
use disnix.RemoteCommands.{
  pkgmgmt_remote_collect_garbage, pkgmgmt_remote_set, pkgmgmt_remote_query_installed,
  pkgmgmt_remote_realise, pkgmgmt_remote_query_requisites, pkgmgmt_remote_print_invalid,
  pkgmgmt_import_local_closure, pkgmgmt_export_remote_closure,
}
use disnix.RemoteCommands.Reading.{program-Reads, target_item, AreOperands, main-options}
use disnix.RemoteCommands.Selection.{selects}
use disnix.RemoteCommands.SnapshotCommands.{words_lem}

module _ (program : Program) (getopt : Getopt) (laws : IsGetopt getopt) (atoi : String → ℤ)
    (environment : Environment) where
  abbrev read : List String → Start
  read = main program getopt atoi environment

  abbrev pub default_profile : String
  default_profile = check_profile_option environment none

  -- For both programs: the command lines by which the coordinator sets a profile and queries what
  -- is installed in one are read as that operation on that profile, the first one with the
  -- component if it does not begin with a dash.
  pub main-profile_commands :
      (interface target profile component : String)
      → starts_with component "-" ≡ false
      → (read (pkgmgmt_remote_set interface target profile component)
          ≡ run
              (record initial_settings { operation = op_set; profile = some profile })
              profile
              (component ∷ []))
        × (read (pkgmgmt_remote_query_installed interface target profile)
            ≡ run
                (record initial_settings { operation = op_query_installed; profile = some profile })
                profile
                [])
  unfolding pkgmgmt_remote_set pkgmgmt_remote_query_installed check_profile_option
  main-profile_commands interface target profile component word =
      let reads = program-Reads program atoi in
      let set = selects program atoi op_set (λ e. cc) in
      let query = selects program atoi op_query_installed (λ e. cc) in
      (
        main-options program atoi getopt laws environment interface
            (target_item target
              ∷ option "profile" Codes.option_profile profile
              ∷ flag "set" set.code
              ∷ [])
            (component ∷ [])
            (record initial_settings { operation = op_set; profile = some profile })
            (reads.target_listed, (reads.profile_listed, (set.listed, tt))) refl (word, tt)
            (_, reads.target_read _ _, (_, reads.profile_read _ _, (_, set.selected _ _, refl))),
        main-options program atoi getopt laws environment interface
            (target_item target
              ∷ option "profile" Codes.option_profile profile
              ∷ flag "query-installed" query.code
              ∷ [])
            [] (record initial_settings { operation = op_query_installed; profile = some profile })
            (reads.target_listed, (reads.profile_listed, (query.listed, tt))) refl tt
            (_, reads.target_read _ _, (_, reads.profile_read _ _, (_, query.selected _ _, refl))),
      )

  -- For both programs, and paths that do not begin with a dash: the command lines by which the
  -- coordinator realises a derivation, queries requisites and invalid paths, and imports and
  -- exports a closure are read as that operation on these paths.
  pub main-path_commands :
      (interface target path : String) (paths : List String)
      → AreOperands (path ∷ paths)
      → (read (pkgmgmt_remote_realise interface target path)
          ≡ run (record initial_settings { operation = op_realise }) default_profile (path ∷ []))
        × (read (pkgmgmt_remote_query_requisites interface target paths)
            ≡ run
                (record initial_settings { operation = op_query_requisites })
                default_profile
                paths)
        × (read (pkgmgmt_remote_print_invalid interface target paths)
            ≡ run (record initial_settings { operation = op_print_invalid }) default_profile paths)
        × (read (pkgmgmt_import_local_closure interface target path)
            ≡ run (record initial_settings { operation = op_import }) default_profile (path ∷ []))
        × (read (pkgmgmt_export_remote_closure interface target paths)
            ≡ run (record initial_settings { operation = op_export }) default_profile paths)
  unfolding pkgmgmt_remote_realise pkgmgmt_remote_query_requisites pkgmgmt_remote_print_invalid
      pkgmgmt_import_local_closure pkgmgmt_export_remote_closure
  main-path_commands interface target path paths are =
      let reads = program-Reads program atoi in
      let realise = selects program atoi op_realise (λ e. cc) in
      let query = selects program atoi op_query_requisites (λ e. cc) in
      let import_closure = selects program atoi op_import (λ e. cc) in
      let export_closure = selects program atoi op_export (λ e. cc) in
      (
        main-options program atoi getopt laws environment interface
            (flag "realise" realise.code ∷ target_item target ∷ []) (path ∷ [])
            (record initial_settings { operation = op_realise })
            (realise.listed, (reads.target_listed, tt)) refl (are.0, tt)
            (_, realise.selected _ _, (_, reads.target_read _ _, refl)),
        main-options program atoi getopt laws environment interface
            (flag "query-requisites" query.code ∷ target_item target ∷ []) paths
            (record initial_settings { operation = op_query_requisites })
            (query.listed, (reads.target_listed, tt)) refl are.1
            (_, query.selected _ _, (_, reads.target_read _ _, refl)),
        words_lem program getopt laws atoi environment op_print_invalid (λ e. cc) interface target
            paths are.1,
        main-options program atoi getopt laws environment interface
            (flag "import" import_closure.code
              ∷ target_item target
              ∷ flag "localfile" Codes.option_localfile
              ∷ [])
            (path ∷ []) (record initial_settings { operation = op_import })
            (import_closure.listed, (reads.target_listed, (reads.localfile_listed, tt))) refl
            (are.0, tt)
            (
              _,
              import_closure.selected _ _,
              (_, reads.target_read _ _, (_, reads.localfile_read _ _, refl)),
            ),
        main-options program atoi getopt laws environment interface
            (target_item target
              ∷ flag "export" export_closure.code
              ∷ flag "remotefile" Codes.option_remotefile
              ∷ [])
            paths (record initial_settings { operation = op_export })
            (reads.target_listed, (export_closure.listed, (reads.remotefile_listed, tt))) refl are.1
            (
              _,
              reads.target_read _ _,
              (_, export_closure.selected _ _, (_, reads.remotefile_read _ _, refl)),
            ),
      )

  -- For both programs: the command line by which the coordinator collects garbage is read as that
  -- operation, and older generations are removed exactly when it asks for that.
  pub main-pkgmgmt_remote_collect_garbage :
      (interface target : String) (delete_old : Bool)
      → read (pkgmgmt_remote_collect_garbage interface target delete_old)
        ≡ run
            (record initial_settings { operation = op_collect_garbage; delete_old = delete_old })
            default_profile
            []
  unfolding pkgmgmt_remote_collect_garbage
  main-pkgmgmt_remote_collect_garbage interface target false =
      let reads = program-Reads program atoi in
      let collect = selects program atoi op_collect_garbage (λ e. cc) in
      main-options program atoi getopt laws environment interface
        (target_item target ∷ flag "collect-garbage" collect.code ∷ []) []
        (record initial_settings { operation = op_collect_garbage })
        (reads.target_listed, (collect.listed, tt)) refl tt
        (_, reads.target_read _ _, (_, collect.selected _ _, refl))
  main-pkgmgmt_remote_collect_garbage interface target true =
      let reads = program-Reads program atoi in
      let collect = selects program atoi op_collect_garbage (λ e. cc) in
      main-options program atoi getopt laws environment interface
        (target_item target
          ∷ flag "collect-garbage" collect.code
          ∷ short_flag "d" Codes.option_delete_old
          ∷ [])
        [] (record initial_settings { operation = op_collect_garbage; delete_old = true })
        (reads.target_listed, (collect.listed, (reads.delete_old_listed, tt))) refl tt
        (_, reads.target_read _ _, (_, collect.selected _ _, (_, reads.delete_old_read _ _, refl)))
