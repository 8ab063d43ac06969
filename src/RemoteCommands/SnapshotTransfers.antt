-- ===== src/RemoteCommands/SnapshotTransfers.antt =====
-- src/libstatemgmt/remote-snapshot-management.c: the command lines that move snapshots, read by the
-- programs on the machines.
use text.Mathlib.Text.{starts_with}
use disnix.Prelude.{
  ◌≡◌, refl, sym, ap, ◌∙◌, none, Bool, true, false, not, some, String, List, [], ◌∷◌, map, All,
  ◌&&◌, arith,
}
use disnix.Platform.{Table}
use disnix.Options.Codes
use disnix.Options.Codes.{HasArg, OptionCode, op_import_snapshots}
use disnix.Options.State.{ℤ, Settings, initial_settings, Start, run, misuse}
use disnix.Options.Defaults.{Environment, check_profile_option}
use disnix.Options.RunActivity.{run_activity_option}
use disnix.Options.Client.{client_option}
use disnix.Options.{
  Getopt, Item, flag, option, unlisted, operand, IsGetopt, Program, run_activity, disnix_client,
  long_options, main, start_with, handle_options, found, operands,
}
use disnix.RemoteCommands.{
  statemgmt_import_local_snapshots, statemgmt_import_remote_snapshots,
  statemgmt_export_remote_snapshots,
}
use disnix.RemoteCommands.Reading.{
  program-Reads, target_item, AreOperands, AllSuit-operands, main-render, main-options,
  render-operands,
}
use disnix.RemoteCommands.Selection.{selects}

abbrev none_starts : String → Table (HasArg × OptionCode) → Bool
none_starts name [] = true
none_starts name (e ∷ table) = not (starts_with e.0 name) && none_starts name table

none_starts-All :
    (name : String) (table : Table (HasArg × OptionCode))
    → none_starts name table ≡ true
    → All (λ e. starts_with e.0 name ≡ false) table
none_starts-All name [] h = tt
none_starts-All name (e ∷ table) h =
    (ground (arith, h), none_starts-All name table (ground (arith, h)))

export_unlisted : (program : Program) → none_starts "export-snapshots" (long_options program) ≡ true
export_unlisted run_activity = refl
export_unlisted disnix_client = refl

module _ (program : Program) (getopt : Getopt) (laws : IsGetopt getopt) (atoi : String → ℤ)
    (environment : Environment) where
  abbrev read : List String → Start
  read = main program getopt atoi environment

  abbrev pub imported : String → String → List String → Start
  imported container component snapshots =
      run
        (record initial_settings {
          operation = op_import_snapshots;
          container = some container;
          component = some component;
        })
        (check_profile_option environment none) snapshots

  -- For both programs, and snapshots that do not begin with a dash: the command lines by which the
  -- coordinator imports snapshots that are stored on either side are read as the import of these
  -- snapshots for that container and component.
  pub main-import_snapshots :
      (interface target container component : String) (snapshots : List String)
      → AreOperands snapshots
      → (read (statemgmt_import_local_snapshots interface target container component snapshots)
          ≡ imported container component snapshots)
        × (read (statemgmt_import_remote_snapshots interface target container component snapshots)
            ≡ imported container component snapshots)
  unfolding statemgmt_import_local_snapshots statemgmt_import_remote_snapshots
  main-import_snapshots interface target container component snapshots are =
      let reads = program-Reads program atoi in
      let selected = selects program atoi op_import_snapshots (λ e. cc) in
      let filters : List (Item OptionCode) =
        option "container" Codes.option_container container
        ∷ option "component" Codes.option_component component
        ∷ [] in
      let t : Settings = record initial_settings {
        operation = op_import_snapshots;
        container = some container;
        component = some component;
      } in
      (
        main-options program atoi getopt laws environment interface
            (target_item target
              ∷ flag "import-snapshots" selected.code
              ∷ flag "localfile" Codes.option_localfile
              ∷ filters)
            snapshots t
            (
              reads.target_listed,
              (
                selected.listed,
                (reads.localfile_listed, (reads.container_listed, (reads.component_listed, tt))),
              ),
            )
            refl are
            (
              _,
              reads.target_read _ _,
              (
                _,
                selected.selected _ _,
                (
                  _,
                  reads.localfile_read _ _,
                  (_, reads.container_read _ _, (_, reads.component_read _ _, refl)),
                ),
              ),
            ),
        main-options program atoi getopt laws environment interface
            (target_item target
              ∷ flag "import-snapshots" selected.code
              ∷ flag "remotefile" Codes.option_remotefile
              ∷ filters)
            snapshots t
            (
              reads.target_listed,
              (
                selected.listed,
                (reads.remotefile_listed, (reads.container_listed, (reads.component_listed, tt))),
              ),
            )
            refl are
            (
              _,
              reads.target_read _ _,
              (
                _,
                selected.selected _ _,
                (
                  _,
                  reads.remotefile_read _ _,
                  (_, reads.container_read _ _, (_, reads.component_read _ _, refl)),
                ),
              ),
            ),
      )

-- What the loop is given of such a command line.
read_export :
    (program : Program) (getopt : Getopt)
    → IsGetopt getopt
    → (atoi : String → ℤ) (environment : Environment) (interface target : String)
      (snapshots : List String)
    → AreOperands snapshots
    → main program getopt atoi environment
        (interface ∷ "--target" ∷ target ∷ "--export-snapshots" ∷ snapshots)
      ≡ start_with environment
          (handle_options program atoi
            ((Codes.option_target, target)
              ∷ (Codes.option_unknown, "")
              ∷ found Codes.option_unknown (map operand snapshots))
            initial_settings)
          (operands {V = OptionCode} (map operand snapshots))
read_export program getopt laws atoi environment interface target snapshots are =
    ap
      (λ words.
        main program getopt atoi environment
          (interface ∷ "--target" ∷ target ∷ "--export-snapshots" ∷ words))
      (sym (render-operands snapshots))
    ∙ main-render program atoi getopt laws environment interface
        (target_item target ∷ unlisted "export-snapshots" ∷ map operand snapshots)
        (
          (program-Reads program atoi).target_listed,
          (
            (
              none_starts-All "export-snapshots" (long_options program) (export_unlisted program),
              refl,
            ),
            AllSuit-operands program atoi snapshots are,
          ),
        )

-- Both programs refuse the command line by which the coordinator exports snapshots, since neither
-- has that option, if no snapshot begins with a dash.
pub main-statemgmt_export_remote_snapshots :
    (program : Program) (getopt : Getopt)
    → IsGetopt getopt
    → (atoi : String → ℤ) (environment : Environment) (interface target : String)
      (snapshots : List String)
    → AreOperands snapshots
    → main program getopt atoi environment
        (statemgmt_export_remote_snapshots interface target snapshots)
      ≡ misuse
unfolding statemgmt_export_remote_snapshots run_activity_option client_option
main-statemgmt_export_remote_snapshots run_activity getopt laws atoi environment interface target
      snapshots are =
    read_export run_activity getopt laws atoi environment interface target snapshots are
main-statemgmt_export_remote_snapshots disnix_client getopt laws atoi environment interface target
      snapshots are =
    read_export disnix_client getopt laws atoi environment interface target snapshots are
