-- ===== src/RemoteCommands/SnapshotCommands.antt =====
-- src/libstatemgmt/remote-snapshot-management.c: its command lines, read by the programs on the machines.
use Prim.Native.String.{◌++◌ as concat}
use disnix.Prelude.{◌≡◌, ◌≢◌, refl, Option, none, some, String, List, [], ◌∷◌, ◌++◌}
use disnix.Options.Codes
use disnix.Options.Codes.{
  OptionCode, Operation, option_unknown, op_none, op_clean_snapshots, op_query_all_snapshots,
  op_query_latest_snapshot, op_print_missing_snapshots, op_resolve_snapshots, op_import_snapshots,
}
use disnix.Options.State.{ℤ, IsInt, Settings, initial_settings, Start, run}
use disnix.Options.Defaults.{Environment, check_profile_option}
use disnix.Options.{Getopt, Item, flag, option, found, operands, render, IsGetopt, Program, main}
use disnix.RemoteCommands.{
  with_option, statemgmt_remote_clean_snapshots, statemgmt_remote_query_all_snapshots,
  statemgmt_remote_query_latest_snapshot, statemgmt_remote_print_missing_snapshots,
  statemgmt_remote_resolve_snapshots,
}
use disnix.RemoteCommands.Reading.{
  program-Reads, target_item, AllSuit, AreOperands, Leads, main-options,
}
use disnix.RemoteCommands.Selection.{name_of, selects}

module _ (program : Program) (getopt : Getopt) (laws : IsGetopt getopt) (atoi : String → ℤ)
    (environment : Environment) where
  abbrev read : List String → Start
  read = main program getopt atoi environment

  abbrev filter_items : Option String → Option String → List (Item OptionCode)
  filter_items none none = []
  filter_items (some c) none = option "container" Codes.option_container c ∷ []
  filter_items none (some d) = option "component" Codes.option_component d ∷ []
  filter_items (some c) (some d) =
      option "container" Codes.option_container c ∷ option "component" Codes.option_component d ∷ []

  filter_words :
      (container component : Option String)
      → render (filter_items container component) ++ []
        ≡ with_option "--container" container ++ with_option "--component" component
  filter_words none none = refl
  filter_words (some c) none = refl
  filter_words none (some d) = refl
  filter_words (some c) (some d) = refl

  filter_operands :
      (container component : Option String) → operands (filter_items container component) ≡ []
  filter_operands none none = refl
  filter_operands (some c) none = refl
  filter_operands none (some d) = refl
  filter_operands (some c) (some d) = refl

  filter-AllSuit :
      (container component : Option String)
      → AllSuit program atoi (filter_items container component)
  filter-AllSuit none none = tt
  filter-AllSuit (some c) none = ((program-Reads program atoi).container_listed, tt)
  filter-AllSuit none (some d) = ((program-Reads program atoi).component_listed, tt)
  filter-AllSuit (some c) (some d) = (
    (program-Reads program atoi).container_listed,
    ((program-Reads program atoi).component_listed, tt),
  )

  -- The settings with the filters.
  abbrev pub filtered : Settings → Option String → Option String → Settings
  filtered s container component = record s { container = container; component = component }

  filter-Leads :
      (s : Settings) (container component : Option String)
      → Leads program atoi
          (found option_unknown (filter_items container component))
          (filtered s none none)
          (filtered s container component)
  filter-Leads s none none = refl
  filter-Leads s (some c) none = (_, (program-Reads program atoi).container_read _ _, refl)
  filter-Leads s none (some d) = (_, (program-Reads program atoi).component_read _ _, refl)
  filter-Leads s (some c) (some d) = (
    _,
    (program-Reads program atoi).container_read _ _,
    (_, (program-Reads program atoi).component_read _ _, refl),
  )

  abbrev pub default_profile : String
  default_profile = check_profile_option environment none

  query_lem :
      (operation : Operation) (known : operation ≢ op_none) (interface target : String)
      (container component : Option String)
      → read (
          interface
            ∷ "--target"
            ∷ target
            ∷ concat "--" (name_of operation)
            ∷ with_option "--container" container
          ++ with_option "--component" component)
        ≡ run
            (filtered (record initial_settings { operation = operation }) container component)
            default_profile
            []
  query_lem operation known interface target container component =
      let reads = program-Reads program atoi in
      let selected = selects program atoi operation known in
      let s : Settings = record initial_settings { operation = operation } in
      rw (← filter_words container component) (
        main-options program atoi getopt laws environment interface
          (target_item target
            ∷ flag (name_of operation) selected.code
            ∷ filter_items container component)
          [] (filtered s container component)
          (reads.target_listed, (selected.listed, filter-AllSuit container component))
          (filter_operands container component) tt
          (
            _,
            reads.target_read _ _,
            (_, selected.selected _ _, filter-Leads s container component),
          ))

  pub words_lem :
      (operation : Operation) (known : operation ≢ op_none) (interface target : String)
      (words : List String)
      → AreOperands words
      → read (interface ∷ "--target" ∷ target ∷ concat "--" (name_of operation) ∷ words)
        ≡ run (record initial_settings { operation = operation }) default_profile words
  words_lem operation known interface target words are =
      let reads = program-Reads program atoi in
      let selected = selects program atoi operation known in
      main-options program atoi getopt laws environment interface
        (target_item target ∷ flag (name_of operation) selected.code ∷ []) words
        (record initial_settings { operation = operation })
        (reads.target_listed, (selected.listed, tt)) refl are
        (_, reads.target_read _ _, (_, selected.selected _ _, refl))

  -- For both programs: the command lines by which the coordinator asks for all snapshots and for
  -- the latest are read as that query with the same filters, given or not, and those by which it
  -- asks for the missing snapshots and resolves snapshots as that operation on these snapshots, if
  -- none of them begins with a dash.
  pub main-snapshot_queries :
      (interface target : String) (container component : Option String) (snapshots : List String)
      → AreOperands snapshots
      → (read (statemgmt_remote_query_all_snapshots interface target container component)
          ≡ run
              (filtered
                (record initial_settings { operation = op_query_all_snapshots })
                container
                component)
              default_profile
              [])
        × (read (statemgmt_remote_query_latest_snapshot interface target container component)
            ≡ run
                (filtered
                  (record initial_settings { operation = op_query_latest_snapshot })
                  container
                  component)
                default_profile
                [])
        × (read (statemgmt_remote_print_missing_snapshots interface target snapshots)
            ≡ run
                (record initial_settings { operation = op_print_missing_snapshots })
                default_profile
                snapshots)
        × (read (statemgmt_remote_resolve_snapshots interface target snapshots)
            ≡ run
                (record initial_settings { operation = op_resolve_snapshots })
                default_profile
                snapshots)
  unfolding statemgmt_remote_query_all_snapshots statemgmt_remote_query_latest_snapshot
      statemgmt_remote_print_missing_snapshots statemgmt_remote_resolve_snapshots
  main-snapshot_queries interface target container component snapshots are = (
    query_lem op_query_all_snapshots (λ e. cc) interface target container component,
    query_lem op_query_latest_snapshot (λ e. cc) interface target container component,
    words_lem op_print_missing_snapshots (λ e. cc) interface target snapshots are,
    words_lem op_resolve_snapshots (λ e. cc) interface target snapshots are,
  )

  -- For both programs, where `atoi` reads what `sprintf` prints of an `int`, and a number of
  -- generations that is an `int`: the command line by which the coordinator removes old snapshots
  -- is read as that operation with the same number of generations to keep and the same filters,
  -- given or not.
  pub main-statemgmt_remote_clean_snapshots :
      (print : ℤ → String)
      → ((n : ℤ) → IsInt n → atoi (print n) ≡ n)
      → (interface target : String) (keep : ℤ) → IsInt keep
      → (container component : Option String)
      → read (statemgmt_remote_clean_snapshots print interface target keep container component)
        ≡ run
            (filtered
              (record initial_settings { operation = op_clean_snapshots; keep = keep })
              container
              component)
            default_profile
            []
  unfolding statemgmt_remote_clean_snapshots
  main-statemgmt_remote_clean_snapshots print inverse interface target keep fits container
        component =
      let reads = program-Reads program atoi in
      let selected = selects program atoi op_clean_snapshots (λ e. cc) in
      let s : Settings = record initial_settings { operation = op_clean_snapshots; keep = keep } in
      rw (← filter_words container component) (
        main-options program atoi getopt laws environment interface
          (target_item target
            ∷ flag (name_of op_clean_snapshots) selected.code
            ∷ option "keep" Codes.option_keep (print keep)
            ∷ filter_items container component)
          [] (filtered s container component)
          (
            reads.target_listed,
            (selected.listed, (reads.keep_listed, filter-AllSuit container component)),
          )
          (filter_operands container component) tt
          (
            _,
            reads.target_read _ _,
            (
              _,
              selected.selected _ _,
              (
                record s { keep = atoi (print keep) },
                reads.keep_read _ _,
                rw (inverse keep fits) (filter-Leads s container component),
              ),
            ),
          ))
