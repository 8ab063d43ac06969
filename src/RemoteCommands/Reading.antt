-- ===== src/RemoteCommands/Reading.antt =====
-- src/run-activity/main.c and src/dbus-service/disnix-client-main.c: how both programs read the options
-- that the coordinator gives.
use text.Mathlib.Text.{starts_with}
use mathlib.Core.List.{append_assoc, append-nil}
use disnix.Prelude.{
  ◌≡◌, refl, ap, ◌∙◌, sym, subst, true, false, some, String, List, [], ◌∷◌, ◌++◌, map, lookup, All,
}
use disnix.Options.Codes
use disnix.Options.Codes.{
  HasArg, no_argument, required_argument, OptionCode, Operation, option_unknown,
}
use disnix.Options.State.{ℤ, Settings, initial_settings, run, go_on, leave}
use disnix.RemoteCommands.{each_argument}
use disnix.Options.Defaults.{Environment, check_profile_option}
use disnix.Options.RunActivity.{run_activity_option}
use disnix.Options.Client.{client_option}
use disnix.Options.{
  Getopt, Item, option, operand, words_of, values_of, operand_of, render, found, operands, Suits,
  IsGetopt, Program, run_activity, disnix_client, short_options, long_options, handle_option,
  handle_options, start_with, main, is_short_name, are_short_names, is_long_name,
}

-- Words that are no options.
abbrev pub AreOperands : List String → Type 0
AreOperands = All (λ word. starts_with word "-" ≡ false)

module _ (program : Program) (atoi : String → ℤ) where
  -- What the two programs make of the options that most command lines have.
  pub record Reads : Type 0 where
    pub target_listed :
        (lookup "target" (long_options program) ≡ some (required_argument, Codes.option_target))
        × (is_long_name "target" ≡ true)
    pub container_listed :
        (lookup "container" (long_options program)
          ≡ some (required_argument, Codes.option_container))
        × (is_long_name "container" ≡ true)
    pub component_listed :
        (lookup "component" (long_options program)
          ≡ some (required_argument, Codes.option_component))
        × (is_long_name "component" ≡ true)
    pub type_listed :
        (lookup "type" (long_options program) ≡ some (required_argument, Codes.option_type))
        × (is_long_name "type" ≡ true)
    pub arguments_listed :
        (lookup "arguments" (long_options program)
          ≡ some (required_argument, Codes.option_arguments))
        × (is_long_name "arguments" ≡ true)
    pub profile_listed :
        (lookup "profile" (long_options program) ≡ some (required_argument, Codes.option_profile))
        × (is_long_name "profile" ≡ true)
    pub keep_listed :
        (lookup "keep" (long_options program) ≡ some (required_argument, Codes.option_keep))
        × (is_long_name "keep" ≡ true)
    pub localfile_listed :
        (lookup "localfile" (long_options program) ≡ some (no_argument, Codes.option_localfile))
        × (is_long_name "localfile" ≡ true)
    pub remotefile_listed :
        (lookup "remotefile" (long_options program) ≡ some (no_argument, Codes.option_remotefile))
        × (is_long_name "remotefile" ≡ true)
    pub delete_old_listed :
        (lookup "d" (short_options program) ≡ some (no_argument, Codes.option_delete_old))
        × (is_short_name "d" ≡ true)
    pub target_read :
        (text : String) (s : Settings)
        → handle_option program atoi Codes.option_target text s ≡ go_on s
    pub container_read :
        (text : String) (s : Settings)
        → handle_option program atoi Codes.option_container text s
          ≡ go_on (record s { container = some text })
    pub component_read :
        (text : String) (s : Settings)
        → handle_option program atoi Codes.option_component text s
          ≡ go_on (record s { component = some text })
    pub type_read :
        (text : String) (s : Settings)
        → handle_option program atoi Codes.option_type text s
          ≡ go_on (record s { type = some text })
    pub arguments_read :
        (text : String) (s : Settings)
        → handle_option program atoi Codes.option_arguments text s
          ≡ go_on (record s { arguments = s.arguments ++ text ∷ [] })
    pub profile_read :
        (text : String) (s : Settings)
        → handle_option program atoi Codes.option_profile text s
          ≡ go_on (record s { profile = some text })
    pub keep_read :
        (text : String) (s : Settings)
        → handle_option program atoi Codes.option_keep text s
          ≡ go_on (record s { keep = atoi text })
    pub localfile_read :
        (text : String) (s : Settings)
        → handle_option program atoi Codes.option_localfile text s ≡ go_on s
    pub remotefile_read :
        (text : String) (s : Settings)
        → handle_option program atoi Codes.option_remotefile text s ≡ go_on s
    pub delete_old_read :
        (text : String) (s : Settings)
        → handle_option program atoi Codes.option_delete_old text s
          ≡ go_on (record s { delete_old = true })

pub program-Reads : (program : Program) (atoi : String → ℤ) → Reads program atoi
unfolding run_activity_option client_option
program-Reads run_activity atoi = record {
  target_listed = (refl, refl);
  container_listed = (refl, refl);
  component_listed = (refl, refl);
  type_listed = (refl, refl);
  arguments_listed = (refl, refl);
  profile_listed = (refl, refl);
  keep_listed = (refl, refl);
  localfile_listed = (refl, refl);
  remotefile_listed = (refl, refl);
  delete_old_listed = (refl, refl);
  target_read = λ text s. refl;
  keep_read = λ text s. refl;
  localfile_read = λ text s. refl;
  remotefile_read = λ text s. refl;
  delete_old_read = λ text s. refl;
  container_read = λ text s. refl;
  component_read = λ text s. refl;
  type_read = λ text s. refl;
  arguments_read = λ text s. refl;
  profile_read = λ text s. refl;
}
program-Reads disnix_client atoi = record {
  target_listed = (refl, refl);
  container_listed = (refl, refl);
  component_listed = (refl, refl);
  type_listed = (refl, refl);
  arguments_listed = (refl, refl);
  profile_listed = (refl, refl);
  keep_listed = (refl, refl);
  localfile_listed = (refl, refl);
  remotefile_listed = (refl, refl);
  delete_old_listed = (refl, refl);
  target_read = λ text s. refl;
  keep_read = λ text s. refl;
  localfile_read = λ text s. refl;
  remotefile_read = λ text s. refl;
  delete_old_read = λ text s. refl;
  container_read = λ text s. refl;
  component_read = λ text s. refl;
  type_read = λ text s. refl;
  arguments_read = λ text s. refl;
  profile_read = λ text s. refl;
}

-- An operation that a program has, by the name of its option.
pub record Selects (program : Program) (atoi : String → ℤ) (name : String) (operation : Operation)
    : Type 0 where
  pub code : OptionCode
  pub listed :
      (lookup name (long_options program) ≡ some (no_argument, code)) × (is_long_name name ≡ true)
  pub selected :
      (text : String) (s : Settings)
      → handle_option program atoi code text s ≡ go_on (record s { operation = operation })

abbrev pub argument_item : String → Item OptionCode
argument_item text = option "arguments" Codes.option_arguments text

abbrev pub target_item : String → Item OptionCode
target_item text = option "target" Codes.option_target text

render-append :
    (items rest : List (Item OptionCode)) → render (items ++ rest) ≡ render items ++ render rest
render-append [] rest = refl
render-append (item ∷ items) rest =
    ap (λ words. words_of item ++ words) (render-append items rest)
    ∙ sym (append_assoc (words_of item) (render items) (render rest))

found-append :
    (items rest : List (Item OptionCode))
    → found option_unknown (items ++ rest) ≡ found option_unknown items ++ found option_unknown rest
found-append [] rest = refl
found-append (item ∷ items) rest =
    ap (λ values. values_of option_unknown item ++ values) (found-append items rest)
    ∙ sym (
        append_assoc (values_of option_unknown item) (found option_unknown items)
          (found option_unknown rest))

operands-append :
    (items rest : List (Item OptionCode))
    → operands (items ++ rest) ≡ operands items ++ operands rest
operands-append [] rest = refl
operands-append (item ∷ items) rest =
    ap (λ words. operand_of item ++ words) (operands-append items rest)
    ∙ sym (append_assoc (operand_of item) (operands items) (operands rest))

pub render-operands : (words : List String) → render {V = OptionCode} (map operand words) ≡ words
render-operands [] = refl
render-operands (word ∷ words) = ap (λ rest. word ∷ rest) (render-operands words)

found-operands : (words : List String) → found option_unknown (map operand words) ≡ []
found-operands [] = refl
found-operands (word ∷ words) = found-operands words

operands-operands : (words : List String) → operands {V = OptionCode} (map operand words) ≡ words
operands-operands [] = refl
operands-operands (word ∷ words) = ap (λ rest. word ∷ rest) (operands-operands words)

pub render-arguments :
    (arguments : List String) → render (map argument_item arguments) ≡ each_argument arguments
unfolding each_argument
render-arguments [] = refl
render-arguments (text ∷ arguments) =
    ap (λ rest. "--arguments" ∷ text ∷ rest) (render-arguments arguments)

operands-arguments : (arguments : List String) → operands (map argument_item arguments) ≡ []
operands-arguments [] = refl
operands-arguments (text ∷ arguments) = operands-arguments arguments

short_options_named : (program : Program) → are_short_names (short_options program) ≡ true
short_options_named run_activity = refl
short_options_named disnix_client = refl

module _ (program : Program) (atoi : String → ℤ) where
  -- These options lead from one value of the variables to another.
  abbrev pub Leads : List (OptionCode × String) → Settings → Settings → Type 0
  Leads [] s t = s ≡ t
  Leads ((code, text) ∷ rest) s t =
      (s' : Settings) × (handle_option program atoi code text s ≡ go_on s') × Leads rest s' t

  Leads-append :
      (options rest : List (OptionCode × String)) (s t u : Settings)
      → Leads options s t
      → Leads rest t u
      → Leads (options ++ rest) s u
  Leads-append [] rest s t u e h = subst (λ s. Leads rest s u) (sym e) h
  Leads-append ((code, text) ∷ options) rest s t u (s', e, leads) h =
      (s', e, Leads-append options rest s' t u leads h)

  -- One turn of the loop after the other.
  handle_options-Leads :
      (options : List (OptionCode × String)) (s t : Settings)
      → Leads options s t
      → handle_options program atoi options s ≡ go_on t
  handle_options-Leads [] s t e = ap go_on e
  handle_options-Leads ((code, text) ∷ options) s t (s', e, leads) =
      ap
        (λ handled. elim handled [
          | go_on s' ↦ handle_options program atoi options s'
          | leave start ↦ leave start
        ])
        e
      ∙ handle_options-Leads options s' t leads

  -- The arguments are collected in their order.
  Leads-arguments :
      (arguments : List String) (s : Settings)
      → Leads
          (found option_unknown (map argument_item arguments))
          s
          (record s { arguments = s.arguments ++ arguments })
  Leads-arguments [] s = ap (λ texts. record s { arguments = texts }) (sym (append-nil s.arguments))
  Leads-arguments (text ∷ arguments) s = (
    _,
    (program-Reads program atoi).arguments_read text s,
    subst
        (λ texts.
          Leads (found option_unknown (map argument_item arguments))
            (record s { arguments = s.arguments ++ text ∷ [] }) (record s { arguments = texts }))
        (append_assoc s.arguments (text ∷ []) arguments)
        (Leads-arguments arguments (record s { arguments = s.arguments ++ text ∷ [] })),
  )

  abbrev pub AllSuit : List (Item OptionCode) → Type 0
  AllSuit = All (Suits (short_options program) (long_options program))

  AllSuit-arguments : (arguments : List String) → AllSuit (map argument_item arguments)
  AllSuit-arguments [] = tt
  AllSuit-arguments (text ∷ arguments) =
      ((program-Reads program atoi).arguments_listed, AllSuit-arguments arguments)

  pub AllSuit-operands : (words : List String) → AreOperands words → AllSuit (map operand words)
  AllSuit-operands [] h = tt
  AllSuit-operands (word ∷ words) h = (h.0, AllSuit-operands words h.1)

  AllSuit-append :
      (items rest : List (Item OptionCode)) → AllSuit items → AllSuit rest → AllSuit (items ++ rest)
  AllSuit-append [] rest h k = k
  AllSuit-append (item ∷ items) rest h k = (h.0, AllSuit-append items rest h.1 k)

  module _ (getopt : Getopt) (laws : IsGetopt getopt) (environment : Environment) where
    -- A command line that is made of items leads to what the loop makes of their values.
    pub main-render :
        (interface : String) (items : List (Item OptionCode))
        → AllSuit items
        → main program getopt atoi environment (interface ∷ render items)
          ≡ start_with environment
              (handle_options program atoi (found option_unknown items) initial_settings)
              (operands items)
    unfolding main
    main-render interface items h =
        rw (laws.mixed OptionCode _ _ _ interface items (short_options_named program) h) refl

    -- A command line of options and then words.
    pub main-options :
        (interface : String) (items : List (Item OptionCode)) (words : List String) (t : Settings)
        → AllSuit items
        → operands items ≡ []
        → AreOperands words
        → Leads (found option_unknown items) initial_settings t
        → main program getopt atoi environment (interface ∷ render items ++ words)
          ≡ run t (check_profile_option environment t.profile) words
    main-options interface items words t suit only are leads =
        ap (λ list. main program getopt atoi environment (interface ∷ list))
          (ap (λ list. render items ++ list) (sym (render-operands words))
            ∙ sym (render-append items (map operand words)))
        ∙ main-render interface (items ++ map operand words)
            (AllSuit-append items (map operand words) suit (AllSuit-operands words are))
        ∙ ap
            (λ options.
              start_with environment (handle_options program atoi options initial_settings)
                (operands (items ++ map operand words)))
            (found-append items (map operand words)
              ∙ ap (λ rest. found option_unknown items ++ rest) (found-operands words)
              ∙ append-nil (found option_unknown items))
        ∙ ap (λ handled. start_with environment handled (operands (items ++ map operand words)))
            (handle_options-Leads (found option_unknown items) initial_settings t leads)
        ∙ ap (run t (check_profile_option environment t.profile)) (
            operands-append items (map operand words)
            ∙ ap (λ list. list ++ operands {V = OptionCode} (map operand words)) only
            ∙ operands-operands words)

    -- Options, then arguments of an activity, then words.
    pub main-arguments :
        (interface : String) (items : List (Item OptionCode)) (arguments words : List String)
        (t : Settings)
        → AllSuit items
        → operands items ≡ []
        → AreOperands words
        → Leads (found option_unknown items) initial_settings t
        → main program getopt atoi environment
            (interface ∷ render items ++ (each_argument arguments ++ words))
          ≡ run
              (record t { arguments = t.arguments ++ arguments })
              (check_profile_option environment t.profile)
              words
    main-arguments interface items arguments words t suit only are leads =
        let more : List (Item OptionCode) = map argument_item arguments in
        ap (λ list. main program getopt atoi environment (interface ∷ list))
          (sym (append_assoc (render items) (each_argument arguments) words)
            ∙ ap (λ list. list ++ words)
                (ap (λ list. render items ++ list) (sym (render-arguments arguments))
                  ∙ sym (render-append items more)))
        ∙ main-options interface (items ++ more) words _
            (AllSuit-append items more suit (AllSuit-arguments arguments))
            (operands-append items more
              ∙ ap (λ list. list ++ operands more) only
              ∙ operands-arguments arguments)
            are
            (subst
              (λ options.
                Leads options initial_settings (record t { arguments = t.arguments ++ arguments }))
              (sym (found-append items more))
              (Leads-append (found option_unknown items) (found option_unknown more)
                initial_settings t _ leads (Leads-arguments arguments t)))
