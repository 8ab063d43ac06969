-- ===== src/Tests/Getopt.antt =====
-- A `getopt_long` that keeps to its documentation on the command lines of the coordinator.
use Prim.Native.String.{◌++◌ as concat}
use text.Mathlib.Text.{starts_with}
use text.Mathlib.TextLemmas.{append_cancel_left, append_assoc, append-nil}
use text.Mathlib.TextPositions.{starts_with-append}
use text.Mathlib.TextEquality.{starts_with_iff}
use disnix.Prelude.{
  ◌≡◌, refl, ap, sym, ◌∙◌, subst, true, false, Option, none, some, String, str_eq, eq_iff, eq_refl,
  List, [], ◌∷◌, lookup, All, any, Bool-cases, inl, inr, arith, if◌then◌else◌,
}
use disnix.Platform.{Table}
use disnix.Options.Codes.{HasArg, no_argument, required_argument}
use disnix.Options.{
  Getopt, Item, flag, short_flag, option, unlisted, operand, render, found, operands, Suits,
  IsGetopt, letters, is_short_name,
}

-- How a table's names are written on a command line.
abbrev spelled : {E : Type 0} → String → Table E → Table E
spelled dashes [] = []
spelled dashes ((name, e) ∷ table) = (concat dashes name, e) ∷ spelled dashes table

module _ {V : Type 0} (unknown : V) (short long : Table (HasArg × V)) where
  abbrev known : String → Option (HasArg × V)
  known word =
      if starts_with word "--"
      then lookup word (spelled "--" long)
      else lookup word (spelled "-" short)

  abbrev with_value : V → String → List (V × String) × List String → List (V × String) × List String
  with_value value text (options, words) = ((value, text) ∷ options, words)

  -- What is made of a word, given what follows it with and without its argument.
  abbrev react :
      Option (HasArg × V)
      → String
      → List (V × String) × List String
      → (V → List (V × String) × List String)
      → List (V × String) × List String
  react (some (no_argument, value)) word plain waiting = with_value value "" plain
  react (some (required_argument, value)) word plain waiting = waiting value
  react none word plain waiting =
      if starts_with word "-" then with_value unknown "" plain else (plain.0, word ∷ plain.1)

  -- Given the option that waits for its argument.
  abbrev scan : Option V → List String → List (V × String) × List String
  scan pending [] = ([], [])
  scan (some value) (word ∷ rest) = with_value value word (scan none rest)
  scan none (word ∷ rest) =
      react (known word) word (scan none rest) (λ value. scan (some value) rest)

abbrev pub getopt : Getopt
getopt V unknown short long [] = ([], [])
getopt V unknown short long (program ∷ words) = scan unknown short long none words

str_eq-concat : (s t u : String) → str_eq (concat s t) (concat s u) ≡ str_eq t u
str_eq-concat s t u = elim (Bool-cases (str_eq t u)) [
  | inl same ↦ rw ((eq_iff t u).0 same) (eq_refl (concat s u) ∙ sym (eq_refl u))
  | inr other ↦ elim (Bool-cases (str_eq (concat s t) (concat s u))) [
    | inl same ↦ absurd (
        ground (
          arith,
          other,
          (eq_iff t u).1 (append_cancel_left s t u ((eq_iff (concat s t) (concat s u)).0 same)),
        ))
    | inr other' ↦ other' ∙ sym other
  ]
]

lookup-spelled :
    {E : Type 0} (dashes name : String) (table : Table E)
    → lookup (concat dashes name) (spelled dashes table) ≡ lookup name table
lookup-spelled dashes name [] = refl
lookup-spelled dashes name ((k, e) ∷ table) =
    ground (arith, str_eq-concat dashes k name, lookup-spelled dashes name table)

dashes : (name : String) → concat "--" name ≡ concat "-" (concat "-" name)
dashes name = append_assoc "-" "-" name

starts_with-dashes : (name : String) → starts_with (concat "--" name) "-" ≡ true
starts_with-dashes name =
    subst (λ word. starts_with word "-" ≡ true) (sym (dashes name))
      (starts_with-append "-" (concat "-" name))

one_dash :
    (name : String) → starts_with name "-" ≡ false → starts_with (concat "-" name) "--" ≡ false
one_dash name h = elim (Bool-cases (starts_with (concat "-" name) "--")) [
  | inl e ↦
      let (rest, same) = (starts_with_iff (concat "-" name) "--").0 e in
      let inner : concat "-" rest ≡ name =
        append_cancel_left "-" (concat "-" rest) name (sym (dashes rest) ∙ same) in
      absurd (
        ground (
          arith,
          h,
          subst (λ word. starts_with word "-" ≡ true) inner (starts_with-append "-" rest),
        ))
  | inr e ↦ e
]

no_dashes : (word : String) → starts_with word "-" ≡ false → starts_with word "--" ≡ false
no_dashes word h = elim (Bool-cases (starts_with word "--")) [
  | inl e ↦
      let (rest, same) = (starts_with_iff word "--").0 e in
      absurd (
        ground
          (arith, h, subst (λ word. starts_with word "-" ≡ true) same (starts_with-dashes rest)))
  | inr e ↦ e
]

lookup-operand :
    {E : Type 0} (word : String) (table : Table E)
    → starts_with word "-" ≡ false
    → lookup word (spelled "-" table) ≡ none
lookup-operand word [] h = refl
lookup-operand word ((k, e) ∷ table) h = elim (Bool-cases (str_eq (concat "-" k) word)) [
  | inl same ↦
      let equal : concat "-" k ≡ word = (eq_iff (concat "-" k) word).0 same in
      absurd (
        ground
          (arith, h, subst (λ word. starts_with word "-" ≡ true) equal (starts_with-append "-" k)))
  | inr other ↦ ground (arith, other, lookup-operand word table h)
]

lookup-unlisted :
    {E : Type 0} (name : String) (table : Table E)
    → All (λ e. starts_with e.0 name ≡ false) table
    → lookup name table ≡ none
lookup-unlisted name [] h = refl
lookup-unlisted name ((k, e) ∷ table) h = elim (Bool-cases (str_eq k name)) [
  | inl same ↦
      let equal : name ≡ k = sym ((eq_iff k name).0 same) in
      absurd (ground (arith, h.0, (starts_with_iff k name).1 ("", append-nil name ∙ equal)))
  | inr other ↦ ground (arith, other, lookup-unlisted name table h.1)
]

-- A letter is no dash.
among :
    (name : String) (words : List String)
    → any (λ word. str_eq word name) words ≡ true
    → any (λ word. starts_with word "-") words ≡ false
    → starts_with name "-" ≡ false
among name [] h k = absurd (ground arith)
among name (word ∷ words) h k = elim (Bool-cases (str_eq word name)) [
  | inl same ↦
      subst (λ word. starts_with word "-" ≡ false) ((eq_iff word name).0 same) (ground (arith, k))
  | inr other ↦ among name words (ground (arith, h, other)) (ground (arith, k))
]

letter_dash : (name : String) → is_short_name name ≡ true → starts_with name "-" ≡ false
letter_dash name h = among name letters h refl

module _ {V : Type 0} (unknown : V) (short long : Table (HasArg × V)) where
  known_long : (name : String) → known unknown short long (concat "--" name) ≡ lookup name long
  known_long name = rw (starts_with-append "--" name) (lookup-spelled "--" name long)

  known_short :
      (name : String)
      → starts_with name "-" ≡ false
      → known unknown short long (concat "-" name) ≡ lookup name short
  known_short name h = rw (one_dash name h) (lookup-spelled "-" name short)

  known_operand :
      (word : String) → starts_with word "-" ≡ false → known unknown short long word ≡ none
  known_operand word h = rw (no_dashes word h) (lookup-operand word short h)

  -- One word, with what is known of it and what follows.
  scan-word :
      (word : String) (rest : List String) (e : Option (HasArg × V))
      → known unknown short long word ≡ e
      → scan unknown short long none (word ∷ rest)
        ≡ react unknown short long e word
            (scan unknown short long none rest)
            (λ value. scan unknown short long (some value) rest)
  scan-word word rest e h =
      ap
        (λ e.
          react unknown short long e word (scan unknown short long none rest)
            (λ value. scan unknown short long (some value) rest))
        h

  scan-render :
      (items : List (Item V))
      → All (Suits short long) items
      → scan unknown short long none (render items) ≡ (found unknown items, operands items)
  scan-render [] h = refl
  scan-render (flag name value ∷ rest) h =
      scan-word (concat "--" name) (render rest) _ (known_long name ∙ h.0.0)
      ∙ ap (with_value unknown short long value "") (scan-render rest h.1)
  scan-render (short_flag name value ∷ rest) h =
      scan-word (concat "-" name) (render rest) _
        (known_short name (letter_dash name h.0.1) ∙ h.0.0)
      ∙ ap (with_value unknown short long value "") (scan-render rest h.1)
  scan-render (option name value text ∷ rest) h =
      scan-word (concat "--" name) (text ∷ render rest) _ (known_long name ∙ h.0.0)
      ∙ ap (with_value unknown short long value text) (scan-render rest h.1)
  scan-render (unlisted name ∷ rest) h =
      scan-word (concat "--" name) (render rest) _
        (known_long name ∙ lookup-unlisted name long h.0.0)
      ∙ rw (starts_with-dashes name)
          (ap (with_value unknown short long unknown "") (scan-render rest h.1))
  scan-render (operand text ∷ rest) h =
      scan-word text (render rest) _ (known_operand text h.0)
      ∙ rw h.0 (ap (λ r. (r.0, text ∷ r.1)) (scan-render rest h.1))

pub getopt-IsGetopt : IsGetopt getopt
getopt-IsGetopt = record {
  mixed = λ V unknown short long program items named h. scan-render unknown short long items h;
}
