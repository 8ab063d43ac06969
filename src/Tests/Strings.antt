-- ===== src/Tests/Strings.antt =====
-- A comparison of texts by the codes of their characters, like `xmlStrcmp`.
use Prim.Native.String.{[], ◌∷◌}
use Prim.Native.Char.{Char, code}
use text.Mathlib.TextEquality.{codes_equal}
use text.Mathlib.TextPositions.{compare_self}
use disnix.Prelude.{ℕ, String, Ordering, ◌≡◌, refl, subst, ltb, if◌then◌else◌, arith}
use disnix.Order.{or_else, flip, IsOrder}

abbrev compare_codes : ℕ → ℕ → Ordering
compare_codes m n = if ltb m n then Ordering.lt else if ltb n m then Ordering.gt else Ordering.eq

unfoldable pub strcmp : String → String → Ordering
strcmp [] [] = Ordering.eq
strcmp [] (d ∷ t) = Ordering.lt
strcmp (c ∷ s) [] = Ordering.gt
strcmp (c ∷ s) (d ∷ t) = let rest = strcmp s t in or_else (compare_codes (code c) (code d)) rest

same_char : (c d : Char) → code c ≡ code d → c ≡ d
same_char c d e =
    codes_equal c d
      (subst (λ n. Prim.Native.Nat.compare (code c) n ≡ Ordering.eq) e (compare_self (code c)))

strcmp_sound : (s t : String) → strcmp s t ≡ Ordering.eq → s ≡ t
unfolding strcmp
strcmp_sound [] [] e = refl
strcmp_sound [] (d ∷ t) e = absurd (ground arith)
strcmp_sound (c ∷ s) [] e = absurd (ground arith)
strcmp_sound (c ∷ s) (d ∷ t) e =
    let first : code c ≡ code d = ground arith in
    let rest = strcmp_sound s t (ground arith) in λ i. same_char c d first i ∷ rest i

strcmp_refl : (s : String) → strcmp s s ≡ Ordering.eq
unfolding strcmp
strcmp_refl [] = refl
strcmp_refl (c ∷ s) = ground (arith, strcmp_refl s)

strcmp-swapped : (s t : String) → strcmp t s ≡ flip (strcmp s t)
unfolding strcmp
strcmp-swapped [] [] = refl
strcmp-swapped [] (d ∷ t) = refl
strcmp-swapped (c ∷ s) [] = refl
strcmp-swapped (c ∷ s) (d ∷ t) = ground (arith, strcmp-swapped s t)

strcmp_trans :
    (s t u : String)
    → strcmp s t ≡ Ordering.lt
    → strcmp t u ≡ Ordering.lt
    → strcmp s u ≡ Ordering.lt
unfolding strcmp
strcmp_trans s [] [] e f = absurd (ground arith)
strcmp_trans s (d ∷ t) [] e f = absurd (ground arith)
strcmp_trans [] t (x ∷ u) e f = refl
strcmp_trans (c ∷ s) [] (x ∷ u) e f = absurd (ground arith)
strcmp_trans (c ∷ s) (d ∷ t) (x ∷ u) e f = ground (arith, strcmp_trans s t u)

pub strcmp-IsOrder : IsOrder strcmp
strcmp-IsOrder = record {
  eq_sound = strcmp_sound;
  eq_refl = strcmp_refl;
  swapped = strcmp-swapped;
  lt_trans = strcmp_trans;
}
