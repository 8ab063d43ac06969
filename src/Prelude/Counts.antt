-- ===== src/Prelude/Counts.antt =====
-- How many elements of a list pass a test.
use Prim.Native.Nat.{ℕ, zero, suc, ◌+◌, ◌≤◌}
use mathlib.Core.Path.{◌≡◌, refl, ap, ◌∙◌}
use mathlib.Core.Logic.{∥∥₁_elim}
use mathlib.Core.Bool.{Bool, true, false}
use mathlib.Core.List.{List, [], ◌∷◌, ◌++◌, Perm, Permᴰ}
use mathlib.Core.Option.{some}
use native.Mathlib.Omega.{arith}
use native.Mathlib.Nat.{ℕ_set}
use disnix.Prelude.Tests.{if◌then◌else◌}
use disnix.Prelude.Lists.{any, get_elem?, any_at}

module _ {ℓ} {A : Type ℓ} where
  abbrev pub count : (A → Bool) → List A → ℕ
  count p [] = 0
  count p (x ∷ xs) = let rest = count p xs in if p x then suc rest else rest

  module _ (p : A → Bool) where
    count-permᴰ : {xs ys : List A} → Permᴰ xs ys → count p xs ≡ count p ys
    count-permᴰ Permᴰ.nil = refl
    count-permᴰ (Permᴰ.cons e h) = ground (arith, count-permᴰ h)
    count-permᴰ (Permᴰ.swap {l = l} e e') = ground arith
    count-permᴰ (Permᴰ.trans h k) = count-permᴰ h ∙ count-permᴰ k

    pub count-perm : {xs ys : List A} → Perm xs ys → count p xs ≡ count p ys
    count-perm h = ∥∥₁_elim h (ℕ_set _ _) count-permᴰ

    pub count-append : (xs ys : List A) → count p (xs ++ ys) ≡ count p xs + count p ys
    count-append [] ys = omega arith
    count-append (x ∷ xs) ys = ground (arith, count-append xs ys)

    pub count-any : (xs : List A) → any p xs ≡ false → count p xs ≡ 0
    count-any [] h = refl
    count-any (x ∷ xs) h = ground (arith, count-any xs)

    pub count_pos : (xs : List A) → any p xs ≡ true → 1 ≤ count p xs
    count_pos [] h = cc
    count_pos (x ∷ xs) h = ground (arith, count_pos xs)

    -- A test that at most one element passes, passes at one position.
    pub count_position :
        (xs : List A) (i j : ℕ) {x y : A}
        → count p xs ≤ 1
        → get_elem? xs i ≡ some x
        → p x ≡ true
        → get_elem? xs j ≡ some y
        → p y ≡ true
        → i ≡ j
    count_position [] i j h e a f b = cc
    count_position (z ∷ zs) zero zero h e a f b = refl
    count_position (z ∷ zs) zero (suc j) {y = y} h e a f b =
        ground (arith, count_pos zs, any_at p zs j y f b)
    count_position (z ∷ zs) (suc i) zero {x = x} h e a f b =
        ground (arith, count_pos zs, any_at p zs i x e a)
    count_position (z ∷ zs) (suc i) (suc j) {x = x} {y = y} h e a f b =
        ap suc (count_position zs i j {x = x} {y = y} (ground arith) e a f b)
