-- ===== src/Prelude/Perm.antt =====
-- What a permutation leaves alone.
use mathlib.Core.Path.{◌≡◌, refl, ◌∙◌}
use mathlib.Core.Logic.{∥∥₁_elim}
use mathlib.Core.Bool.{Bool, ◌||◌, Bool-set}
use mathlib.Core.List.{List, [], ◌∷◌, ◌++◌, Perm, Permᴰ}
use native.Mathlib.Omega.{arith}
use disnix.Prelude.Lists.{any}

module _ {ℓ} {A : Type ℓ} (p : A → Bool) where
  any-permᴰ : {xs ys : List A} → Permᴰ xs ys → any p xs ≡ any p ys
  any-permᴰ Permᴰ.nil = refl
  any-permᴰ (Permᴰ.cons e h) = ground (arith, any-permᴰ h)
  any-permᴰ (Permᴰ.swap {l = l} e e') = ground arith
  any-permᴰ (Permᴰ.trans h k) = any-permᴰ h ∙ any-permᴰ k

  pub any-perm : {xs ys : List A} → Perm xs ys → any p xs ≡ any p ys
  any-perm h = ∥∥₁_elim h (Bool-set _ _) any-permᴰ

  pub any-append : (xs ys : List A) → any p (xs ++ ys) ≡ (any p xs || any p ys)
  any-append [] ys = refl
  any-append (x ∷ xs) ys = ground (arith, any-append xs ys)
