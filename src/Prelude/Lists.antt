-- ===== src/Prelude/Lists.antt =====
-- Lists indexed by native numbers, association lists keyed by text, and predicates on lists.
use Prim.Native.Nat.{ℕ, zero, suc}
use Prim.Native.String.{String}
use mathlib.Core.Path.{◌≡◌, refl, sym, ap, subst}
use mathlib.Core.Logic.{inl, inr}
use mathlib.Core.Bool.{Bool, true, false, ◌||◌, ◌&&◌}
use mathlib.Core.List.{List, [], ◌∷◌, map, Memᴰ}
use mathlib.Core.Option
use mathlib.Core.Option.{Option, none, some, some-injective}
use native.Mathlib.Omega.{arith}
use text.Mathlib.Text.{◌==◌ as str_eq}
use disnix.Prelude.Tests.{if◌then◌else◌, Bool-cases}

module _ {ℓ} {A : Type ℓ} where
  abbrev pub length : List A → ℕ
  length [] = 0
  length (x ∷ xs) = suc (length xs)

  abbrev pub get_elem? : List A → ℕ → Option A
  get_elem? [] i = none
  get_elem? (x ∷ xs) zero = some x
  get_elem? (x ∷ xs) (suc i) = get_elem? xs i

  -- The element at a position changed by a function; out of bounds nothing changes.
  abbrev pub modify : List A → ℕ → (A → A) → List A
  modify [] i f = []
  modify (x ∷ xs) zero f = f x ∷ xs
  modify (x ∷ xs) (suc i) f = x ∷ modify xs i f

  abbrev pub any : (A → Bool) → List A → Bool
  any p [] = false
  any p (x ∷ xs) = p x || any p xs

  abbrev pub All {κ} : (A → Type κ) → List A → Type κ
  All P [] = Unit
  All P (x ∷ xs) = P x × All P xs

  abbrev pub lookup : String → List (String × A) → Option A
  lookup k [] = none
  lookup k ((j, v) ∷ m) = if str_eq j k then some v else lookup k m

module _ {ℓ} {A : Type ℓ} where
  -- The elements that pass a test, in their order.
  abbrev pub filter : (A → Bool) → List A → List A
  filter p [] = []
  filter p (x ∷ xs) = let rest = filter p xs in if p x then x ∷ rest else rest

  pub All-filter {κ} :
      (P : A → Type κ) (p : A → Bool) (xs : List A) → All P xs → All P (filter p xs)
  All-filter P p [] h = tt
  All-filter P p (x ∷ xs) h = elim (Bool-cases (p x)) [
    | inl e ↦ rw e (h.0, All-filter P p xs h.1)
    | inr e ↦ rw e (All-filter P p xs h.1)
  ]

  pub All-weaken {κ μ} :
      (P : A → Type κ) (Q : A → Type μ)
      → ((x : A) → P x → Q x)
      → (xs : List A) → All P xs
      → All Q xs
  All-weaken P Q f [] h = tt
  All-weaken P Q f (x ∷ xs) h = (f x h.0, All-weaken P Q f xs h.1)

  pub any-filter : (p q : A → Bool) (xs : List A) → any q (filter p xs) ≡ any (λ x. p x && q x) xs
  any-filter p q [] = refl
  any-filter p q (x ∷ xs) = ground (arith, any-filter p q xs)

  pub All_at {κ} :
      (P : A → Type κ) (xs : List A) (i : ℕ) (x : A) → get_elem? xs i ≡ some x → All P xs → P x
  All_at P [] i x e h = cc
  All_at P (y ∷ ys) zero x e h = subst P (cc) h.0
  All_at P (y ∷ ys) (suc i) x e h = All_at P ys i x e h.1

  pub any_at :
      (p : A → Bool) (xs : List A) (i : ℕ) (x : A)
      → get_elem? xs i ≡ some x
      → p x ≡ true
      → any p xs ≡ true
  any_at p [] i x e h = cc
  any_at p (y ∷ ys) zero x e h = ground arith
  any_at p (y ∷ ys) (suc i) x e h = ground (arith, any_at p ys i x e h)

  -- Where a test passes, it passes at a position.
  pub any_position :
      (p : A → Bool) (xs : List A)
      → any p xs ≡ true
      → (i : ℕ) × (x : A) × (get_elem? xs i ≡ some x) × (p x ≡ true)
  any_position p [] h = cc
  any_position p (y ∷ ys) h = elim (Bool-cases (p y)) [
    | inl e ↦ (0, y, refl, e)
    | inr e ↦ let (i, x, at, e') = any_position p ys (rw e at h) in (suc i, x, at, e')
  ]

module _ {ℓ κ} {A : Type ℓ} {B : Type κ} where
  pub any-map : (f : A → B) (p : B → Bool) (xs : List A) → any p (map f xs) ≡ any (λ x. p (f x)) xs
  any-map f p [] = refl
  any-map f p (x ∷ xs) = rw (any-map f p xs)

  pub get_elem?-map :
      (f : A → B) (xs : List A) (i : ℕ) {x : A}
      → get_elem? xs i ≡ some x
      → get_elem? (map f xs) i ≡ some (f x)
  get_elem?-map f [] i e = cc
  get_elem?-map f (y ∷ ys) zero e = ap (Option.map f) e
  get_elem?-map f (y ∷ ys) (suc i) e = get_elem?-map f ys i e

  pub get_elem?-map_inv :
      (f : A → B) (xs : List A) (i : ℕ) {y : B}
      → get_elem? (map f xs) i ≡ some y
      → (x : A) × (get_elem? xs i ≡ some x) × (f x ≡ y)
  get_elem?-map_inv f [] i e = cc
  get_elem?-map_inv f (x ∷ xs) zero e = (x, refl, cc)
  get_elem?-map_inv f (x ∷ xs) (suc i) e = get_elem?-map_inv f xs i e

  pub All-map {μ} :
      (P : B → Type μ) (f : A → B) (xs : List A) → All (λ x. P (f x)) xs → All P (map f xs)
  All-map P f [] h = tt
  All-map P f (x ∷ xs) h = (h.0, All-map P f xs h.1)

  pub All-map_inv {μ} :
      (P : B → Type μ) (f : A → B) (xs : List A) → All P (map f xs) → All (λ x. P (f x)) xs
  All-map_inv P f [] h = tt
  All-map_inv P f (x ∷ xs) h = (h.0, All-map_inv P f xs h.1)

pub All_mem {ℓ κ} : {A : Type ℓ} (P : A → Type κ) {x : A} {xs : List A} → All P xs → Memᴰ x xs → P x
All_mem P h (Memᴰ.head e) = subst P (sym e) h.0
All_mem P h (Memᴰ.tail m) = All_mem P h.1 m
