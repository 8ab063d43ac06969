-- ===== src/Tests/Sorting.antt =====
-- Insertion sort and a linear search, in the place of `g_ptr_array_sort` and `bsearch`.
use mathlib.Core.List.Permᴰ
use mathlib.Core.List.{Perm, Permᴰ}
use disnix.Prelude.{
  ℕ, zero, suc, Ordering, ◌≡◌, ◌≢◌, refl, subst, List, [], ◌∷◌, Option, none, some, get_elem?, All,
  arith, if◌then◌else◌, Bool, true, false, Bool-cases, inl, inr,
}
use disnix.Order.{IsSorted, flip}

abbrev is_gt : Ordering → Bool
is_gt Ordering.gt = true
is_gt Ordering.eq = false
is_gt Ordering.lt = false

abbrev is_eq : Ordering → Bool
is_eq Ordering.eq = true
is_eq Ordering.gt = false
is_eq Ordering.lt = false

module _ {A : Type 0} (cmp : A → A → Ordering) where
  unfoldable pub insert : A → List A → List A
  insert x [] = x ∷ []
  insert x (y ∷ ys) = let rest = insert x ys in if is_gt (cmp x y) then y ∷ rest else x ∷ y ∷ ys

  unfoldable pub insertion_sort : List A → List A
  insertion_sort [] = []
  insertion_sort (x ∷ xs) = insert x (insertion_sort xs)

  unfoldable pub linear_search : A → List A → Option ℕ
  linear_search key [] = none
  linear_search key (x ∷ xs) =
      let rest = linear_search key xs in
      if is_eq (cmp key x) then some 0 else elim rest [ none ↦ none | some i ↦ some (suc i) ]

  insert-permᴰ : (x : A) (ys : List A) → Permᴰ (insert x ys) (x ∷ ys)
  unfolding insert
  insert-permᴰ x [] = Permᴰ.refl (x ∷ [])
  insert-permᴰ x (y ∷ ys) = elim (Bool-cases (is_gt (cmp x y))) [
    | inl e ↦ rw e (Permᴰ.trans (Permᴰ.cons refl (insert-permᴰ x ys)) (Permᴰ.swap refl refl))
    | inr e ↦ rw e (Permᴰ.refl (x ∷ y ∷ ys))
  ]

  sort-permᴰ : (xs : List A) → Permᴰ (insertion_sort xs) xs
  unfolding insertion_sort
  sort-permᴰ [] = Permᴰ.refl []
  sort-permᴰ (x ∷ xs) =
      Permᴰ.trans (insert-permᴰ x (insertion_sort xs)) (Permᴰ.cons refl (sort-permᴰ xs))

  pub insertion_sort-perm : (xs : List A) → Perm (insertion_sort xs) xs
  insertion_sort-perm xs = ∣ sort-permᴰ xs ∣₁

  pub linear_search_found :
      (key : A) (l : List A) (i : ℕ)
      → linear_search key l ≡ some i
      → (x : A) × (get_elem? l i ≡ some x) × (cmp key x ≡ Ordering.eq)
  unfolding linear_search
  linear_search_found key [] i e = absurd (ground arith)
  linear_search_found key (x ∷ xs) zero e = (x, refl, ground arith)
  linear_search_found key (x ∷ xs) (suc i) e = linear_search_found key xs i (ground arith)

  pub linear_search_missing :
      (key : A) (l : List A)
      → linear_search key l ≡ none
      → (i : ℕ) (x : A) → get_elem? l i ≡ some x
      → cmp key x ≢ Ordering.eq
  unfolding linear_search
  linear_search_missing key [] e i x at = cc
  linear_search_missing key (y ∷ ys) e zero x at =
      let same : y ≡ x = cc in
      let equal_ne : cmp key y ≢ Ordering.eq = λ e'. ground arith in
      subst (λ z. cmp key z ≢ Ordering.eq) same equal_ne
  linear_search_missing key (y ∷ ys) e (suc i) x at =
      linear_search_missing key ys (ground arith) i x at

  module _
      (trans : (x y z : A) → cmp x y ≢ Ordering.gt → cmp y z ≢ Ordering.gt → cmp x z ≢ Ordering.gt)
      (swapped : (x y : A) → cmp y x ≡ flip (cmp x y)) where
    All-insert : (P : A → Type 0) (x : A) (ys : List A) → P x → All P ys → All P (insert x ys)
    unfolding insert
    All-insert P x [] h k = (h, k)
    All-insert P x (y ∷ ys) h k = elim (Bool-cases (is_gt (cmp x y))) [
      | inl e ↦ rw e (k.0, All-insert P x ys h k.1)
      | inr e ↦ rw e (h, k)
    ]

    All-trans :
        (x y : A) (zs : List A)
        → cmp x y ≢ Ordering.gt
        → All (λ z. cmp y z ≢ Ordering.gt) zs
        → All (λ z. cmp x z ≢ Ordering.gt) zs
    All-trans x y [] h k = tt
    All-trans x y (z ∷ zs) h k = (trans x y z h k.0, All-trans x y zs h k.1)

    insert-IsSorted : (x : A) (ys : List A) → IsSorted cmp ys → IsSorted cmp (insert x ys)
    unfolding insert
    insert-IsSorted x [] h = (tt, tt)
    insert-IsSorted x (y ∷ ys) h = elim (Bool-cases (is_gt (cmp x y))) [
      | inl e ↦ rw e (
        All-insert (λ z. cmp y z ≢ Ordering.gt) x ys (λ f. ground (arith, swapped x y)) h.0,
        insert-IsSorted x ys h.1,
      )
      | inr e ↦
          let below : cmp x y ≢ Ordering.gt = λ f. ground arith in
          rw e ((below, All-trans x y ys below h.0), h)
    ]

    pub insertion_sort-IsSorted : (xs : List A) → IsSorted cmp (insertion_sort xs)
    unfolding insertion_sort
    insertion_sort-IsSorted [] = tt
    insertion_sort-IsSorted (x ∷ xs) =
        insert-IsSorted x (insertion_sort xs) (insertion_sort-IsSorted xs)
