-- ===== src/Order.antt =====
-- Comparison functions in the manner of C: a `gint` result is read by its sign.
use disnix.Prelude.{
  Ordering, ◌≡◌, ◌≢◌, inl, inr, List, [], ◌∷◌, map, Bool, All, arith, filter, Bool-cases,
  All-filter, All-map, All-map_inv,
}

-- `status == 0 ? next : status`, the shape of every comparison function of the program.
abbrev pub or_else : Ordering → Ordering → Ordering
or_else Ordering.eq next = next
or_else status next = status

abbrev pub flip : Ordering → Ordering
flip Ordering.lt = Ordering.gt
flip Ordering.eq = Ordering.eq
flip Ordering.gt = Ordering.lt

-- What a comparison function must satisfy to sort and to search by it.
pub record IsOrder {ℓ} {A : Type ℓ} (cmp : A → A → Ordering) : Type ℓ where
  pub eq_sound : (x y : A) → cmp x y ≡ Ordering.eq → x ≡ y
  pub eq_refl : (x : A) → cmp x x ≡ Ordering.eq
  pub swapped : (x y : A) → cmp y x ≡ flip (cmp x y)
  pub lt_trans : (x y z : A) → cmp x y ≡ Ordering.lt → cmp y z ≡ Ordering.lt → cmp x z ≡ Ordering.lt

-- No element stands behind a greater one.
abbrev pub IsSorted {ℓ} : {A : Type ℓ} → (A → A → Ordering) → List A → Type ℓ
IsSorted cmp [] = Unit
IsSorted cmp (x ∷ xs) = All (λ y. cmp x y ≢ Ordering.gt) xs × IsSorted cmp xs

module _ {ℓ} {A : Type ℓ} {cmp : A → A → Ordering} (order : IsOrder cmp) where
  pub le_trans : (x y z : A) → cmp x y ≢ Ordering.gt → cmp y z ≢ Ordering.gt → cmp x z ≢ Ordering.gt
  le_trans x y z p q r =
      ground (arith, order.eq_sound x y, order.eq_sound y z, order.lt_trans x y z)

  -- An injective function carries an order back to its arguments.
  pub IsOrder-map {κ} :
      {B : Type κ} (f : B → A) → ((x y : B) → f x ≡ f y → x ≡ y) → IsOrder (λ x y. cmp (f x) (f y))
  IsOrder-map f injective = record {
    eq_sound = λ x y e. injective x y (order.eq_sound (f x) (f y) e);
    eq_refl = λ x. order.eq_refl (f x);
    swapped = λ x y. order.swapped (f x) (f y);
    lt_trans = λ x y z. order.lt_trans (f x) (f y) (f z);
  }

-- The lexicographic order of pairs.
pub IsOrder-or_else {ℓ κ} :
    {A : Type ℓ} {B : Type κ} {cmp : A → A → Ordering} {cmp' : B → B → Ordering}
    → IsOrder cmp
    → IsOrder cmp'
    → IsOrder {A = A × B} (λ p q. or_else (cmp p.0 q.0) (cmp' p.1 q.1))
IsOrder-or_else {cmp = cmp} {cmp' = cmp'} o o' = record {
  eq_sound = λ p q e. ground (arith, o.eq_sound p.0 q.0, o'.eq_sound p.1 q.1);
  eq_refl = λ p. ground (arith, o.eq_refl p.0, o'.eq_refl p.1);
  swapped = λ p q. ground (arith, o.swapped p.0 q.0, o'.swapped p.1 q.1);
  lt_trans = λ p q r h k. ground (
    arith,
    o.eq_sound p.0 q.0,
    o.eq_sound q.0 r.0,
    o.eq_refl p.0,
    o.lt_trans p.0 q.0 r.0,
    o'.lt_trans p.1 q.1 r.1,
  );
}

pub IsSorted-filter {ℓ} :
    {A : Type ℓ} (cmp : A → A → Ordering) (p : A → Bool) (xs : List A)
    → IsSorted cmp xs
    → IsSorted cmp (filter p xs)
IsSorted-filter cmp p [] h = tt
IsSorted-filter cmp p (x ∷ xs) h = elim (Bool-cases (p x)) [
  | inl e ↦ rw e (All-filter (λ y. cmp x y ≢ Ordering.gt) p xs h.0, IsSorted-filter cmp p xs h.1)
  | inr e ↦ rw e (IsSorted-filter cmp p xs h.1)
]

-- Sorting by a key sorts the keys.
pub IsSorted-map {ℓ κ} :
    {A : Type ℓ} {B : Type κ} (cmp : B → B → Ordering) (f : A → B) (xs : List A)
    → IsSorted (λ x y. cmp (f x) (f y)) xs
    → IsSorted cmp (map f xs)
IsSorted-map cmp f [] h = tt
IsSorted-map cmp f (x ∷ xs) h =
    (All-map (λ y. cmp (f x) y ≢ Ordering.gt) f xs h.0, IsSorted-map cmp f xs h.1)

pub IsSorted-map_inv {ℓ κ} :
    {A : Type ℓ} {B : Type κ} (cmp : B → B → Ordering) (f : A → B) (xs : List A)
    → IsSorted cmp (map f xs)
    → IsSorted (λ x y. cmp (f x) (f y)) xs
IsSorted-map_inv cmp f [] h = tt
IsSorted-map_inv cmp f (x ∷ xs) h =
    (All-map_inv (λ y. cmp (f x) y ≢ Ordering.gt) f xs h.0, IsSorted-map_inv cmp f xs h.1)
