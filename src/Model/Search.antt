-- ===== src/Model/Search.antt =====
-- `bsearch` on a sorted array of keys, compared with a linear search.
use disnix.Prelude.{
  ℕ, Ordering, ◌≡◌, ◌↔◌, refl, some, none, get_elem?, sym, subst, Bool, true, List, any, any_at,
  any_position, is_some, not_true, Option-cases, inl, inr,
}
use disnix.Order.{IsOrder, IsSorted}
use disnix.Platform.{Platform, IsPlatform}

module _ {p : Platform} (laws : IsPlatform p) {K : Type 0} {cmp : K → K → Ordering}
    (order : IsOrder cmp) (same : K → K → Bool) (same_iff : (j k : K) → (same j k ≡ true) ↔ (j ≡ k))
    (key : K) (l : List K) (sorted : IsSorted cmp l) where
  absent : p.bsearch K cmp key l ≡ none → ¬ (any (same key) l ≡ true)
  absent e h =
      let (i, x, at, equal) = any_position (same key) l h in
      laws.bsearch_missing K cmp key l order sorted e i x at
        (subst (λ y. cmp key y ≡ Ordering.eq) ((same_iff key x).0 equal) (order.eq_refl key))

  pub bsearch_at : (i : ℕ) → p.bsearch K cmp key l ≡ some i → get_elem? l i ≡ some key
  bsearch_at i e =
      let (x, at, equal) = laws.bsearch_found K cmp key l i order sorted e in
      rw (order.eq_sound key x equal) at

  pub is_some-bsearch : is_some (p.bsearch K cmp key l) ≡ any (same key) l
  is_some-bsearch = elim (Option-cases (p.bsearch K cmp key l)) [
    | inl e ↦ rw e (sym (not_true (any (same key) l) (absent e)))
    | inr (i, e) ↦
        rw e (sym (any_at (same key) l i key (bsearch_at i e) ((same_iff key key).1 refl)))
  ]
