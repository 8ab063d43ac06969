-- ===== src/Tests/Checks.antt =====
-- Tests that decide the conditions of the theorems on a concrete configuration.
use disnix.Prelude.{
  ◌≡◌, refl, sym, subst, ap, String, str_eq, Bool, true, false, ◌&&◌, not, Option, none, some, List,
  [], ◌∷◌, lookup, any_position, All, All_at, All_mem, arith, Bool-cases, inl, inr,
}
use disnix.Order.{IsSorted}
use disnix.Platform.{Platform, Table}
use disnix.Model.{
  InterDependencyMapping, ServiceMapping, ManifestService, as_dependency,
  compare_interdependency_mappings,
}
use disnix.Model.Keys.{same_dependency, same_dependency_iff}
use disnix.ServiceMappings.{keys}
use disnix.ServiceMappings.Lookup.{has_key}
use disnix.ServiceMappings.Unique.{occurrences, IsUnique}
use disnix.Transition.Upgrade.{IsClosed, HasSortedDependencies}

abbrev pub all_unique : List ServiceMapping → Bool
all_unique [] = true
all_unique (m ∷ rest) = not (has_key (as_dependency m) rest) && all_unique rest

absent_occurrences :
    (key : InterDependencyMapping) (arr : List ServiceMapping)
    → has_key key arr ≡ false
    → occurrences key arr ≡ 0
absent_occurrences key [] h = refl
absent_occurrences key (m ∷ arr) h = ground (arith, absent_occurrences key arr)

pub all_unique-IsUnique : (arr : List ServiceMapping) → all_unique arr ≡ true → IsUnique arr
all_unique-IsUnique [] h key = omega arith
all_unique-IsUnique (m ∷ rest) h key = elim (Bool-cases (same_dependency key (as_dependency m))) [
  | inl e ↦
      let same : key ≡ as_dependency m = (same_dependency_iff key (as_dependency m)).0 e in
      let none_left = absent_occurrences (as_dependency m) rest (ground arith) in
      let none_left' : occurrences key rest ≡ 0 =
        subst (λ k. occurrences k rest ≡ 0) (sym same) none_left in
      ground arith
  | inr e ↦ ground (arith, all_unique-IsUnique rest (ground arith) key)
]

abbrev pub dependencies_in : Option ManifestService → List InterDependencyMapping
dependencies_in none = []
dependencies_in (some s) = s.depends_on

abbrev pub dependencies_of : Table ManifestService → String → List InterDependencyMapping
dependencies_of services name = dependencies_in (lookup name services)

pub IsClosed-check :
    (services : Table ManifestService) (arr : List ServiceMapping)
    → All (λ key. All (λ d. has_key d arr ≡ true) (dependencies_of services key.service)) (keys arr)
    → IsClosed services arr
IsClosed-check services arr all key dependency service held defined listed =
    let (n, key', at, same) = any_position (same_dependency key) (keys arr) held in
    let same' : key ≡ key' = (same_dependency_iff key key').0 same in
    let dependencies : dependencies_of services key'.service ≡ service.depends_on =
      rw (← same') (ap dependencies_in defined) in
    All_mem (λ d. has_key d arr ≡ true)
      (subst (All (λ d. has_key d arr ≡ true)) dependencies (All_at _ (keys arr) n key' at all))
      listed

pub sorted-HasSortedDependencies :
    (p : Platform) (services : Table ManifestService)
    → All (λ e. IsSorted (compare_interdependency_mappings p) e.1.depends_on) services
    → HasSortedDependencies p services
sorted-HasSortedDependencies p [] h name service e = cc
sorted-HasSortedDependencies p ((k, s) ∷ rest) h name service e =
    elim (Bool-cases (str_eq k name)) [
      | inl same ↦
          let found : s ≡ service = ground arith in
          subst
            (λ (x : ManifestService). IsSorted (compare_interdependency_mappings p) x.depends_on)
            found h.0
      | inr other ↦ sorted-HasSortedDependencies p rest h.1 name service (rw other at e)
    ]

-- What holds of each entry of a table holds of what is found in it.
pub lookup-All :
    {V : Type 0} (P : V → Type 0) (table : Table V)
    → All (λ e. P e.1) table
    → (name : String) (target : V) → lookup name table ≡ some target
    → P target
lookup-All P [] h name target e = absurd (ground arith)
lookup-All P ((k, t) ∷ rest) h name target e = elim (Bool-cases (str_eq k name)) [
  | inl same ↦ let found : t ≡ target = ground arith in subst P found h.0
  | inr other ↦ lookup-All P rest h.1 name target (rw other at e)
]
