-- ===== src/Traverse/Consistency.antt =====
-- The invariant of a traversal of src/libmanifest/servicemapping-traverse.c, and changes of a status.
use disnix.Prelude.{
  ℕ, zero, suc, ◌==◌, ◌≡◌, ◌≢◌, refl, sym, inl, inr, Bool, Option, none, some, List, [], ◌∷◌, Memᴰ,
  lookup, get_elem?, All, All-filter, filter, not, Bool-cases, arith, if◌then◌else◌,
}
use disnix.Platform.{Platform}
use disnix.Model.{
  InterDependencyMapping, ServiceMapping, ServiceMappingStatus, deactivated, in_progress, activated,
  ManifestService, compare_interdependency_mappings,
}
use disnix.ServiceMappings.{keys}
use disnix.Traverse.{Context}
use disnix.Traverse.State.{TraverseState, status_at, set_status, lookup_pid, remove_pid}

-- The position at which a key is found in an array with these keys.
abbrev pub find_key : Platform → List InterDependencyMapping → InterDependencyMapping → Option ℕ
find_key p ks key = p.bsearch InterDependencyMapping (compare_interdependency_mappings p) key ks

-- The mapping at position `i` has an inter-dependency that is found at position `j`.
pub record DependsOn (c : Context) (ks : List InterDependencyMapping) (i j : ℕ) : Type 0 where
  pub key : InterDependencyMapping
  pub at : get_elem? ks i ≡ some key
  pub service : ManifestService
  pub defined : lookup key.service c.services_table ≡ some service
  pub dependency : InterDependencyMapping
  pub listed : Memᴰ dependency service.depends_on
  pub position : find_key c.platform ks dependency ≡ some j

status_at-set_status :
    (arr : List ServiceMapping) (n i : ℕ) (status : ServiceMappingStatus)
    → status_at (set_status arr n status) i ≡ (
        if n == i
        then elim (status_at arr i) [ none ↦ none | some _ ↦ some status ]
        else status_at arr i)
status_at-set_status [] n i status = ground arith
status_at-set_status (m ∷ arr) zero zero status = refl
status_at-set_status (m ∷ arr) zero (suc i) status = ground arith
status_at-set_status (m ∷ arr) (suc n) zero status = ground arith
status_at-set_status (m ∷ arr) (suc n) (suc i) status =
    ground (arith, status_at-set_status arr n i status)

pub status_at-set_self :
    (arr : List ServiceMapping) (n : ℕ) (status : ServiceMappingStatus) {old : ServiceMappingStatus}
    → status_at arr n ≡ some old
    → status_at (set_status arr n status) n ≡ some status
status_at-set_self arr n status h = ground (arith, status_at-set_status arr n n status)

pub status_at-set_ne :
    (arr : List ServiceMapping) (n i : ℕ) (status : ServiceMappingStatus)
    → n ≢ i
    → status_at (set_status arr n status) i ≡ status_at arr i
status_at-set_ne arr n i status h = ground (arith, status_at-set_status arr n i status)

pub keys-set_status :
    (arr : List ServiceMapping) (n : ℕ) (status : ServiceMappingStatus)
    → keys (set_status arr n status) ≡ keys arr
keys-set_status [] n status = refl
keys-set_status (m ∷ arr) zero status = refl
keys-set_status (m ∷ arr) (suc n) status = rw (keys-set_status arr n status)

-- What is not deactivated has all its dependencies activated.
abbrev pub IsConsistent : Context → List InterDependencyMapping → List ServiceMapping → Type 0
IsConsistent c ks arr =
    (i j : ℕ)
    → DependsOn c ks i j
    → (status : ServiceMappingStatus) → status_at arr i ≡ some status
    → status ≢ deactivated
    → status_at arr j ≡ some activated

module _ {c : Context} {ks : List InterDependencyMapping} (arr : List ServiceMapping) (n : ℕ)
    (status : ServiceMappingStatus) (consistent : IsConsistent c ks arr) where
  -- A change of one status keeps the invariant, if it suits the mappings on both sides.
  pub IsConsistent-set_status :
      ((j : ℕ)
        → DependsOn c ks n j
        → status ≢ deactivated
        → (n ≢ j) × (status_at arr j ≡ some activated))
      → ((i : ℕ)
          → DependsOn c ks i n
          → n ≢ i
          → (old : ServiceMappingStatus) → status_at arr i ≡ some old
          → old ≢ deactivated
          → status ≡ activated)
      → IsConsistent c ks (set_status arr n status)
  IsConsistent-set_status below above i j d st e h = elim (Bool-cases (n == i)) [
    | inl same ↦
        let same' : n ≡ i = ground arith in
        let here = below j (rw same' d) in
        ground
          (arith, status_at-set_status arr n i status, status_at-set_status arr n j status, here)
    | inr other ↦
        let other' : n ≢ i = ground arith in
        let before : status_at arr i ≡ some st = ground (arith, status_at-set_ne arr n i status) in
        let old = consistent i j d st before h in
        elim (Bool-cases (n == j)) [
          | inl same ↦
              let same' : n ≡ j = ground arith in
              ground (
                arith,
                above i (rw same' d) other' st before h,
                old,
                status_at-set_status arr n j status,
                status_at-set_status arr n i status,
              )
          | inr ne ↦ ground (arith, old, status_at-set_status arr n j status)
        ]
  ]

-- Each entry of the pid table stands for a mapping of its own, which is in progress.
abbrev pub Tracks : List ServiceMapping → List (ℕ × ℕ) → Type 0
Tracks arr [] = Unit
Tracks arr ((pid, i) ∷ table) =
    (status_at arr i ≡ some in_progress) × All (λ e. e.1 ≢ i) table × Tracks arr table

module _ (arr : List ServiceMapping) where
  pub Tracks-filter :
      (test : ℕ × ℕ → Bool) (table : List (ℕ × ℕ))
      → Tracks arr table
      → Tracks arr (filter test table)
  Tracks-filter test [] h = tt
  Tracks-filter test ((pid, i) ∷ table) h = elim (Bool-cases (test (pid, i))) [
    | inl e ↦ rw e (h.0, All-filter (λ e. e.1 ≢ i) test table h.1, Tracks-filter test table h.2)
    | inr e ↦ rw e (Tracks-filter test table h.2)
  ]

  -- A mapping that is not in progress has no entry.
  pub Tracks-fresh :
      (table : List (ℕ × ℕ)) (n : ℕ) {status : ServiceMappingStatus}
      → Tracks arr table
      → status_at arr n ≡ some status
      → status ≢ in_progress
      → All (λ e. e.1 ≢ n) table
  Tracks-fresh [] n t e h = tt
  Tracks-fresh ((pid, i) ∷ table) n t e h = (λ same. ground arith, Tracks-fresh table n t.2 e h)

  pub Tracks-set_status :
      (table : List (ℕ × ℕ)) (n : ℕ) (status : ServiceMappingStatus)
      → Tracks arr table
      → All (λ e. e.1 ≢ n) table
      → Tracks (set_status arr n status) table
  Tracks-set_status [] n status t h = tt
  Tracks-set_status ((pid, i) ∷ table) n status t h = (
    ground (arith, status_at-set_ne arr n i status, h.0),
    t.1,
    Tracks-set_status table n status t.2 h.1,
  )

  listed_ne :
      (table : List (ℕ × ℕ)) (pid : ℕ) (j : ℕ) {i : ℕ}
      → All (λ e. e.1 ≢ j) table
      → lookup_pid pid table ≡ some i
      → i ≢ j
  listed_ne [] pid j h e = cc
  listed_ne ((q, k) ∷ table) pid j {i} h e = elim (Bool-cases (q == pid)) [
    | inl same ↦ λ x. h.0 (ground arith)
    | inr other ↦ listed_ne table pid j {i = i} h.1 (ground arith)
  ]

  -- The entry of a pid is in progress, and no other entry has its mapping.
  pub Tracks-lookup :
      (table : List (ℕ × ℕ)) (pid : ℕ) {i : ℕ}
      → Tracks arr table
      → lookup_pid pid table ≡ some i
      → (status_at arr i ≡ some in_progress) × All (λ e. e.1 ≢ i) (remove_pid pid table)
  Tracks-lookup [] pid t e = cc
  Tracks-lookup ((q, j) ∷ table) pid {i} t e = elim (Bool-cases (q == pid)) [
    | inl same ↦
        let e' : j ≡ i = ground arith in
        rw (← e', same) (t.0, All-filter (λ e. e.1 ≢ j) (λ e. not (e.0 == pid)) table t.1)
    | inr other ↦
        let found = Tracks-lookup table pid {i = i} t.2 (ground arith) in
        rw other
          (found.0, (λ same. listed_ne table pid j {i = i} t.1 (ground arith) (sym same), found.1))
  ]

-- The invariant of a traversal over an array with these keys.
pub record Inv (c : Context) (ks : List InterDependencyMapping) (s : TraverseState) : Type 0 where
  pub same_keys : keys s.mappings ≡ ks
  pub consistent : IsConsistent c ks s.mappings
  pub tracked : Tracks s.mappings s.pid_table
