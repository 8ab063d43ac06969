-- ===== src/Traverse/Running.antt =====
-- src/libmanifest/servicemapping-traverse.c: the pid table, and the processes that run on a target.
use disnix.Prelude.{
  ℕ, suc, ◌≤◌, ◌==◌, ◌≡◌, ◌≢◌, refl, sym, ap, subst, ◌∙◌, inl, inr, Bool, true, false, not, Option,
  none, some, List, [], ◌∷◌, String, str_eq, eq_iff, Memᴰ, lookup, get_elem?, any, count, All,
  All-filter, Bool-cases, arith, if◌then◌else◌,
}
use disnix.Platform.{Table}
use disnix.Model.{InterDependencyMapping, Target}
use disnix.Traverse.State.{modify_target, lookup_pid, remove_pid, reap}

-- Whether a pid is among the children.
abbrev pub is_child : ℕ → List ℕ → Bool
is_child pid = any (λ q. q == pid)

abbrev pub is_target : String → Option InterDependencyMapping → Bool
is_target name none = false
is_target name (some key) = str_eq key.target name

-- The processes of the pid table that work on a target.
abbrev pub running : List InterDependencyMapping → String → List (ℕ × ℕ) → ℕ
running ks name = count (λ e. is_target name (get_elem? ks e.1))

-- No two entries have one pid.
abbrev pub Distinct : List (ℕ × ℕ) → Type 0
Distinct [] = Unit
Distinct (e ∷ table) = All (λ f. (f.0 == e.0) ≡ false) table × Distinct table

pub lookup-modify_target :
    (name other : String) (f : Target → Target) (targets : Table Target)
    → lookup other (modify_target name f targets) ≡ (
        if str_eq name other
        then elim (lookup other targets) [ none ↦ none | some t ↦ some (f t) ]
        else lookup other targets)
lookup-modify_target name other f [] = ground arith
lookup-modify_target name other f ((k, t) ∷ targets) = ground (
  arith,
  lookup-modify_target name other f targets,
  eq_iff k name,
  eq_iff k other,
  eq_iff name other,
)

pub is_child-fresh :
    (pid : ℕ) (children : List ℕ) → ¬ Memᴰ pid children → is_child pid children ≡ false
is_child-fresh pid [] h = refl
is_child-fresh pid (q ∷ children) h =
    ground (arith, is_child-fresh pid children (λ m. h (Memᴰ.tail m)), other)
  where
    other : ¬ (q ≡ pid)
    other e = h (Memᴰ.head (sym e))

pub is_child-reap :
    (pid q : ℕ) (children : List ℕ)
    → (q == pid) ≡ false
    → is_child q children ≡ true
    → is_child q (reap pid children) ≡ true
is_child-reap pid q [] ne h = cc
is_child-reap pid q (r ∷ children) ne h = ground (arith, is_child-reap pid q children ne)

-- A pid that is no child is not in the table, if the pids of the table are children.
pub unused_pid :
    (pid : ℕ) (children : List ℕ) (table : List (ℕ × ℕ))
    → is_child pid children ≡ false
    → All (λ e. is_child e.0 children ≡ true) table
    → All (λ e. (e.0 == pid) ≡ false) table
unused_pid pid children [] h k = tt
unused_pid pid children ((q, i) ∷ table) h k = (differs, unused_pid pid children table h k.1)
  where
    differs : (q == pid) ≡ false
    differs = elim (Bool-cases (q == pid)) [
      | inl same ↦
          let e : q ≡ pid = ground arith in
          absurd (ground (arith, h, subst (λ p. is_child p children ≡ true) e k.0))
      | inr other ↦ other
    ]

-- Removing an unused pid changes nothing.
pub remove_pid-unused :
    (pid : ℕ) (table : List (ℕ × ℕ))
    → All (λ e. (e.0 == pid) ≡ false) table
    → remove_pid pid table ≡ table
remove_pid-unused pid [] h = refl
remove_pid-unused pid (e ∷ table) h = ground (arith, remove_pid-unused pid table h.1, h.0)

pub remove_pid-absent :
    (pid : ℕ) (table : List (ℕ × ℕ)) → All (λ e. (e.0 == pid) ≡ false) (remove_pid pid table)
remove_pid-absent pid [] = tt
remove_pid-absent pid ((q, i) ∷ table) = elim (Bool-cases (q == pid)) [
  | inl e ↦ rw e (remove_pid-absent pid table)
  | inr e ↦ rw e (e, remove_pid-absent pid table)
]

pub Distinct-remove :
    (pid : ℕ) (table : List (ℕ × ℕ)) → Distinct table → Distinct (remove_pid pid table)
Distinct-remove pid [] h = tt
Distinct-remove pid ((q, i) ∷ table) h = elim (Bool-cases (q == pid)) [
  | inl e ↦ rw e (Distinct-remove pid table h.1)
  | inr e ↦ rw e (
    All-filter (λ f. (f.0 == q) ≡ false) (λ e. not (e.0 == pid)) table h.0,
    Distinct-remove pid table h.1,
  )
]

-- The entry of a pid that is looked up is counted, and goes.
pub count-remove_pid :
    (test : ℕ → Bool) (pid : ℕ) (table : List (ℕ × ℕ))
    → count (λ e. test e.1) (remove_pid pid table) ≤ count (λ e. test e.1) table
count-remove_pid test pid [] = omega arith
count-remove_pid test pid ((q, i) ∷ table) = ground (arith, count-remove_pid test pid table)

pub count-remove_listed :
    (test : ℕ → Bool) (pid : ℕ) (table : List (ℕ × ℕ)) (i : ℕ)
    → lookup_pid pid table ≡ some i
    → test i ≡ true
    → suc (count (λ e. test e.1) (remove_pid pid table)) ≤ count (λ e. test e.1) table
count-remove_listed test pid [] i e t = cc
count-remove_listed test pid ((q, j) ∷ table) i e t = elim (Bool-cases (q == pid)) [
  | inl same ↦
      let e' : j ≡ i = ground arith in
      let here : test j ≡ true = ap test e' ∙ t in
      rw (same, here) (ground (arith, count-remove_pid test pid table))
  | inr other ↦ ground (arith, count-remove_listed test pid table i)
]

-- What another test counts stays, if no pid is in the table twice.
pub count-remove_other :
    (test : ℕ → Bool) (pid : ℕ) (table : List (ℕ × ℕ)) (i : ℕ)
    → Distinct table
    → lookup_pid pid table ≡ some i
    → test i ≡ false
    → count (λ e. test e.1) (remove_pid pid table) ≡ count (λ e. test e.1) table
count-remove_other test pid [] i h e t = cc
count-remove_other test pid ((q, j) ∷ table) i h e t = elim (Bool-cases (q == pid)) [
  | inl same ↦
      let e' : j ≡ i = ground arith in
      let here : test j ≡ false = ap test e' ∙ t in
      let p : q ≡ pid = ground arith in
      let kept =
        remove_pid-unused pid table (subst (λ p. All (λ f. (f.0 == p) ≡ false) table) p h.0) in
      rw (same, here) (ap (count (λ e. test e.1)) kept)
  | inr other ↦ ground (arith, other, count-remove_other test pid table i h.1)
]

-- The entries of other mappings stay.
pub watched-remove :
    (pid : ℕ) (table : List (ℕ × ℕ)) (i j : ℕ)
    → Distinct table
    → lookup_pid pid table ≡ some i
    → i ≢ j
    → any (λ e. e.1 == j) table ≡ true
    → any (λ e. e.1 == j) (remove_pid pid table) ≡ true
watched-remove pid [] i j h e ne f = cc
watched-remove pid ((q, k) ∷ table) i j h e ne f = elim (Bool-cases (q == pid)) [
  | inl same ↦
      let e' : k ≡ i = ground arith in
      let p : q ≡ pid = ground arith in
      let kept =
        remove_pid-unused pid table (subst (λ p. All (λ f. (f.0 == p) ≡ false) table) p h.0) in
      rw (same, kept) (ground arith)
  | inr other ↦ ground (arith, other, watched-remove pid table i j h.1)
]
