-- ===== src/Traverse/Live.antt =====
-- src/libmanifest/servicemapping-traverse.c: what keeps a traversal going. A mapping in progress has a
-- process that can be waited for, and a target without a free core has one too.
use disnix.Prelude.{
  ℕ, zero, suc, ◌+◌, ◌≤◌, ◌==◌, ◌≡◌, ◌≢◌, refl, ap, subst, Bool, true, Option, none, some, List, [],
  ◌∷◌, String, lookup, any, All, arith, if◌then◌else◌,
}
use disnix.Model.{InterDependencyMapping, ServiceMapping, ServiceMappingStatus, in_progress, Target}
use disnix.ServiceMappings.{keys}
use disnix.ServiceMappings.Plan.{same_status}
use disnix.Traverse.State.{
  TraverseState, Outcome, returned, crashed, unfinished, Step, ◌>>=◌, proceed, with_pointer,
  status_at, set_status,
}
use disnix.Traverse.Consistency.{Tracks}
use disnix.Traverse.Running.{is_child, running, Distinct}

-- The steps that a mapping is away from its end, if it starts with this status.
abbrev pub weight_of : ServiceMappingStatus → ServiceMappingStatus → ℕ
weight_of start status =
    if same_status start status then 2 else if same_status in_progress status then 1 else 0

abbrev pub weight : ServiceMappingStatus → List ServiceMapping → ℕ
weight start [] = 0
weight start (m ∷ arr) = weight_of start m.status + weight start arr

pub weight-set_status :
    (start : ServiceMappingStatus) (arr : List ServiceMapping) (i : ℕ)
    (old status : ServiceMappingStatus)
    → status_at arr i ≡ some old
    → weight start (set_status arr i status) + weight_of start old
      ≡ weight start arr + weight_of start status
weight-set_status start [] i old status e = absurd (ground arith)
weight-set_status start (m ∷ arr) zero old status e =
    let same : m.status ≡ old = ground arith in
    let here : weight_of start m.status ≡ weight_of start old = ap (weight_of start) same in
    omega (arith, here)
weight-set_status start (m ∷ arr) (suc i) old status e =
    omega (arith, weight-set_status start arr i old status e)

module _ (ks : List InterDependencyMapping) where
  pub record Live (s : TraverseState) : Type 0 where
    pub same_keys : keys s.mappings ≡ ks
    pub tracked : Tracks s.mappings s.pid_table
    pub alive : All (λ e. is_child e.0 s.children ≡ true) s.pid_table
    pub distinct : Distinct s.pid_table
    pub watched :
        (i : ℕ) → status_at s.mappings i ≡ some in_progress → any (λ e. e.1 == i) s.pid_table ≡ true
    pub staffed :
        (name : String) (t : Target)
        → lookup name s.targets ≡ some t
        → 1 ≤ t.available_cores + running ks name s.pid_table

  -- A process of the table is a child.
  pub Live-table :
      (s : TraverseState) (test : ℕ × ℕ → Bool)
      → Live s
      → any test s.pid_table ≡ true
      → s.children ≢ []
  Live-table s test h found = go s.pid_table h.alive found
    where
      go :
          (table : List (ℕ × ℕ))
          → All (λ e. is_child e.0 s.children ≡ true) table
          → any test table ≡ true
          → s.children ≢ []
      go [] k f = absurd (ground arith)
      go (e ∷ table) k f = λ none_left.
          absurd (ground (arith, subst (λ children. is_child e.0 children ≡ true) none_left k.0))

  module _ (start : ServiceMappingStatus) (signals : ℕ → ℕ) where
    -- What is left to do: the steps of the mappings, and the signals that can interrupt a wait.
    abbrev pub distance : TraverseState → ℕ
    distance s = weight start s.mappings + signals s.tick

    -- A step that does not run out of fuel. If it returns, the traversal can still go on, it is not
    -- further from its end, and `Q` holds of the value.
    pub record Ends {A : Type 0} (Q : A → TraverseState → Type 0) (s : TraverseState)
        (r : Outcome A × TraverseState) : Type 0 where
      pub ends : r.0 ≢ unfinished
      pub live : (a : A) → r.0 ≡ returned a → Live r.1
      pub nearer : (a : A) → r.0 ≡ returned a → distance r.1 ≤ distance s
      pub post : (a : A) → r.0 ≡ returned a → Q a r.1

    pub Ends-return :
        {A : Type 0} {Q : A → TraverseState → Type 0} (a : A) (s : TraverseState)
        → Live s
        → Q a s
        → Ends Q s (returned a, s)
    Ends-return {Q = Q} a s h q = record {
      ends = λ e. cc;
      live = λ b e. h;
      nearer = λ b e. omega arith;
      post = λ b e. subst (λ x. Q x s) (cc) q;
    }

    pub Ends-crash :
        {A : Type 0} {Q : A → TraverseState → Type 0} {s t : TraverseState} → Ends Q s (crashed, t)
    Ends-crash = record {
      ends = λ e. cc;
      live = λ b e. absurd (ground arith);
      nearer = λ b e. absurd (ground arith);
      post = λ b e. absurd (ground arith);
    }

    -- The start may be exchanged for one that is not nearer to the end.
    pub Ends-from :
        {A : Type 0} {Q : A → TraverseState → Type 0} (s : TraverseState) {s' : TraverseState}
        {r : Outcome A × TraverseState}
        → distance s' ≤ distance s
        → Ends Q s' r
        → Ends Q s r
    Ends-from s le h = record {
      ends = h.ends;
      live = h.live;
      nearer = λ a e. omega (arith, h.nearer a e);
      post = h.post;
    }

    pub Ends-bind :
        {A B : Type 0} {Q : A → TraverseState → Type 0} {R : B → TraverseState → Type 0}
        (m : Step A) (f : A → Step B) (s : TraverseState)
        → Ends Q s (m s)
        → ((a : A) (s' : TraverseState)
            → Live s'
            → distance s' ≤ distance s
            → Q a s'
            → Ends R s' (f a s'))
        → Ends R s ((m >>= f) s)
    Ends-bind {A} {B} {Q} {R} m f s h k = go (m s).0 (m s).1 h.ends h.live h.nearer h.post
      where
        go :
            (o : Outcome A) (s' : TraverseState)
            → o ≢ unfinished
            → ((a : A) → o ≡ returned a → Live s')
            → ((a : A) → o ≡ returned a → distance s' ≤ distance s)
            → ((a : A) → o ≡ returned a → Q a s')
            → Ends R s (proceed o f s')
        go (returned a) s' e l n q =
            Ends-from s (n a refl) (k a s' (l a refl) (n a refl) (q a refl))
        go crashed s' e l n q = Ends-crash
        go unfinished s' e l n q = absurd (e refl)

    pub Ends-pointer :
        {A B : Type 0} {Q : B → TraverseState → Type 0} (o : Option A) (f : A → Step B)
        (s : TraverseState)
        → ((a : A) → o ≡ some a → Ends Q s (f a s))
        → Ends Q s (with_pointer o f s)
    Ends-pointer none f s k = Ends-crash
    Ends-pointer (some a) f s k = k a refl

    -- A step that ends with a stronger condition on the value.
    pub Ends-map :
        {A : Type 0} {Q R : A → TraverseState → Type 0} {s : TraverseState}
        {r : Outcome A × TraverseState}
        → ((a : A) (t : TraverseState) → Q a t → R a t)
        → Ends Q s r
        → Ends R s r
    Ends-map {r = r} f h = record {
      ends = h.ends;
      live = h.live;
      nearer = h.nearer;
      post = λ a e. f a r.1 (h.post a e);
    }
