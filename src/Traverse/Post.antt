-- ===== src/Traverse/Post.antt =====
-- src/libmanifest/servicemapping-traverse.c: what is stated of a step of a traversal, as a triple.
use disnix.Prelude.{ℕ, ◌≡◌, refl, subst, Option, none, some, List, arith}
use disnix.Model.{InterDependencyMapping, ServiceMappingStatus}
use disnix.Traverse.{Context}
use disnix.Traverse.State.{
  TraverseState, Outcome, returned, crashed, unfinished, Step, ◌>>=◌, proceed, with_pointer,
  status_at,
}
use disnix.Traverse.Consistency.{Inv}

module _ (c : Context) (ks : List InterDependencyMapping) (goal : ServiceMappingStatus) where
  pub record Post {A : Type 0} (Q : A → TraverseState → Type 0) (s : TraverseState)
      (r : Outcome A × TraverseState) : Type 0 where
    pub inv : Inv c ks r.1
    pub settles :
        (i : ℕ) → status_at s.mappings i ≡ some goal → status_at r.1.mappings i ≡ some goal
    pub post : (a : A) → r.0 ≡ returned a → Q a r.1

  pub Post-return :
      {A : Type 0} {Q : A → TraverseState → Type 0} {a : A} {s : TraverseState}
      → Inv c ks s
      → Q a s
      → Post Q s (returned a, s)
  Post-return {Q = Q} {a = a} {s} h q = record {
    inv = h;
    settles = λ i e. e;
    post = λ b e. subst (λ x. Q x s) (cc) q;
  }

  -- A step that stops has left the mappings and the pid table alone.
  pub Post-stop :
      {A : Type 0} {Q : A → TraverseState → Type 0} {s : TraverseState}
      → Inv c ks s
      → Post Q s (crashed, s) × Post Q s (unfinished, s)
  Post-stop h = (
    record { inv = h; settles = λ i e. e; post = λ b e. absurd (ground arith) },
    record { inv = h; settles = λ i e. e; post = λ b e. absurd (ground arith) },
  )

  -- The start may be exchanged for one with the same settled mappings.
  pub Post-from :
      {A : Type 0} {Q : A → TraverseState → Type 0} (s : TraverseState) {s' : TraverseState}
      {r : Outcome A × TraverseState}
      → ((i : ℕ) → status_at s.mappings i ≡ some goal → status_at s'.mappings i ≡ some goal)
      → Post Q s' r
      → Post Q s r
  Post-from s settled h = record {
    inv = h.inv;
    settles = λ i e. h.settles i (settled i e);
    post = h.post;
  }

  pub Post-bind :
      {A B : Type 0} {Q : A → TraverseState → Type 0} {R : B → TraverseState → Type 0} (m : Step A)
      (f : A → Step B) (s : TraverseState)
      → Post Q s (m s)
      → ((a : A) (s' : TraverseState) → Inv c ks s' → Q a s' → Post R s' (f a s'))
      → Post R s ((m >>= f) s)
  Post-bind {A} {B} {Q} {R} m f s h k = go (m s).0 (m s).1 h.inv h.settles h.post
    where
      go :
          (o : Outcome A) (s' : TraverseState)
          → Inv c ks s'
          → ((i : ℕ) → status_at s.mappings i ≡ some goal → status_at s'.mappings i ≡ some goal)
          → ((a : A) → o ≡ returned a → Q a s')
          → Post R s (proceed o f s')
      go (returned a) s' i t q = Post-from s t (k a s' i (q a refl))
      go crashed s' i t q = Post-from s t (Post-stop i).0
      go unfinished s' i t q = Post-from s t (Post-stop i).1

  -- A pointer that is followed only if it is not NULL.
  pub Post-pointer :
      {A B : Type 0} {Q : B → TraverseState → Type 0} (o : Option A) (f : A → Step B)
      (s : TraverseState)
      → Inv c ks s
      → ((a : A) → o ≡ some a → Post Q s (f a s))
      → Post Q s (with_pointer o f s)
  Post-pointer none f s h k = (Post-stop h).0
  Post-pointer (some a) f s h k = k a refl
