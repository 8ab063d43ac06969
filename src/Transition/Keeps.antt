-- ===== src/Transition/Keeps.antt =====
-- src/libdeploy/transition.c: what its steps keep and ensure, one after the other.
use disnix.Prelude.{
  zero, suc, ℕ, ◌≡◌, ◌≢◌, refl, subst, ◌∙◌, Bool, true, Option, none, some, List, [], ◌∷◌, All,
  arith,
}
use disnix.Platform.{IsPlatform}
use disnix.Model.{
  InterDependencyMapping, ServiceMapping, ServiceMappingStatus, deactivated, in_progress, activated,
  error,
}
use disnix.ServiceMappings.{keys}
use disnix.Traverse.State.{
  TraverseState, Outcome, returned, crashed, unfinished, Step, ◌>>=◌, proceed, status_at,
}
use disnix.Traverse.Consistency.{find_key, DependsOn, IsConsistent}
use disnix.Traverse.{traverse_inter_dependency_mappings, traverse_interdependent_mappings}
use disnix.Traverse.Activation.{Post-traverse_inter_dependency_mappings}
use disnix.Traverse.Deactivation.{IsIndexed, Post-traverse_interdependent_mappings}
use disnix.Traverse.Rounds.{Post-traverse_service_mappings}
use disnix.Transition.{
  Setting, activation, deactivation, unless_error, mark_erroneous_mappings, activate_array,
  deactivate_array, rollback_to_old_mappings, rollback_new_mappings, unless_interrupted,
}

-- The status that a mark leaves on a mapping.
abbrev marked : ServiceMappingStatus → Option ServiceMappingStatus → Option ServiceMappingStatus
marked mark none = none
marked mark (some status) = some (unless_error mark status)

status_at-mark :
    (mark : ServiceMappingStatus) (arr : List ServiceMapping) (i : ℕ)
    → status_at (mark_erroneous_mappings mark arr) i ≡ marked mark (status_at arr i)
unfolding mark_erroneous_mappings
status_at-mark mark [] i = ground arith
status_at-mark mark (m ∷ arr) zero = refl
status_at-mark mark (m ∷ arr) (suc i) = status_at-mark mark arr i

pub keys-mark :
    (mark : ServiceMappingStatus) (arr : List ServiceMapping)
    → keys (mark_erroneous_mappings mark arr) ≡ keys arr
unfolding mark_erroneous_mappings
keys-mark mark [] = refl
keys-mark mark (m ∷ arr) = rw (keys-mark mark arr)

marked_consistent :
    (mark status : ServiceMappingStatus) (above below : Option ServiceMappingStatus)
    → marked mark above ≡ some status
    → ((old : ServiceMappingStatus) → above ≡ some old → old ≢ deactivated → below ≡ some activated)
    → status ≢ deactivated
    → marked mark below ≡ some activated
marked_consistent mark status none below e h ne = cc
marked_consistent mark status (some error) below e h ne = rw (h error refl (cc)) refl
marked_consistent mark status (some deactivated) below e h ne = absurd (ne (cc))
marked_consistent mark status (some activated) below e h ne = rw (h activated refl (cc)) refl
marked_consistent mark status (some in_progress) below e h ne = rw (h in_progress refl (cc)) refl

module _ (t : Setting) (ks : List InterDependencyMapping) where
  -- The array has these keys, and what is not deactivated has its dependencies activated.
  pub record Kept (s : TraverseState) : Type 0 where
    pub same_keys : keys s.mappings ≡ ks
    pub consistent : IsConsistent (activation t) ks s.mappings

  -- Each mapping of the array that the keys find has the status.
  abbrev pub AllAt : ServiceMappingStatus → List ServiceMapping → TraverseState → Type 0
  AllAt goal array s =
      All
        (λ key. (i : ℕ) → find_key t.platform ks key ≡ some i → status_at s.mappings i ≡ some goal)
        (keys array)

  -- A step keeps the invariant in each outcome, and ensures `Q` of what it returns.
  pub record Keeps {A : Type 0} (Q : A → TraverseState → Type 0) (r : Outcome A × TraverseState)
      : Type 0 where
    pub kept : Kept r.1
    pub post : (a : A) → r.0 ≡ returned a → Q a r.1

  pub Keeps-return :
      {A : Type 0} {Q : A → TraverseState → Type 0} (a : A) (s : TraverseState)
      → Kept s
      → Q a s
      → Keeps Q (returned a, s)
  Keeps-return {Q = Q} a s h q = record { kept = h; post = λ b e. subst (λ x. Q x s) (cc) q }

  pub Keeps-crash :
      {A : Type 0} {Q : A → TraverseState → Type 0} (s : TraverseState)
      → Kept s
      → Keeps Q (crashed, s)
  Keeps-crash s h = record { kept = h; post = λ b e. absurd (ground arith) }

  pub Keeps-bind :
      {A B : Type 0} {Q : A → TraverseState → Type 0} {R : B → TraverseState → Type 0} (m : Step A)
      (f : A → Step B) (s : TraverseState)
      → Keeps Q (m s)
      → ((a : A) (s' : TraverseState) → Kept s' → Q a s' → Keeps R (f a s'))
      → Keeps R ((m >>= f) s)
  Keeps-bind {A} {B} {Q} {R} m f s h k = go (m s).0 (m s).1 h.kept h.post
    where
      go :
          (o : Outcome A) (s' : TraverseState)
          → Kept s'
          → ((a : A) → o ≡ returned a → Q a s')
          → Keeps R (proceed o f s')
      go (returned a) s' i q = k a s' i (q a refl)
      go crashed s' i q = Keeps-crash s' i
      go unfinished s' i q = record { kept = i; post = λ b e. absurd (ground arith) }

  module _ (s : TraverseState) (h : Kept s) where
    -- Errors may be marked as activated or as deactivated.
    marks_keep :
        (mark : ServiceMappingStatus)
        → Kept (record s { mappings = mark_erroneous_mappings mark s.mappings })
    marks_keep mark = record {
      same_keys = keys-mark mark s.mappings ∙ h.same_keys;
      consistent = λ i j d status e ne.
          status_at-mark mark s.mappings j
          ∙ marked_consistent mark status (status_at s.mappings i) (status_at s.mappings j)
              (ground (arith, status_at-mark mark s.mappings i))
              (λ old o n. h.consistent i j d old o n) ne;
    }

  module _ (laws : IsPlatform t.platform) (indexed : IsIndexed (deactivation t) ks) where
    to_deactivation :
        {i j : ℕ} → DependsOn (deactivation t) ks i j → DependsOn (activation t) ks i j
    to_deactivation d = record {
      key = d.key;
      at = d.at;
      service = d.service;
      defined = d.defined;
      dependency = d.dependency;
      listed = d.listed;
      position = d.position;
    }

    from_deactivation :
        {i j : ℕ} → DependsOn (activation t) ks i j → DependsOn (deactivation t) ks i j
    from_deactivation d = record {
      key = d.key;
      at = d.at;
      service = d.service;
      defined = d.defined;
      dependency = d.dependency;
      listed = d.listed;
      position = d.position;
    }

    pub Keeps-activate_array :
        (array : List ServiceMapping) (s : TraverseState)
        → Kept s
        → Keeps (λ b s'. b ≡ true → AllAt activated array s') (activate_array t array s)
    unfolding activate_array
    Keeps-activate_array array s h =
        let run =
          Post-traverse_service_mappings (activation t) ks activated (cc)
            (traverse_inter_dependency_mappings (activation t) t.depth)
            (Post-traverse_inter_dependency_mappings (activation t) ks t.depth) t.rounds array s
            (record { same_keys = h.same_keys; consistent = h.consistent; tracked = tt }) in
        record {
          kept = record { same_keys = run.inv.same_keys; consistent = run.inv.consistent };
          post = run.post;
        }

    pub Keeps-deactivate_array :
        (array : List ServiceMapping) (s : TraverseState)
        → Kept s
        → Keeps (λ b s'. b ≡ true → AllAt deactivated array s') (deactivate_array t array s)
    unfolding deactivate_array
    Keeps-deactivate_array array s h =
        let run =
          Post-traverse_service_mappings (deactivation t) ks deactivated (cc)
            (traverse_interdependent_mappings (deactivation t) t.depth)
            (Post-traverse_interdependent_mappings (deactivation t) ks laws indexed t.depth)
            t.rounds array s
            (record {
              same_keys = h.same_keys;
              consistent = λ i j d. h.consistent i j (to_deactivation d);
              tracked = tt;
            }) in
        record {
          kept = record {
            same_keys = run.inv.same_keys;
            consistent = λ i j d. run.inv.consistent i j (from_deactivation d);
          };
          post = run.post;
        }

    pub Keeps-rollback_to_old :
        (old : List ServiceMapping) (s : TraverseState)
        → Kept s
        → Keeps (λ b s'. b ≡ true → AllAt activated old s') (rollback_to_old_mappings t old s)
    unfolding rollback_to_old_mappings
    Keeps-rollback_to_old old s h = Keeps-activate_array old _ (marks_keep s h activated)

    pub Keeps-rollback_new :
        (array : List ServiceMapping) (s : TraverseState)
        → Kept s
        → Keeps (λ b s'. b ≡ true → AllAt deactivated array s') (rollback_new_mappings t array s)
    unfolding rollback_new_mappings
    Keeps-rollback_new array s h = Keeps-deactivate_array array _ (marks_keep s h deactivated)

    -- The interrupt flag can only turn a success into a failure.
    pub Keeps-unless_interrupted :
        {Q : TraverseState → Type 0} (done : Bool) (s : TraverseState)
        → Kept s
        → (done ≡ true → Q s)
        → Keeps (λ b s'. b ≡ true → Q s') (unless_interrupted t done s)
    unfolding unless_interrupted
    Keeps-unless_interrupted done s h q = Keeps-return _ s h (λ e. q (ground arith))
