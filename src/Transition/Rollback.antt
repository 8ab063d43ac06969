-- ===== src/Transition/Rollback.antt =====
-- src/libdeploy/transition.c: what each outcome of a transition ensures.
use disnix.Prelude.{
  ◌≡◌, refl, subst, Bool, true, false, Option, none, some, List, arith, if◌then◌else◌,
}
use disnix.Platform.{IsPlatform}
use disnix.Model.{InterDependencyMapping, ServiceMapping, deactivated, activated}
use disnix.Traverse.State.{TraverseState, Step, return, ◌>>=◌, with_pointer}
use disnix.Traverse.Deactivation.{IsIndexed}
use disnix.Transition.{
  Setting, deactivation, Flags, TransitionStatus, success, failed,
  obsolete_mappings_rollback_failed, new_mappings_rollback_failed, activate_array, deactivate_array,
  rollback_to_old_mappings, rollback_new_mappings, unless_interrupted, old_rollback_status,
  recover_obsolete, or_recover, deactivate_obsolete_mappings, restore_old, recover_new,
  activate_new_mappings, if_success, execute_transition,
}
use disnix.Transition.Keeps.{
  Kept, AllAt, Keeps, Keeps-return, Keeps-crash, Keeps-bind, Keeps-activate_array,
  Keeps-deactivate_array, Keeps-rollback_to_old, Keeps-rollback_new, Keeps-unless_interrupted,
}

module _ (t : Setting) (ks : List InterDependencyMapping) (laws : IsPlatform t.platform)
    (indexed : IsIndexed (deactivation t) ks) (activations : List ServiceMapping)
    (old : Option (List ServiceMapping)) (flags : Flags) where
  -- The configuration that a rollback comes back to.
  abbrev pub Restored : Option (List ServiceMapping) → TraverseState → Type 0
  Restored none s = AllAt t ks deactivated activations s
  Restored (some mappings) s = AllAt t ks activated mappings s

  -- What `failed` means, and what `success` means if `goal` does.
  abbrev pub Meaning : (TraverseState → Type 0) → TransitionStatus → TraverseState → Type 0
  Meaning goal status s =
      (status ≡ success → goal s) × (status ≡ failed → flags.no_rollback ≡ false → Restored old s)

  abbrev pub Reached : TraverseState → Type 0
  Reached s = AllAt t ks activated activations s

  Meaning-old_rollback :
      (goal : TraverseState → Type 0) (restored : Bool) (s : TraverseState)
      → Kept t ks s
      → (restored ≡ true → Restored old s)
      → Keeps t ks (Meaning goal) (return (old_rollback_status t restored) s)
  Meaning-old_rollback goal true s h r =
      Keeps-return t ks failed s h ((λ e. absurd (ground arith)), λ e n. r refl)
  Meaning-old_rollback goal false s h r =
      Keeps-return t ks obsolete_mappings_rollback_failed s h
        ((λ e. absurd (ground arith)), λ e n. absurd (ground arith))

  Meaning-unless_no_rollback :
      (goal : TraverseState → Type 0) (no_rollback : Bool) (m : Step TransitionStatus)
      (s : TraverseState)
      → no_rollback ≡ flags.no_rollback
      → Kept t ks s
      → Keeps t ks (Meaning goal) (m s)
      → Keeps t ks (Meaning goal) ((if no_rollback then return failed else m) s)
  Meaning-unless_no_rollback goal true m s e h r =
      Keeps-return t ks failed s h ((λ e. absurd (ground arith)), λ f n. absurd (ground arith))
  Meaning-unless_no_rollback goal false m s e h r = r

  Meaning-or_recover :
      (goal : TraverseState → Type 0) (recover : Step TransitionStatus) (done : Bool)
      (s : TraverseState)
      → Kept t ks s
      → (done ≡ true → goal s)
      → Keeps t ks (Meaning goal) (recover s)
      → Keeps t ks (Meaning goal) (or_recover t recover done s)
  Meaning-or_recover goal recover true s h g r =
      Keeps-return t ks success s h ((λ e. g refl), λ e n. absurd (ground arith))
  Meaning-or_recover goal recover false s h g r = r

  Meaning-pointer :
      (goal : TraverseState → Type 0) (o : Option (List ServiceMapping)) (s : TraverseState)
      → o ≡ old
      → Kept t ks s
      → Keeps t ks (Meaning goal) (
          with_pointer o
            (λ mappings.
              rollback_to_old_mappings t mappings >>= λ b. return (old_rollback_status t b))
            s)
  Meaning-pointer goal none s same h = Keeps-crash t ks s h
  Meaning-pointer goal (some mappings) s same h =
      Keeps-bind t ks (rollback_to_old_mappings t mappings) _ s
        (Keeps-rollback_to_old t ks laws indexed mappings s h)
        λ b s' h' r. Meaning-old_rollback goal b s' h' (λ e. subst (λ o. Restored o s') same (r e))

  Meaning-recover_obsolete :
      (goal : TraverseState → Type 0) (s : TraverseState)
      → Kept t ks s
      → Keeps t ks (Meaning goal) (recover_obsolete t old flags s)
  unfolding recover_obsolete
  Meaning-recover_obsolete goal s h =
      Meaning-unless_no_rollback goal flags.no_rollback _ s refl h
        (Meaning-pointer goal old s refl h)

  Meaning-deactivate_obsolete :
      (deactivations : Option (List ServiceMapping)) (s : TraverseState)
      → Kept t ks s
      → Keeps t ks (Meaning (λ _. Unit)) (deactivate_obsolete_mappings t deactivations old flags s)
  unfolding deactivate_obsolete_mappings
  Meaning-deactivate_obsolete none s h =
      Keeps-return t ks success s h ((λ e. tt), λ e n. absurd (ground arith))
  Meaning-deactivate_obsolete (some array) s h =
      Keeps-bind t ks (deactivate_array t array) _ s
        (Keeps-deactivate_array t ks laws indexed array s h)
        λ done s₁ h₁ r.
          Keeps-bind t ks (unless_interrupted t done) (or_recover t (recover_obsolete t old flags))
            s₁ (Keeps-unless_interrupted t ks laws indexed {Q = λ _. Unit} done s₁ h₁ (λ e. tt))
            λ b s₂ h₂ g.
              Meaning-or_recover (λ _. Unit) (recover_obsolete t old flags) b s₂ h₂ g
                (Meaning-recover_obsolete (λ _. Unit) s₂ h₂)

  Meaning-restore_old :
      (o : Option (List ServiceMapping)) (undone : Bool) (s : TraverseState)
      → o ≡ old
      → Kept t ks s
      → (undone ≡ true → AllAt t ks deactivated activations s)
      → Keeps t ks (Meaning Reached) (restore_old t o undone s)
  unfolding restore_old
  Meaning-restore_old o false s same h u =
      Keeps-return t ks new_mappings_rollback_failed s h
        ((λ e. absurd (ground arith)), λ e n. absurd (ground arith))
  Meaning-restore_old none true s same h u =
      Keeps-return t ks failed s h
        ((λ e. absurd (ground arith)), λ e n. subst (λ o. Restored o s) same (u refl))
  Meaning-restore_old (some mappings) true s same h u =
      Meaning-pointer Reached (some mappings) s same h

  Meaning-recover_new :
      (s : TraverseState)
      → Kept t ks s
      → Keeps t ks (Meaning Reached) (recover_new t activations old flags s)
  unfolding recover_new
  Meaning-recover_new s h =
      Meaning-unless_no_rollback Reached flags.no_rollback
        (rollback_new_mappings t activations >>= restore_old t old) s refl h
        (Keeps-bind t ks (rollback_new_mappings t activations) (restore_old t old) s
          (Keeps-rollback_new t ks laws indexed activations s h)
          λ undone s' h' u. Meaning-restore_old old undone s' refl h' u)

  Meaning-activate_new :
      (s : TraverseState)
      → Kept t ks s
      → Keeps t ks (Meaning Reached) (activate_new_mappings t activations old flags s)
  unfolding activate_new_mappings
  Meaning-activate_new s h =
      Keeps-bind t ks (activate_array t activations) _ s
        (Keeps-activate_array t ks laws indexed activations s h)
        λ done s₁ h₁ r.
          Keeps-bind t ks (unless_interrupted t done)
            (or_recover t (recover_new t activations old flags)) s₁
            (Keeps-unless_interrupted t ks laws indexed {Q = Reached} done s₁ h₁ r)
            λ b s₂ h₂ g.
              Meaning-or_recover Reached (recover_new t activations old flags) b s₂ h₂ g
                (Meaning-recover_new s₂ h₂)

  Meaning-if_success :
      (status : TransitionStatus) (next : Step TransitionStatus) (s : TraverseState)
      → Kept t ks s
      → Meaning (λ _. Unit) status s
      → Keeps t ks (Meaning Reached) (next s)
      → Keeps t ks (Meaning Reached) (if_success t next status s)
  Meaning-if_success success next s h m n = n
  Meaning-if_success failed next s h m n =
      Keeps-return t ks failed s h ((λ e. absurd (ground arith)), m.1)
  Meaning-if_success obsolete_mappings_rollback_failed next s h m n =
      Keeps-return t ks obsolete_mappings_rollback_failed s h ((λ e. absurd (ground arith)), m.1)
  Meaning-if_success new_mappings_rollback_failed next s h m n =
      Keeps-return t ks new_mappings_rollback_failed s h ((λ e. absurd (ground arith)), m.1)

  -- Both phases, with their rollbacks.
  pub Meaning-execute_transition :
      (deactivations : Option (List ServiceMapping)) (s : TraverseState)
      → Kept t ks s
      → Keeps t ks (Meaning Reached) (execute_transition t deactivations activations old flags s)
  unfolding execute_transition
  Meaning-execute_transition deactivations s h =
      Keeps-bind t ks (deactivate_obsolete_mappings t deactivations old flags) _ s
        (Meaning-deactivate_obsolete deactivations s h)
        λ status s' h' m. Meaning-if_success status _ s' h' m (Meaning-activate_new s' h')
