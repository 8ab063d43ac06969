-- ===== src/Traverse/Rounds.antt =====
-- src/libmanifest/servicemapping-traverse.c: the loops of traverse_service_mappings.
use disnix.Prelude.{
  ℕ, zero, suc, ◌+◌, ◌≤◌, ◌≡◌, ◌≢◌, refl, Bool, true, List, [], ◌∷◌, length, All, Bool-cases, inl,
  inr, arith, ltb,
}
use disnix.Model.{
  InterDependencyMapping, ServiceMapping, ServiceMappingStatus, in_progress, as_dependency,
}
use disnix.ServiceMappings.{keys}
use disnix.Traverse.{
  Context, wait_for_service_mapping_to_complete, visit_round, count_status, traverse_rounds,
  traverse_service_mappings,
}
use disnix.Traverse.State.{
  ServiceStatus, service_error, service_in_progress, service_wait, service_done, TraverseState,
  Outcome, Step,
}
use disnix.Traverse.Consistency.{Inv}
use disnix.Traverse.Post.{Post, Post-return, Post-stop, Post-from, Post-bind}
use disnix.Traverse.Steps.{Post-wait}
use disnix.Traverse.Activation.{IsDone, DoneAt, Truthful}

module _ (c : Context) (ks : List InterDependencyMapping) (goal : ServiceMappingStatus)
    (goal_busy : goal ≢ in_progress) (strategy : InterDependencyMapping → Step ServiceStatus)
    (truthful : Truthful c ks goal strategy) where
  abbrev Settled : List ServiceMapping → TraverseState → Type 0
  Settled array s = All (λ key. IsDone c ks goal key s) (keys array)

  -- What has been found done stays done.
  Post-keep :
      {A : Type 0} {Q : A → TraverseState → Type 0} {s : TraverseState}
      {r : Outcome A × TraverseState} (key : InterDependencyMapping) (status : ServiceStatus)
      → Post c ks goal Q s r
      → DoneAt c ks goal key status s
      → Post c ks goal (λ _. DoneAt c ks goal key status) s r
  Post-keep key status h d = record {
    inv = h.inv;
    settles = h.settles;
    post = λ a e done i f. h.settles i (d done i f);
  }

  -- Of one round: if all were counted and none failed, all have reached the goal.
  abbrev RoundPost : List ServiceMapping → Bool × ℕ → Bool × ℕ → TraverseState → Type 0
  RoundPost array counted r s =
      (r.1 ≤ counted.1 + length array)
      × (r.0 ≡ true → (counted.0 ≡ true) × (r.1 ≡ counted.1 + length array → Settled array s))

  RoundPost-cons :
      (mapping : ServiceMapping) (rest : List ServiceMapping) (counted r : Bool × ℕ)
      (status : ServiceStatus) (t : TraverseState)
      → DoneAt c ks goal (as_dependency mapping) status t
      → RoundPost rest (count_status status counted) r t
      → RoundPost (mapping ∷ rest) counted r t
  RoundPost-cons mapping rest (b, n) r service_done t d (bound, q) =
      (omega arith, λ e. ((q e).0, λ all. (d refl, (q e).1 (omega arith))))
  RoundPost-cons mapping rest (b, n) r service_error t d (bound, q) =
      (omega arith, λ e. absurd (ground (arith, (q e).0)))
  RoundPost-cons mapping rest (b, n) r service_in_progress t d (bound, q) =
      (omega arith, λ e. ((q e).0, λ all. absurd (omega arith)))
  RoundPost-cons mapping rest (b, n) r service_wait t d (bound, q) =
      (omega arith, λ e. ((q e).0, λ all. absurd (omega arith)))

  Post-visit_round :
      (array : List ServiceMapping) (counted : Bool × ℕ) (s : TraverseState)
      → Inv c ks s
      → Post c ks goal (RoundPost array counted) s (visit_round c strategy array counted s)
  unfolding visit_round
  Post-visit_round [] counted s h = Post-return c ks goal h (omega arith, λ e. (e, λ _. tt))
  Post-visit_round (mapping ∷ rest) counted s h =
      let key = as_dependency mapping in
      Post-bind c ks goal (strategy key) _ s (truthful key s h) λ status s₁ h₁ d.
        Post-bind c ks goal (wait_for_service_mapping_to_complete c) _ s₁
          (Post-keep key status (Post-wait c ks goal s₁ goal_busy h₁) d)
          λ _ s₂ h₂ d₂.
            let others = Post-visit_round rest (count_status status counted) s₂ h₂ in
            record {
              inv = others.inv;
              settles = others.settles;
              post = λ r e.
                  RoundPost-cons mapping rest counted r status
                    (visit_round c strategy rest (count_status status counted) s₂).1
                    (λ done i f. others.settles i (d₂ done i f)) (others.post r e);
            }

  Post-traverse_rounds :
      (rounds : ℕ) (array : List ServiceMapping) (success : Bool) (s : TraverseState)
      → Inv c ks s
      → Post c ks goal
          (λ b t. b ≡ true → Settled array t)
          s
          (traverse_rounds c rounds strategy array success s)
  unfolding traverse_rounds
  Post-traverse_rounds zero array success s h = (Post-stop c ks goal h).1
  Post-traverse_rounds (suc rounds) array success s h =
      Post-bind c ks goal (visit_round c strategy array (success, 0)) _ s
        (Post-visit_round array (success, 0) s h)
        λ (b, n) s' h' q. elim (Bool-cases (ltb n (length array))) [
          | inl e ↦ rw e (Post-traverse_rounds rounds array b s' h')
          | inr e ↦ rw e (Post-return c ks goal h' (λ ok. (q.1 ok).1 (ground (arith, q.0))))
        ]

  -- The traversal keeps the invariant whatever happens, and if it returns true, every mapping of the
  -- array has reached the goal.
  pub Post-traverse_service_mappings :
      (rounds : ℕ) (array : List ServiceMapping) (s : TraverseState)
      → Inv c ks (record s { pid_table = [] })
      → Post c ks goal
          (λ b t. b ≡ true → Settled array t)
          s
          (traverse_service_mappings c rounds strategy array s)
  unfolding traverse_service_mappings
  Post-traverse_service_mappings rounds array s h =
      Post-from c ks goal s (λ i e. e) (Post-traverse_rounds rounds array true _ h)
