-- ===== src/Traverse/Termination.antt =====
-- src/libmanifest/servicemapping-traverse.c: the loops of a traversal come to an end.
use disnix.Prelude.{
  ℕ, zero, suc, ◌+◌, ◌≤◌, ◌<◌, ◌≡◌, ◌≢◌, refl, inl, inr, Bool, true, none, List, [], ◌∷◌, All,
  Bool-cases, length, ltb, arith,
}
use disnix.Platform.Posix.{IsWorld, ProcReactStatus}
use disnix.Model.{InterDependencyMapping, ServiceMapping, ServiceMappingStatus, as_dependency}
use disnix.ServiceMappings.{keys}
use disnix.Traverse.{
  Context, count_status, visit_all, wait_for_service_mapping_to_complete, visit_round,
  traverse_rounds, traverse_service_mappings,
}
use disnix.Traverse.State.{
  ServiceStatus, service_error, service_in_progress, service_wait, service_done, TraverseState,
  Step, if_done, ◌>>=◌,
}
use disnix.Traverse.Live.{weight_of, distance, Live, Ends, Ends-return, Ends-from, Ends-bind}
use disnix.Traverse.Progress.{Waitable, Nearer, Ends-wait}

module _ (c : Context) (ks : List InterDependencyMapping) (start : ServiceMappingStatus)
    (posix : IsWorld c.world)
    (forks : (tick : ℕ) (children : List ℕ) → c.world.fork tick children ≢ none)
    (finished : (status : ProcReactStatus) (result : Bool)
      → weight_of start (c.complete_service_mapping status result) ≡ 0) where
  -- A visit of the keys that `P` admits ends, and what it leaves pending can be waited for.
  abbrev pub Active :
      (InterDependencyMapping → Type 0) → (InterDependencyMapping → Step ServiceStatus) → Type 0
  Active P visit =
      (key : InterDependencyMapping)
      → P key
      → (s : TraverseState) → Live ks s
      → Ends ks start posix.signals Waitable s (visit key s)

  pub Ends-if_done :
      (m next : Step ServiceStatus) (s : TraverseState)
      → Ends ks start posix.signals Waitable s (m s)
      → ((s' : TraverseState) → Live ks s' → Ends ks start posix.signals Waitable s' (next s'))
      → Ends ks start posix.signals Waitable s ((m >>= λ status. if_done status next) s)
  Ends-if_done m next s h k =
      Ends-bind ks start posix.signals m (λ status. if_done status next) s h
        λ status s' live le waitable. go status s' live waitable
    where
      go :
          (status : ServiceStatus) (s' : TraverseState)
          → Live ks s'
          → Waitable status s'
          → Ends ks start posix.signals Waitable s' (if_done status next s')
      go service_done s' live q = k s' live
      go service_error s' live q = Ends-return ks start posix.signals service_error s' live q
      go service_in_progress s' live q =
          Ends-return ks start posix.signals service_in_progress s' live q
      go service_wait s' live q = Ends-return ks start posix.signals service_wait s' live q

  pub Ends-visit_all :
      (P : InterDependencyMapping → Type 0) (visit : InterDependencyMapping → Step ServiceStatus)
      → Active P visit
      → (list : List InterDependencyMapping) → All P list
      → (s : TraverseState) → Live ks s
      → Ends ks start posix.signals Waitable s (visit_all c visit list s)
  unfolding visit_all
  Ends-visit_all P visit active [] h s live =
      Ends-return ks start posix.signals service_done s live (λ e. cc)
  Ends-visit_all P visit active (key ∷ rest) h s live =
      Ends-if_done (visit key) (visit_all c visit rest) s (active key h.0 s live)
        λ s' live'. Ends-visit_all P visit active rest h.1 s' live'

  module _ (P : InterDependencyMapping → Type 0)
      (strategy : InterDependencyMapping → Step ServiceStatus) (active : Active P strategy) where
    -- A round that has not counted every mapping has come nearer to the end.
    abbrev RoundEnds :
        List ServiceMapping → Bool × ℕ → TraverseState → Bool × ℕ → TraverseState → Type 0
    RoundEnds array counted s r t =
        r.1 < counted.1 + length array
        → distance ks start posix.signals t < distance ks start posix.signals s

    round-Nearer :
        (status : ServiceStatus) (counted r : Bool × ℕ) (rest : List ServiceMapping)
        (s s₁ s₂ t : TraverseState)
        → distance ks start posix.signals s₁ ≤ distance ks start posix.signals s
        → distance ks start posix.signals s₂ ≤ distance ks start posix.signals s₁
        → distance ks start posix.signals t ≤ distance ks start posix.signals s₂
        → Waitable status s₁
        → Nearer c ks start posix forks finished s₁ tt s₂
        → RoundEnds rest (count_status status counted) s₂ r t
        → r.1 < counted.1 + suc (length rest)
        → distance ks start posix.signals t < distance ks start posix.signals s
    round-Nearer service_done (b, n) r rest s s₁ s₂ t a a₁ a₂ q near others less =
        omega (arith, others (omega arith))
    round-Nearer service_error (b, n) r rest s s₁ s₂ t a a₁ a₂ q near others less =
        omega (arith, others (omega arith))
    round-Nearer service_in_progress (b, n) r rest s s₁ s₂ t a a₁ a₂ q near others less =
        omega (arith, near (q refl))
    round-Nearer service_wait (b, n) r rest s s₁ s₂ t a a₁ a₂ q near others less =
        omega (arith, near (q refl))

    Ends-visit_round :
        (array : List ServiceMapping) (counted : Bool × ℕ) (s : TraverseState)
        → All P (keys array)
        → Live ks s
        → Ends ks start posix.signals
            (RoundEnds array counted s)
            s
            (visit_round c strategy array counted s)
    unfolding visit_round
    Ends-visit_round [] counted s h live =
        Ends-return ks start posix.signals counted s live (λ less. absurd (omega arith))
    Ends-visit_round (mapping ∷ rest) counted s h live =
        let key = as_dependency mapping in
        Ends-bind ks start posix.signals (strategy key) _ s (active key h.0 s live)
          λ status s₁ live₁ le₁ q.
            Ends-bind ks start posix.signals (wait_for_service_mapping_to_complete c) _ s₁
              (Ends-wait c ks start posix forks finished s₁ live₁)
              λ _ s₂ live₂ le₂ near.
                let others = Ends-visit_round rest (count_status status counted) s₂ h.1 live₂ in
                let t = (visit_round c strategy rest (count_status status counted) s₂).1 in
                record {
                  ends = others.ends;
                  live = others.live;
                  nearer = others.nearer;
                  post = λ r e less.
                      round-Nearer status counted r rest s s₁ s₂ t le₁ le₂ (others.nearer r e) q
                        near (others.post r e) less;
                }

    Ends-traverse_rounds :
        (rounds : ℕ) (array : List ServiceMapping) (success : Bool) (s : TraverseState)
        → distance ks start posix.signals s < rounds
        → All P (keys array)
        → Live ks s
        → Ends ks start posix.signals
            (λ _ _. Unit {0})
            s
            (traverse_rounds c rounds strategy array success s)
    unfolding traverse_rounds
    Ends-traverse_rounds zero array success s less h live = absurd (omega arith)
    Ends-traverse_rounds (suc rounds) array success s less h live =
        Ends-bind ks start posix.signals (visit_round c strategy array (success, 0)) _ s
          (Ends-visit_round array (success, 0) s h live)
          λ (b, n) s' live' le near. elim (Bool-cases (ltb n (length array))) [
            | inl e ↦ rw e (
                Ends-traverse_rounds rounds array b s' (omega (arith, near (ground arith))) h live')
            | inr e ↦ rw e (Ends-return ks start posix.signals b s' live' tt)
          ]

    pub Ends-traverse_service_mappings :
        (rounds : ℕ) (array : List ServiceMapping) (s : TraverseState)
        → distance ks start posix.signals s < rounds
        → All P (keys array)
        → Live ks (record s { pid_table = [] })
        → Ends ks start posix.signals
            (λ _ _. Unit {0})
            s
            (traverse_service_mappings c rounds strategy array s)
    unfolding traverse_service_mappings
    Ends-traverse_service_mappings rounds array s less h live =
        Ends-from ks start posix.signals s (omega arith)
          (Ends-traverse_rounds rounds array true _ less h live)
