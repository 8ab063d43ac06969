-- ===== src/Locking/Log.antt =====
-- src/libmanifest/profilemapping-iterator.c: what an iteration starts, and when it succeeds.
use mathlib.Core.List.{append_assoc, append-nil}
use disnix.Prelude.{
  ◌++◌, ◌≡◌, ◌≢◌, All, refl, sym, ap, subst, ◌∙◌, ◌&&◌, String, Bool, true, Option, none, some,
  List, [], ◌∷◌, map, lookup, length, arith, Option-cases, inl, inr, ℕ, suc,
}
use disnix.Platform.{Table}
use disnix.Platform.Posix.{ProcReactStatus}
use disnix.Model.{Target}
use disnix.ModelIterator.{ModelIteratorData, is_success, next_iteration_process}
use disnix.Locking.{
  ProfileOperation, started, Event, spawned, completed, spawns, Iteration, handle_event,
  handle_events,
}
use disnix.Locking.Events.{Next-intro, Completed-intro, handle_events_cons}

-- Whether each process that ended had a good status and result.
abbrev pub all_succeeded : List Event → Bool
all_succeeded [] = true
all_succeeded (spawned pid ∷ events) = all_succeeded events
all_succeeded (completed pid status result ∷ events) =
    is_success status result && all_succeeded events

-- What an operation starts for an entry of the table, for its target.
abbrev pub for_entry :
    {X : Type 0} → Table Target → (String → String → Target → Option X) → String × String → Option X
for_entry targets start (name, path) = elim (lookup name targets) [
  | none ↦ none
  | some target ↦ start name path target
]

for_entry_found :
    {X : Type 0} (targets : Table Target) (start : String → String → Target → Option X)
    {name path : String} {target : Target}
    → lookup name targets ≡ some target
    → for_entry targets start (name, path) ≡ start name path target
for_entry_found targets start {name = name} e = rw (e, for_entry) refl

pub for_entry_known :
    {X : Type 0} (targets : Table Target) (start : String → String → Target → Option X)
    (name path : String)
    → for_entry targets start (name, path) ≢ none
    → lookup name targets ≢ none
for_entry_known targets start name path h e = h (rw (e, for_entry) refl)

append-map :
    {A B : Type 0} (f : A → B) (log log' : List B) (a : A) (rest all : List A) (b : B)
    → log' ≡ log ++ (b ∷ [])
    → f a ≡ b
    → all ≡ a ∷ rest
    → log' ++ map f rest ≡ log ++ map f all
append-map f log log' a rest all b grown same split =
    rw (grown, split, same) (append_assoc log (b ∷ []) (map f rest))

success-next :
    {A : Type 0} (d : ModelIteratorData A) (pid : Option ℕ) (item : A)
    → (next_iteration_process d pid item).success ≡ d.success
unfolding next_iteration_process
success-next d none item = refl
success-next d (some pid) item = refl

pub some_inj : {A : Type 0} {x y : A} → some x ≡ some y → x ≡ y
some_inj h = cc

no_entries :
    {B : Type 0} (f : String × String → B) (iter : Table String) → 0 ≡ length iter → map f iter ≡ []
no_entries f [] h = refl
no_entries f (entry ∷ iter) h = absurd (omega (arith, h))

pub started-map :
    {X : Type 0} (f : String × String → Option X) (table : Table String)
    → All (λ entry. f entry ≢ none) table
    → (xs : List X) × (started (map f table) ≡ some xs)
unfolding started
started-map f [] h = ([], refl)
started-map f (entry ∷ table) h = elim (Option-cases (f entry)) [
  | inl missing ↦ absurd (h.0 missing)
  | inr (x, found) ↦
      let (xs, rest) = started-map f table h.1 in (x ∷ xs, rw (found, rest, started) refl)
]

pub started_lem :
    {X : Type 0} (log : List (Option X)) (xs : List X) → started log ≡ some xs → map some xs ≡ log
unfolding started
started_lem [] [] e = refl
started_lem [] (x ∷ xs) e = cc
started_lem (none ∷ log) xs e = cc
started_lem (some x ∷ log) xs e = elim (Option-cases (started log)) [
  | inl stopped ↦ absurd (ground (arith, rw (stopped, started) at e))
  | inr (ys, found) ↦
      let rest = started_lem log ys found in
      let same : some (x ∷ ys) ≡ some xs = rw (found, started) at e in
      subst (λ zs. map some zs ≡ some x ∷ log) (some_inj same) (ap (λ l. some x ∷ l) rest)
]

-- An operation that records what it starts, once for each entry.
pub record Records {S X : Type 0} (operation : ProfileOperation S) (log : S → List (Option X))
    (start : String → String → Target → Option X) (IsUser : S → Type 0) : Type 0 where
  pub mapped :
      (name path : String) (target : Target) (s : S)
      → IsUser s
      → log (operation.map_profile_mapping name path target s)
        ≡ log s ++ (start name path target ∷ [])
  pub completes :
      (name : String) (path : Option String) (status : ProcReactStatus) (result : Bool) (s : S)
      → log (operation.complete_map_profile_mapping name path status result s) ≡ log s
  pub mapped_user :
      (name path : String) (target : Target) (s : S)
      → IsUser s
      → IsUser (operation.map_profile_mapping name path target s)
  pub completes_user :
      (name : String) (path : Option String) (status : ProcReactStatus) (result : Bool) (s : S)
      → IsUser s
      → IsUser (operation.complete_map_profile_mapping name path status result s)

module _ {S X : Type 0} (targets : Table Target) (operation : ProfileOperation S)
    (log : S → List (Option X)) (start : String → String → Target → Option X) (IsUser : S → Type 0)
    (records : Records operation log start IsUser) (table : Table String) where
  pub log_events :
      (events : List Event) (it it' : Iteration S)
      → handle_events targets operation table events it ≡ some it'
      → spawns events ≡ length it.iter
      → IsUser it.user_data
      → (it'.model_iterator_data.success ≡ (it.model_iterator_data.success && all_succeeded events))
        × (log it'.user_data ≡ log it.user_data ++ map (for_entry targets start) it.iter)
  unfolding handle_events handle_event
  log_events [] it it' e n user =
      let same : it ≡ it' = some_inj e in
      let none_left = no_entries (for_entry targets start) it.iter n in
      (
        ap (λ (x : Iteration S). x.model_iterator_data.success) (sym same) ∙ ground arith,
        ap (λ (x : Iteration S). log x.user_data) (sym same)
            ∙ sym (append-nil (log it.user_data))
            ∙ rw none_left refl,
      )
  log_events (spawned pid ∷ events) it it' e n user =
      let (between, ran, others) =
        handle_events_cons targets operation table (spawned pid) events it it' e in
      let next = Next-intro targets operation table pid it between ran in
      let size : length it.iter ≡ suc (length next.rest) = ap length next.entries in
      let (a, b) =
        log_events events between it' others (ground (arith, size, n, ap length next.left))
          (subst IsUser (sym next.mapped) (records.mapped_user _ _ next.target _ user)) in
      let kept : between.model_iterator_data.success ≡ it.model_iterator_data.success =
        ap (λ (d : ModelIteratorData String). d.success) next.recorded
        ∙ success-next it.model_iterator_data pid next.name in
      (
        rw kept at a,
        b
            ∙ append-map (for_entry targets start) (log it.user_data) (log between.user_data)
                (next.name, next.path) between.iter it.iter _
                (ap log next.mapped
                  ∙ records.mapped next.name next.path next.target it.user_data user)
                (for_entry_found targets start next.known)
                (next.entries ∙ ap (λ rest. (next.name, next.path) ∷ rest) (sym next.left)),
      )
  log_events (completed pid status result ∷ events) it it' e n user =
      let (between, ran, others) =
        handle_events_cons targets operation table (completed pid status result) events it it' e in
      let done = Completed-intro targets operation table pid status result it between ran in
      let (a, b) =
        log_events events between it' others (n ∙ ap length (sym done.left))
          (subst IsUser (sym done.handled) (records.completes_user _ _ status result _ user)) in
      (
        ground (arith, a, done.outcome),
        b
            ∙ ap (λ xs. xs ++ map (for_entry targets start) between.iter)
                (ap log done.handled ∙ records.completes done.name _ status result it.user_data)
            ∙ ap (λ iter. log it.user_data ++ map (for_entry targets start) iter) done.left,
      )
