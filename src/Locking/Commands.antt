-- ===== src/Locking/Commands.antt =====
-- src/libdeploy/locking.c: the commands that `unlock` starts on the targets.
use disnix.Prelude.{
  ◌≡◌, ◌≢◌, ◌++◌, All, All-weaken, refl, ap, ◌∙◌, String, true, Option, none, some, List, [], ◌∷◌,
  map, lookup, suc, Option-cases, inl, inr, arith,
}
use disnix.Platform.{Table}
use disnix.Parameters.{find_target_key}
use disnix.RemoteCommands.{lock_or_unlock, statemgmt_remote_unlock}
use disnix.Model.{Target}
use disnix.ModelIterator.{init_model_iterator_data}
use disnix.Locking.{
  Driver, IsDriver, LockingState, unlock_operation, unlock_profile_mapping, started,
  create_profile_mapping_iterator, run_iteration, unlock,
}
use disnix.Locking.Returns.{is_causal, handle_events-returns}
use disnix.Locking.Log.{
  all_succeeded, for_entry, for_entry_known, Records, log_events, some_inj, started-map,
}

started-append :
    {X : Type 0} (log more : List (Option X)) (xs ys : List X)
    → started log ≡ some xs
    → started more ≡ some ys
    → started (log ++ more) ≡ some (xs ++ ys)
unfolding started
started-append [] more [] ys e h = h
started-append [] more (x ∷ xs) ys e h = cc
started-append (none ∷ log) more xs ys e h = cc
started-append (some x ∷ log) more xs ys e h = elim (Option-cases (started log)) [
  | inl stopped ↦ absurd (ground (arith, rw (stopped, started) at e))
  | inr (zs, found) ↦
      let rest = started-append log more zs ys found h in
      let same : some (x ∷ zs) ≡ some xs = rw (found, started) at e in
      rw (rest, started) (ap (λ l. some (l ++ ys)) (some_inj same))
]

unlock-Records :
    (profile : String)
    → Records unlock_operation
        (λ s. s.commands)
        (unlock_profile_mapping profile)
        (λ s. s.profile ≡ profile)
unlock-Records profile = record {
  mapped = λ name path target s user. rw user refl;
  completes = λ name path status result s. refl;
  mapped_user = λ name path target s user. user;
  completes_user = λ name path status result s user. user;
}

abbrev pub with_key : Target → Option (Option String) → Option (Target × String)
with_key target none = none
with_key target (some none) = none
with_key target (some (some key)) = some (target, key)

-- The target of an entry and its key, if it has one.
abbrev pub target_and_key : Table Target → String × String → Option (Target × String)
target_and_key targets (name, path) = elim (lookup name targets) [
  | none ↦ none
  | some target ↦ with_key target (find_target_key target)
]

-- The words that unlock a profile on the target of an entry.
abbrev pub unlock_words : Table Target → String → String × String → List String
unlock_words targets profile entry = elim (target_and_key targets entry) [
  | none ↦ []
  | some (target, key) ↦
      target.client_interface ∷ "--unlock" ∷ "--target" ∷ key ∷ "--profile" ∷ profile ∷ []
]

for_entry-unlock_profile_mapping :
    (targets : Table Target) (profile : String) (entry : String × String)
    → target_and_key targets entry ≢ none
    → for_entry targets (unlock_profile_mapping profile) entry
      ≡ some (unlock_words targets profile entry)
unfolding unlock_profile_mapping statemgmt_remote_unlock lock_or_unlock
for_entry-unlock_profile_mapping targets profile (name, path) h =
    elim (Option-cases (lookup name targets)) [
      | inl missing ↦ absurd (h (rw (missing, target_and_key) refl))
      | inr (target, found) ↦ elim (Option-cases (find_target_key target)) [
        | inl no_node ↦ absurd (h (rw (found, no_node, target_and_key) refl))
        | inr (none, no_key) ↦ absurd (h (rw (found, no_key, target_and_key) refl))
        | inr (some key, same) ↦
            rw (found, same, for_entry, unlock_words, unlock_profile_mapping) refl
      ]
    ]

fine_entry :
    (targets : Table Target) (profile : String) (entry : String × String)
    → target_and_key targets entry ≢ none
    → for_entry targets (unlock_profile_mapping profile) entry ≢ none
fine_entry targets profile entry h =
    λ e. ground (arith, e, for_entry-unlock_profile_mapping targets profile entry h)

map-for_entry :
    (targets : Table Target) (profile : String) (table : Table String)
    → All (λ entry. target_and_key targets entry ≢ none) table
    → map (for_entry targets (unlock_profile_mapping profile)) table
      ≡ map (λ entry. some (unlock_words targets profile entry)) table
map-for_entry targets profile [] h = refl
map-for_entry targets profile (entry ∷ table) h =
    rw (for_entry-unlock_profile_mapping targets profile entry h.0) (
      ap (λ rest. some (unlock_words targets profile entry) ∷ rest)
        (map-for_entry targets profile table h.1))

-- If libprocreact calls `next` once for each entry and reports only processes that were started,
-- and each entry of the table has a target with a key: `unlock` returns, it has started one command
-- that unlocks the profile for each entry, in their order, and its result is TRUE exactly if each
-- process that ended has succeeded.
pub unlock_lem :
    (x : Driver)
    → IsDriver x
    → (targets : Table Target) (table : Table String) (s : LockingState)
      (before : List (List String))
    → started s.commands ≡ some before
    → is_causal [] (x.fork_in_parallel_and_wait s.calls table) ≡ true
    → All (λ entry. target_and_key targets entry ≢ none) table
    → (s' : LockingState) × (unlock x targets table s
        ≡ some (all_succeeded (x.fork_in_parallel_and_wait s.calls table), s'))
      × (s'.commands
          ≡ s.commands ++ map (λ entry. some (unlock_words targets s.profile entry)) table)
unfolding unlock run_iteration create_profile_mapping_iterator init_model_iterator_data
unlock_lem x laws targets table s before e causal reachable =
    let start = unlock_profile_mapping s.profile in
    let events = x.fork_in_parallel_and_wait s.calls table in
    let fine = All-weaken _ _ (λ entry h. fine_entry targets s.profile entry h) table reachable in
    let it =
      create_profile_mapping_iterator targets unlock_operation table
        (record s { calls = suc s.calls }) in
    let (it', ran) =
      handle_events-returns targets unlock_operation table events [] it
        (record {
          known = λ pid e. cc;
          found =
              All-weaken _ _ (λ entry h. for_entry_known targets start entry.0 entry.1 h) table
                fine;
        })
        (laws.complete_spawns s.calls table) causal in
    let (a, b) =
      log_events targets unlock_operation (λ s. s.commands) start (λ t. t.profile ≡ s.profile)
        (unlock-Records s.profile) table events it it' ran (laws.complete_spawns s.calls table)
        refl in
    let (xs, all) = started-map (for_entry targets start) table fine in
    let all' : started it'.user_data.commands ≡ some (before ++ xs) =
      ap started b ∙ started-append s.commands _ before xs e all in
    (
      it'.user_data,
      rw (ran, all', run_iteration) (ap (λ success. some (success, it'.user_data)) a),
      b ∙ ap (λ more. s.commands ++ more) (map-for_entry targets s.profile table reachable),
    )
