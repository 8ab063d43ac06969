-- ===== src/Profiles/Log.antt =====
-- src/libdeploy/distribute.c and src/libdeploy/set-profiles.c: an iteration that keeps a log of what it
-- starts.
use disnix.Prelude.{
  ◌≡◌, ◌≢◌, All, All-weaken, refl, ap, ◌∙◌, String, true, Option, none, some, List, [], map, length,
}
use disnix.Platform.{Table}
use disnix.Model.{Target}
use disnix.ModelIterator.{init_model_iterator_data}
use disnix.Locking.{Event, spawns, create_profile_mapping_iterator, started}
use disnix.Locking.Returns.{is_causal, handle_events-returns}
use disnix.Locking.Log.{
  all_succeeded, for_entry, for_entry_known, Records, log_events, started-map, started_lem,
}
use disnix.Profiles.{logging, run_profile_mappings}

logging-Records :
    {X : Type 0} (start : String → String → Target → Option X)
    → Records (logging start) (λ log. log) start (λ _. Unit {0})
logging-Records start = record {
  mapped = λ name path target s user. refl;
  completes = λ name path status result s. refl;
  mapped_user = λ name path target s user. tt;
  completes_user = λ name path status result s user. tt;
}

module _ {X : Type 0} (targets : Table Target) (start : String → String → Target → Option X)
    (table : Table String) where
  -- If each entry has a target and what it starts does not crash, an iteration comes back with what is
  -- started for the entries, and its success.
  pub run_profile_mappings_lem :
      (events : Table String → List Event)
      → spawns (events table) ≡ length table
      → is_causal [] (events table) ≡ true
      → All (λ entry. for_entry targets start entry ≢ none) table
      → (xs : List X) × (run_profile_mappings targets events start table
          ≡ some (all_succeeded (events table), xs))
        × (map some xs ≡ map (for_entry targets start) table)
  unfolding run_profile_mappings create_profile_mapping_iterator init_model_iterator_data
  run_profile_mappings_lem events n causal fine =
      let it = create_profile_mapping_iterator targets (logging start) table [] in
      let (it', ran) =
        handle_events-returns targets (logging start) table (events table) [] it
          (record {
            known = λ pid e. cc;
            found =
                All-weaken _ _ (λ entry h. for_entry_known targets start entry.0 entry.1 h) table
                  fine;
          })
          n causal in
      let (a, b) =
        log_events targets (logging start) (λ log. log) start (λ _. Unit {0})
          (logging-Records start) table (events table) it it' ran n tt in
      let (xs, all) = started-map (for_entry targets start) table fine in
      let all' : started it'.user_data ≡ some xs = ap started b ∙ all in
      (
        xs,
        rw (ran, all', run_profile_mappings) (ap (λ success. some (success, xs)) a),
        started_lem _ xs all,
      )
