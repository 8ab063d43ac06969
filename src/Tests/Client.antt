-- ===== src/Tests/Client.antt =====
-- disnix-client and a bus that answers.
use disnix.Prelude.{◌≡◌, refl, true, false, none, some, [], ◌∷◌, inl, arith}
use disnix.Options.Codes.{op_activate}
use disnix.Options.State.{initial_settings}
use disnix.RemoteCommands.{
  statemgmt_remote_activate, statemgmt_remote_deactivate, statemgmt_remote_snapshot,
  statemgmt_remote_restore, statemgmt_remote_delete_state,
}
use disnix.DisnixClient.{
  call_activate, call_deactivate, call_delete_state, call_snapshot, call_restore, finish, Bus,
  waiting, run_disnix_client,
}
use disnix.DisnixClient.Jobs.{
  IsBus, Reached, run_disnix_client-waiting, hand_on, hand_on-exec_dysnomia_activity,
}
use disnix.Tests.CommandLines.{unset, atoi, arguments}
use disnix.Tests.Getopt.{getopt, getopt-IsGetopt}

-- A job of another client ends, and then that of this one, if a call was made.
abbrev bus : Bus
bus = record {
  proxy_new = λ session. true;
  get_logdir = true;
  get_job_id = some 7;
  call = λ pid method. true;
  signals = λ method. elim method [
    | none ↦ finish 6 [] ∷ []
    | some method ↦ finish 6 [] ∷ finish 7 [] ∷ []
  ];
}

bus-IsBus : IsBus bus
bus-IsBus = record { silent = λ pid e. (ground (arith, e), tt) }

bus-Reached : Reached bus false 7
bus-Reached = record { proxy = refl; logdir = refl; job = refl }

run_disnix_client-waiting_example :
    run_disnix_client bus op_activate initial_settings "default" []
    ≡ record { method = none; ending = waiting }
run_disnix_client-waiting_example =
    run_disnix_client-waiting bus 7 initial_settings bus-Reached "default" [] bus-IsBus op_activate
      refl (inl refl)

hand_on-exec_dysnomia_activity_example :
    ((hand_on bus getopt atoi unset (
        statemgmt_remote_activate "disnix-client" "host" "web" "process" arguments
          "/nix/store/shop")).method
      ≡ some (call_activate "/nix/store/shop" "web" "process" arguments))
    × ((hand_on bus getopt atoi unset (
          statemgmt_remote_deactivate "disnix-client" "host" "web" "process" arguments
            "/nix/store/shop")).method
        ≡ some (call_deactivate "/nix/store/shop" "web" "process" arguments))
    × ((hand_on bus getopt atoi unset (
          statemgmt_remote_snapshot "disnix-client" "host" "web" "process" arguments
            "/nix/store/shop")).method
        ≡ some (call_snapshot "/nix/store/shop" "web" "process" arguments))
    × ((hand_on bus getopt atoi unset (
          statemgmt_remote_restore "disnix-client" "host" "web" "process" arguments
            "/nix/store/shop")).method
        ≡ some (call_restore "/nix/store/shop" "web" "process" arguments))
    × ((hand_on bus getopt atoi unset (
          statemgmt_remote_delete_state "disnix-client" "host" "web" "process" arguments
            "/nix/store/shop")).method
        ≡ some (call_delete_state "/nix/store/shop" "web" "process" arguments))
hand_on-exec_dysnomia_activity_example =
    hand_on-exec_dysnomia_activity bus 7 bus-Reached getopt getopt-IsGetopt atoi unset
      "disnix-client" "host" "web" "process" arguments "/nix/store/shop" refl
