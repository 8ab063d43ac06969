-- ===== src/RunActivity/Served.antt =====
-- src/run-activity/run-activity.c: what the command lines of the coordinator come to on a machine.
use text.Mathlib.Text.{starts_with}
use disnix.Prelude.{
  ◌≡◌, refl, ap, not, ◌&&◌, ◌||◌, ◌==◌, is_some, Bool-cases, if◌then◌else◌, Bool, true, false,
  Option, none, some, String, List, [], ◌∷◌, inl, inr,
}
use disnix.Options.Codes.{
  Operation, op_activate, op_deactivate, op_snapshot, op_restore, op_delete_state, op_shell,
  op_export, op_capture_config,
}
use disnix.Options.State.{ℤ, Settings}
use disnix.Options.{Getopt, IsGetopt, run_activity, main}
use disnix.RemoteCommands.{
  statemgmt_remote_activate, statemgmt_remote_deactivate, statemgmt_remote_snapshot,
  statemgmt_remote_restore, statemgmt_remote_delete_state,
}
use disnix.RemoteCommands.Activities.{main-exec_dysnomia_activity}
use disnix.RunActivity.{
  Call, statemgmt_activate, statemgmt_deactivate, statemgmt_collect_garbage, statemgmt_snapshot,
  statemgmt_restore, Machine, Report, check_dysnomia_activity_parameters, wait_for, return_tempfile,
  run_disnix_activity, perform, with_parameters, is_one, tmpdir_of, first, statemgmt_shell,
  pkgmgmt_export_closure, statemgmt_capture_config,
}

module _ (m : Machine) (getopt : Getopt) (laws : IsGetopt getopt) (atoi : String → ℤ) where
  -- disnix-run-activity, given a command line.
  abbrev pub serve : List String → Report
  serve argv = perform m (main run_activity getopt atoi m.environment argv)

  -- For a service whose path does not begin with a dash: each command line by which the coordinator
  -- activates, deactivates, snapshots, restores or deletes the state of a service makes
  -- disnix-run-activity call that function once, with the type, the service, the container and the
  -- arguments in their order, and end with its exit status.
  pub serve-exec_dysnomia_activity :
      (interface target container type : String) (arguments : List String) (service : String)
      → starts_with service "-" ≡ false
      → (serve (statemgmt_remote_activate interface target container type arguments service)
          ≡ wait_for m (statemgmt_activate (some type) (some service) container arguments))
        × (serve (statemgmt_remote_deactivate interface target container type arguments service)
            ≡ wait_for m (statemgmt_deactivate (some type) (some service) container arguments))
        × (serve (statemgmt_remote_snapshot interface target container type arguments service)
            ≡ wait_for m (statemgmt_snapshot (some type) (some service) container arguments))
        × (serve (statemgmt_remote_restore interface target container type arguments service)
            ≡ wait_for m (statemgmt_restore (some type) (some service) container arguments))
        × (serve (statemgmt_remote_delete_state interface target container type arguments service)
            ≡ wait_for m (statemgmt_collect_garbage (some type) (some service) container arguments))
  unfolding run_disnix_activity check_dysnomia_activity_parameters
  serve-exec_dysnomia_activity interface target container type arguments service word =
      let (a, d, s, r, x) =
        main-exec_dysnomia_activity run_activity getopt laws atoi m.environment interface target
          container type arguments service word in
      (ap (perform m) a, ap (perform m) d, ap (perform m) s, ap (perform m) r, ap (perform m) x)

-- The name of the file, if its process succeeds and fchmod does not return 1.
abbrev pub printed : Machine → Call → List String
printed m call =
    if m.wait_for_boolean call && not (is_one m (m.fchmod (m.tempfilename call)))
    then m.tempfilename call ∷ []
    else []

output-return_tempfile :
    (m : Machine) (call : Call) → (return_tempfile m call).output ≡ printed m call
unfolding return_tempfile
output-return_tempfile m call = elim (Bool-cases (m.wait_for_boolean call)) [
  | inl good ↦ elim (Bool-cases (is_one m (m.fchmod (m.tempfilename call)))) [
    | inl one ↦ rw (good, one, return_tempfile) refl
    | inr other ↦ rw (good, other, return_tempfile) refl
  ]
  | inr bad ↦ rw (bad, return_tempfile) refl
]

-- The operations on a component.
abbrev pub is_activity : Operation → Bool
is_activity op_activate = true
is_activity op_deactivate = true
is_activity op_snapshot = true
is_activity op_restore = true
is_activity op_delete_state = true
is_activity op_shell = true
is_activity other = false

-- What a report says of an operation on a component with this type and these paths: there was a call
-- exactly if both are given, otherwise the exit status is 1, and nothing is printed.
abbrev pub IsGuarded : Option String → List String → Report → Type 0
IsGuarded type paths report =
    (is_some report.call ≡ (is_some type && is_some (first paths)))
    × ((is_some report.call || report.exit_status == 1) ≡ true)
    × (report.output ≡ [])

with_parameters-IsGuarded :
    (m : Machine) (type : Option String) (paths : List String) (container : Option String)
    (f : Option String → Option String → String → Call)
    → IsGuarded type paths (
        with_parameters m type paths container
          (λ type path container. wait_for m (f type path container)))
unfolding check_dysnomia_activity_parameters
with_parameters-IsGuarded m none paths container f = (refl, refl, refl)
with_parameters-IsGuarded m (some type) [] container f = (refl, refl, refl)
with_parameters-IsGuarded m (some type) (path ∷ rest) container f = (refl, refl, refl)

-- An operation on a component makes a call exactly if a type and a path are given; otherwise it
-- ends with exit status 1; and it prints nothing itself.
pub run_disnix_activity-refused :
    (m : Machine) (operation : Operation) (s : Settings) (profile : String) (paths : List String)
    → is_activity operation ≡ true
    → IsGuarded s.type paths (run_disnix_activity m operation s profile paths)
unfolding run_disnix_activity
run_disnix_activity-refused m op_activate s profile paths e =
    with_parameters-IsGuarded m s.type paths s.container
      (λ type path container. statemgmt_activate type path container s.arguments)
run_disnix_activity-refused m op_deactivate s profile paths e =
    with_parameters-IsGuarded m s.type paths s.container
      (λ type path container. statemgmt_deactivate type path container s.arguments)
run_disnix_activity-refused m op_snapshot s profile paths e =
    with_parameters-IsGuarded m s.type paths s.container
      (λ type path container. statemgmt_snapshot type path container s.arguments)
run_disnix_activity-refused m op_restore s profile paths e =
    with_parameters-IsGuarded m s.type paths s.container
      (λ type path container. statemgmt_restore type path container s.arguments)
run_disnix_activity-refused m op_delete_state s profile paths e =
    with_parameters-IsGuarded m s.type paths s.container
      (λ type path container. statemgmt_collect_garbage type path container s.arguments)
run_disnix_activity-refused m op_shell s profile paths e =
    with_parameters-IsGuarded m s.type paths s.container
      (λ type path container. statemgmt_shell type path container s.arguments s.command)
run_disnix_activity-refused m _ s profile paths e = cc

-- For every machine and all settings: an export of a closure and a capture of the configuration end
-- with exit status 0, whether their process succeeds or not, and print the name of the file exactly
-- if it does and fchmod does not return 1.
pub run_disnix_activity-return_tempfile :
    (m : Machine) (s : Settings) (profile : String) (paths : List String)
    → ((run_disnix_activity m op_export s profile paths).exit_status ≡ 0)
      × ((run_disnix_activity m op_export s profile paths).output
          ≡ printed m (pkgmgmt_export_closure (tmpdir_of m) paths))
      × ((run_disnix_activity m op_capture_config s profile paths).exit_status ≡ 0)
      × ((run_disnix_activity m op_capture_config s profile paths).output
          ≡ printed m (statemgmt_capture_config (tmpdir_of m)))
unfolding run_disnix_activity
run_disnix_activity-return_tempfile m s profile paths =
    (refl, output-return_tempfile m _, refl, output-return_tempfile m _)
