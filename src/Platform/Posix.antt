-- ===== src/Platform/Posix.antt =====
-- The processes of the coordinator, as the kernel and libprocreact show them: a `World` answers the
-- calls in order, so the n-th call may be answered differently from the one before.
use disnix.Prelude.{ℕ, suc, ◌≤◌, ◌<◌, ◌≡◌, ◌≢◌, Bool, Option, none, some, List, [], Memᴰ}

-- libprocreact's `ProcReact_Status`.
pub data ProcReactStatus : Type 0 where
  ok fork_fail wait_fail abnormal_termination : ProcReactStatus

-- What `wait` and then `procreact_retrieve_boolean` tell of a finished process.
pub record Exit : Type 0 where
  pub pid : ℕ
  pub status : ProcReactStatus
  pub result : Bool

-- The answers at each tick: of `fork` (`none` for -1), of `wait` given the children that have not
-- been reaped (`none` for -1), and the value that the flag `interrupted` has when it is read.
pub record World : Type 0 where
  pub fork : ℕ → List ℕ → Option ℕ
  pub wait : ℕ → List ℕ → Option Exit
  pub interrupted : ℕ → Bool

-- What POSIX says of the two calls: a new process has an unused pid, and `wait` reports a child. While
-- there are children it fails only if a signal interrupts it (EINTR), as SIGINT does with the handler
-- of src/libmain/interrupt.c; `signals` says how many such signals are still to come at a tick.
pub record IsWorld (w : World) : Type 0 where
  pub fork_fresh :
      (tick : ℕ) (children : List ℕ) (pid : ℕ)
      → w.fork tick children ≡ some pid
      → ¬ Memᴰ pid children
  pub wait_child :
      (tick : ℕ) (children : List ℕ) (e : Exit)
      → w.wait tick children ≡ some e
      → Memᴰ e.pid children
  pub signals : ℕ → ℕ
  pub signals_pass : (tick : ℕ) → signals (suc tick) ≤ signals tick
  pub wait_interrupted :
      (tick : ℕ) (children : List ℕ)
      → children ≢ []
      → w.wait tick children ≡ none
      → signals (suc tick) < signals tick
