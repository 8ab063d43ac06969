-- ===== src/Traverse/State.antt =====
-- The state of a traversal, and steps on it. A step returns, dereferences a NULL pointer, or has not
-- ended within its fuel; the state that it left comes back in each case.
use disnix.Prelude.{
  ℕ, ◌==◌, str_eq, Option, none, some, List, [], ◌∷◌, String, get_elem?, modify, filter, not,
  if◌then◌else◌,
}
use disnix.Platform.{Table}
use disnix.Model.{ServiceMapping, ServiceMappingStatus, Target}
use disnix.ServiceMappings.{with_status}

pub data ServiceStatus : Type 0 where
  service_error service_in_progress service_wait service_done : ServiceStatus

pub data Activity : Type 0 where
  activate deactivate : Activity

-- What a spawned process runs: disnix's remote state management command, or nothing.
pub data Command : Type 0 where
  remote :
      (activity : Activity)
      → (client_interface : String) → (target_key : Option String) → (container type : String)
      → (arguments : List String) → (pkg : String) → Command
  dummy : Command

pub record TraverseState : Type 0 where
  pub mappings : List ServiceMapping
  pub targets : Table Target
  pub pid_table : List (ℕ × ℕ)  -- a pid, and the position of its mapping
  pub children : List ℕ  -- the processes that have not been reaped
  pub tick : ℕ  -- the calls of the kernel so far
  pub log : List Command  -- the commands started, the first one first

pub data Outcome {ℓ} (A : Type ℓ) : Type ℓ where
  returned : A → Outcome A
  crashed unfinished : Outcome A

abbrev pub Step : Type 0 → Type 0
Step A = TraverseState → Outcome A × TraverseState

abbrev pub return : {A : Type 0} → A → Step A
return a s = (returned a, s)

abbrev pub crash : {A : Type 0} → Step A
crash s = (crashed, s)

abbrev pub proceed : {A B : Type 0} → Outcome A → (A → Step B) → Step B
proceed (returned a) f s = f a s
proceed crashed f s = (crashed, s)
proceed unfinished f s = (unfinished, s)

infixl 5 ◌>>=◌
abbrev pub ◌>>=◌ : {A B : Type 0} → Step A → (A → Step B) → Step B
◌>>=◌ m f s = let (outcome, s') = m s in proceed outcome f s'

-- A pointer that must not be NULL.
abbrev pub with_pointer : {A B : Type 0} → Option A → (A → Step B) → Step B
with_pointer none f = crash
with_pointer (some a) f = f a

abbrev pub status_of : Option ServiceMapping → Option ServiceMappingStatus
status_of none = none
status_of (some m) = some m.status

abbrev pub status_at : List ServiceMapping → ℕ → Option ServiceMappingStatus
status_at arr i = status_of (get_elem? arr i)

abbrev pub set_status : List ServiceMapping → ℕ → ServiceMappingStatus → List ServiceMapping
set_status arr i status = modify arr i (with_status status)

-- A change to the target that a name stands for.
abbrev pub modify_target : String → (Target → Target) → Table Target → Table Target
modify_target name f [] = []
modify_target name f ((k, t) ∷ rest) =
    let others = modify_target name f rest in
    if str_eq k name then (k, f t) ∷ rest else (k, t) ∷ others

abbrev pub lookup_pid : ℕ → List (ℕ × ℕ) → Option ℕ
lookup_pid pid [] = none
lookup_pid pid ((q, i) ∷ rest) = if q == pid then some i else lookup_pid pid rest

abbrev pub remove_pid : ℕ → List (ℕ × ℕ) → List (ℕ × ℕ)
remove_pid pid = filter (λ e. not (e.0 == pid))

-- g_hash_table_insert replaces the entry of a key.
abbrev pub insert_pid : ℕ → ℕ → List (ℕ × ℕ) → List (ℕ × ℕ)
insert_pid pid i table = (pid, i) ∷ remove_pid pid table

-- One occurrence of a reaped process goes.
abbrev pub reap : ℕ → List ℕ → List ℕ
reap pid [] = []
reap pid (q ∷ rest) = let others = reap pid rest in if q == pid then rest else q ∷ others

-- `if(status != SERVICE_DONE) return status;`, and what follows it.
abbrev pub if_done : ServiceStatus → Step ServiceStatus → Step ServiceStatus
if_done service_done next = next
if_done other next = return other
