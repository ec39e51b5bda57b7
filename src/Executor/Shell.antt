-- ===== src/Executor/Shell.antt =====
-- `ShellRuntime` of packages/executor/src/runtimes/shell.ts.
use baara_next.Base.{
  ℕ, List, [], ◌∷◌, ◌++◌, Bool, true, not, Option, none, some, if◌then◌else◌, ◌==◌, keep, exists_in,
  codes, decimal, same_text,
}
use baara_next.Core.Types.{Key, Text, ExecuteResult, ResultStatus, completed, timed_out}
use baara_next.Executor.CloudCode.{exceeded}

-- What a process does: it exits, with what it wrote, or an error is thrown.
pub data Process : Type 0 where
  exited : (code : ℕ) → (stdout : Text) → (stderr : Text) → Process
  unspawned : (message : Text) → Process

-- `procs` holds the executions whose process runs.
pub record ShellRuntime : Type 0 where
  pub disabled : Bool
  pub procs : List Key

-- `initialize`, with the value of `BAARA_SHELL_ENABLED`.
abbrev pub initialize : Option Text → ShellRuntime → ShellRuntime
initialize none r = record r { disabled = true }
initialize (some enabled) r =
    if same_text enabled (codes "true") then r else record r { disabled = true }

abbrev pub failed_with : (output : Option Text) → (error : Text) → (duration : ℕ) → ExecuteResult
failed_with output error duration = record {
  status = ResultStatus.failed;
  output = output;
  error = some error;
  duration_ms = duration;
  input_tokens = none;
  output_tokens = none;
}

-- `stderr || "Exit code …"`
abbrev pub complaint : Text → Text → Text
complaint [] instead = instead
complaint (c ∷ cs) instead = c ∷ cs

abbrev pub result_of : Process → (killed : Bool) → (timeout duration : ℕ) → ExecuteResult
result_of (unspawned message) killed timeout duration = failed_with none message duration
result_of (exited code stdout stderr) killed timeout duration =
    if killed
    then record {
      status = timed_out;
      output = none;
      error = some (exceeded timeout);
      duration_ms = duration;
      input_tokens = none;
      output_tokens = none;
    }
    else if code == 0
    then record {
      status = completed;
      output = some stdout;
      error = none;
      duration_ms = duration;
      input_tokens = none;
      output_tokens = none;
    }
    else failed_with (some stdout) (complaint stderr (codes "Exit code " ++ decimal code)) duration

abbrev pub add_proc : Key → List Key → List Key
add_proc k ks = if exists_in (λ x. x == k) ks then ks else ks ++ k ∷ []

abbrev pub delete_proc : Key → List Key → List Key
delete_proc k ks = keep (λ x. not (x == k)) ks

-- The part of `execute` before the process ends; `none` when the runtime is disabled.
abbrev pub start_shell : Key → ShellRuntime → Option ShellRuntime
start_shell execution_id r =
    if r.disabled then none else some (record r { procs = add_proc execution_id r.procs })

-- `execute`; `killed` says whether the timer of the timeout has fired.
unfoldable pub execute_shell :
    Key
    → Process
    → (killed : Bool) → (timeout duration : ℕ) → ShellRuntime
    → ExecuteResult × ShellRuntime
execute_shell execution_id process killed timeout duration r = elim (start_shell execution_id r) [
  | none ↦ (
    failed_with none (codes "Shell runtime is disabled. Set BAARA_SHELL_ENABLED=true to enable.") 0,
    r,
  )
  | some started ↦ (
    result_of process killed timeout duration,
    record started { procs = delete_proc execution_id started.procs },
  )
]

-- `cancel` and `shutdown`: the executions whose process is killed, and the runtime.
abbrev pub cancel_shell : Key → ShellRuntime → List Key
cancel_shell execution_id r = keep (λ x. x == execution_id) r.procs

abbrev pub shutdown_shell : ShellRuntime → List Key × ShellRuntime
shutdown_shell r = (r.procs, record r { procs = [] })
