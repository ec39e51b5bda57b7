-- ===== src/Agent/Service.antt =====
-- `AgentService` of packages/agent/src/agent.ts, on the transport of a single process
-- (packages/transport/src/dev-transport.ts), whose methods are those of the orchestrator.
use baara_next.Base.{
  set_in, ℕ, List, [], ◌∷◌, ◌++◌, Bool, true, false, Option, none, some, if◌then◌else◌, ◌==◌,
  or_else, get_or, find, is_some, codes,
}
use baara_next.Core.Errors.{Result, ok, err, Error}
use baara_next.Core.Types.{Key, Text, Task, SandboxType, ExecuteResult, ResultStatus}
use baara_next.Orchestrator.World.{World, Platform, Action, pure, throw, done, ◌>>=◌, ◌>>◌, swallow}
use baara_next.Orchestrator.Service.Match.{TaskAssignment, match_task, start_execution}
use baara_next.Orchestrator.Service.Complete.{handle_execution_complete}
use baara_next.Executor.Registries.{add_capabilities, cloud_code_name, shell_name, runtime_name}
pub mod Stuck
pub mod Runs

-- A runtime: what its `execute` does while the agent waits for it is any action.
pub record AgentRuntime : Type 0 where
  pub name : Key
  pub capabilities : List Key
  pub execute : (execution_id : Key) → Task → Action ExecuteResult

-- `new Map(runtimes.map(r => [r.name, r]))`
abbrev pub runtime_map : List AgentRuntime → List AgentRuntime → List AgentRuntime
runtime_map [] map = map
runtime_map (r ∷ rs) map = runtime_map rs (set_in (λ x. x.name) r map)

abbrev pub get_runtime : Key → List AgentRuntime → Option AgentRuntime
get_runtime = find (λ r. r.name)

abbrev pub all_capabilities : List AgentRuntime → List Key → List Key
all_capabilities [] seen = seen
all_capabilities (r ∷ rs) seen = all_capabilities rs (add_capabilities r.capabilities seen)

-- The tool `Bash`.
abbrev pub bash_tool : Key
bash_tool = 19

abbrev pub tools_of : Task → List Key
tools_of task = elim task.agent_config [ none ↦ [] | some c ↦ get_or c.allowed_tools [] ]

abbrev pub is_simple : List Key → Bool
is_simple [] = true
is_simple (t ∷ []) = t == bash_tool
is_simple (t ∷ u ∷ ts) = false

-- `selectRuntimeForTask`
unfoldable pub select_runtime : List AgentRuntime → Task → Option AgentRuntime
select_runtime runtimes task =
    let full =
      or_else (get_runtime (runtime_name task.execution_type) runtimes)
        (get_runtime cloud_code_name runtimes) in
    if is_simple (tools_of task) then or_else (get_runtime shell_name runtimes) full else full

-- A failure without a run.
abbrev pub failure_of : Text → ExecuteResult
failure_of message = record {
  status = ResultStatus.failed;
  output = none;
  error = some message;
  duration_ms = 0;
  input_tokens = none;
  output_tokens = none;
}

abbrev pub sandbox_text : SandboxType → Text
sandbox_text SandboxType.native = codes "native"
sandbox_text SandboxType.wasm = codes "wasm"
sandbox_text SandboxType.docker = codes "docker"

-- `try { … } catch (err) { … }`
unfoldable pub rescued :
    Result (Unit {0}) × World → (Error → Action (Unit {0})) → Result (Unit {0}) × World
rescued (ok done, w) handler = (ok done, w)
rescued (err e, w) handler = handler e w

module _ (p : Platform) (runtimes : List AgentRuntime) where
  -- `executeTask`; the heartbeats meanwhile are calls of their own.
  abbrev pub execute_with : Option AgentRuntime → TaskAssignment → Action ExecuteResult
  execute_with none a = pure (
      failure_of (
        codes "No runtime registered for task \""
        ++ p.key_text a.task.name
        ++ codes "\" (sandbox: "
        ++ sandbox_text a.task.sandbox_type
        ++ codes ")"))
  execute_with (some r) a = do start_execution p a.execution_id; r.execute a.execution_id a.task

  unfoldable pub execute_task : TaskAssignment → Action ExecuteResult
  execute_task a = execute_with (select_runtime runtimes a.task) a

  -- The `try` block of the loop.
  abbrev pub serve : TaskAssignment → Action (Unit {0})
  serve a = do result ← execute_task a; handle_execution_complete p a.execution_id result

  -- The report of an error; its own failure is only logged.
  abbrev pub report_error : TaskAssignment → Error → Action (Unit {0})
  report_error a e =
      swallow (handle_execution_complete p a.execution_id (failure_of (p.error_text e)))

  -- The loop for one assignment.
  unfoldable pub run_assignment : TaskAssignment → Action (Unit {0})
  run_assignment a w = rescued (serve a w) (report_error a)

  -- One turn of the loop: a poll that throws finds nothing, and then the agent waits.
  abbrev pub take_polled : Result (Option TaskAssignment) × World → Result (Unit {0}) × World
  take_polled (ok (some a), w) = run_assignment a w
  take_polled (ok none, w) = (ok tt, w)
  take_polled (err e, w) = (ok tt, w)

  unfoldable pub loop_turn : (agent_id : Key) → Action (Unit {0})
  loop_turn agent_id w = take_polled (match_task p agent_id w)
