-- ===== src/Orchestrator/Service/Run.antt =====
-- `runDirect` and `_runDirectViaSandbox` of packages/orchestrator/src/orchestrator-service.ts. The
-- registries, the runtimes and the sandboxes are parameters: what they do while the orchestrator
-- waits for them is any action.
use baara_next.Base.{ℕ, ◌-◌, Option, none, some}
use baara_next.Core.Status.{queued, assigned, running}
use baara_next.Core.Types.{
  Key, Text, Task, Execution, ExecuteResult, ResultStatus, no_updates, direct_agent,
}
use baara_next.Core.Errors.{Error, Result, ok, err, other}
use baara_next.Store.{get_execution}
use baara_next.Store.Executions.{create_execution, update_execution_status}
use baara_next.Orchestrator.World.{
  World, Platform, Action, pure, throw, gets, need, swallow, ◌>>=◌, ◌>>◌, on_store, seconds,
  random_uuid,
}
use baara_next.Orchestrator.EventHandler.{
  emit_execution_created, emit_execution_queued, emit_execution_assigned,
}
use baara_next.Orchestrator.Service.Submit.{require_task}
use baara_next.Orchestrator.Service.Complete.{handle_execution_complete}

-- `runtime.execute` of the runtime that the registry has for a task.
abbrev pub Runtime : Type 0
Runtime = (execution_id : Key) → Task → Action ExecuteResult

-- A sandbox: `start`, `execute` on the instance with the checkpoint text of the execution, `stop`.
pub record Sandbox : Type 0 where
  pub start : (execution_id : Key) → Task → Action (Unit {0})
  pub execute : (execution_id : Key) → Task → Option Text → Action ExecuteResult
  pub stop : (execution_id : Key) → Action (Unit {0})

-- What the constructor was given; `getForTask` may throw.
pub record Registries : Type 0 where
  pub runtimes : Option (Task → Result Runtime)
  pub sandboxes : Option (Task → Result Sandbox)

abbrev pub from_result : {A : Type 0} → Result A → Action A
from_result r w = (r, w)

-- The result of a run that threw.
abbrev pub crash_result : Platform → Error → (duration_ms : ℕ) → ExecuteResult
crash_result p e duration_ms = record {
  status = ResultStatus.failed;
  output = none;
  error = some (p.error_text e);
  duration_ms = duration_ms;
  input_tokens = none;
  output_tokens = none;
}

abbrev pub caught :
    Platform → (started : ℕ) → Result ExecuteResult × World → Result ExecuteResult × World
caught p started (ok r, w) = (ok r, w)
caught p started (err e, w) = (ok (crash_result p e (w.now - started)), w)

-- `try { … } catch (err) { result = … }`
abbrev pub catch_crash : Platform → (started : ℕ) → Action ExecuteResult → Action ExecuteResult
catch_crash p started m w = caught p started (m w)

-- `finally`, with a cleanup whose exceptions are dropped.
abbrev pub finally : Action ExecuteResult → Action (Unit {0}) → Action ExecuteResult
finally m cleanup w = ((m w).0, (swallow cleanup (m w).1).1)

module _ (p : Platform) where
  -- The way of a direct execution to `running`, as both methods make it.
  unfoldable pub begin_direct : Task → Action Key
  begin_direct task = do
    id ← random_uuid p
    now ← gets (λ w. w.now)
    stamp ← gets seconds
    on_store (create_execution id task.id task.target_queue task.priority now 1 stamp)
    emit_execution_created p id task.id task.target_queue 1
    on_store (update_execution_status id queued no_updates)
    emit_execution_queued p id task.target_queue
    on_store (update_execution_status id assigned no_updates)
    emit_execution_assigned p id direct_agent
    on_store
        (update_execution_status id running (record no_updates { started_at = some (some now) }))
    pure id

  -- The way of a finished direct execution, as both methods make it.
  unfoldable pub end_direct : (id : Key) → ExecuteResult → Action Execution
  end_direct id r = do handle_execution_complete p id r; need (get_execution id) other

  abbrev pub execute_in : Sandbox → (id : Key) → Task → Action ExecuteResult
  execute_in sandbox id task = do
    execution ← need (get_execution id) other
    sandbox.execute id task execution.checkpoint_data

  -- `sandbox.execute` between `sandbox.start` and the `finally` block.
  abbrev pub sandbox_session : Sandbox → (id : Key) → Task → Action ExecuteResult
  sandbox_session sandbox id task = do
    sandbox.start id task
    finally (execute_in sandbox id task) (sandbox.stop id)

  -- `_runDirectViaSandbox`
  unfoldable pub run_direct_via_sandbox : (Task → Result Sandbox) → Task → Action Execution
  unfolding begin_direct end_direct
  run_direct_via_sandbox registry task = do
    sandbox ← from_result (registry task)
    now ← gets (λ w. w.now)
    id ← begin_direct task
    result ← catch_crash p now (sandbox_session sandbox id task)
    end_direct id result

  unfoldable pub run_direct_via_runtime : (Task → Result Runtime) → Task → Action Execution
  unfolding begin_direct end_direct
  run_direct_via_runtime registry task = do
    execute ← from_result (registry task)
    now ← gets (λ w. w.now)
    id ← begin_direct task
    result ← catch_crash p now (execute id task)
    end_direct id result

  abbrev pub run_with : Registries → Task → Action Execution
  run_with registries task = elim registries.sandboxes [
    | some registry ↦ run_direct_via_sandbox registry task
    | none ↦ elim registries.runtimes [
      | some registry ↦ run_direct_via_runtime registry task
      | none ↦ throw other
    ]
  ]

  -- `runDirect`
  unfoldable pub run_direct : Registries → (task_id : Key) → Action Execution
  unfolding run_direct_via_sandbox run_direct_via_runtime
  run_direct registries task_id = do task ← require_task task_id; run_with registries task
