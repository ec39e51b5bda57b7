-- ===== src/Agent/Service/Runs.antt =====
-- How packages/agent/src/agent.ts serves an assignment.
use baara_next.Base.{ℕ, ◌<◌, List, ◌≡◌, refl, ap, ◌∙◌, some, subst}
use baara_next.Core.Status.{ExecutionStatus, assigned, running}
use baara_next.Core.Errors.{ok}
use baara_next.Core.Types.{Task, Execution, ExecuteResult, ResultStatus}
use baara_next.Store.{Store, get_execution, get_task}
use baara_next.Orchestrator.World.{World, Platform}
use baara_next.Orchestrator.Service.Match.{TaskAssignment, start_execution}
use baara_next.Orchestrator.Service.Complete.{handle_execution_complete}
use baara_next.Orchestrator.Outcomes.Runs.{bind_ok}
use baara_next.Orchestrator.Outcomes.Tracked.{IsFresh, Tracked}
use baara_next.Orchestrator.Outcomes.Changes.{start_execution-Runs}
use baara_next.Orchestrator.Outcomes.Completion.{EndsAs, handle_execution_complete_settles}
use baara_next.Agent.Service.{AgentRuntime, select_runtime, execute_task, run_assignment, rescued}

-- What `matchTask` hands out for an execution.
abbrev pub assignment_of : Execution → Task → TaskAssignment
assignment_of e task = record { execution_id = e.id; task = task; attempt = e.attempt }

ends_same :
    (st : ResultStatus) (m n max_retries : ℕ) (s : ExecutionStatus)
    → m ≡ n
    → EndsAs st m max_retries s
    → EndsAs st n max_retries s
ends_same st m n max_retries s h ends = subst (λ k. EndsAs st k max_retries s) h ends

task_kept :
    (k j : ℕ) (s t : Store) (task : Task)
    → k ≡ j
    → s.tasks ≡ t.tasks
    → get_task j t ≡ some task
    → get_task k s ≡ some task
task_kept k j s t task h e found = rw (h, e) found

module _ (p : Platform) (one_to_one : (m n : ℕ) → p.uuid m ≡ p.uuid n → m ≡ n)
    (small : (n : ℕ) → p.random n < p.scale) where
  -- The report of a run that was started.
  reported_running :
      (w v : World) (e : Execution) (task : Task) (result : ExecuteResult)
      → Tracked p w e w.timers running v
      → get_task e.task_id w.store ≡ some task
      → (last : World) × (handle_execution_complete p e.id result v ≡ (ok tt, last))
        × (x : Execution) × (get_execution e.id last.store ≡ some x)
        × EndsAs result.status e.attempt task.max_retries x.status
  reported_running w v e task result t owned =
      let row = t.row in
      let there : get_execution row.id v.store ≡ some row =
        ap (λ k. get_execution k v.store) t.same_id ∙ t.found in
      let its =
        task_kept row.task_id e.task_id v.store w.store task t.same_task t.same_tasks owned in
      let (last, returns, settled) =
        handle_execution_complete_settles p one_to_one small v row task result t.fresh there
          t.at_status its in
      let (x, found_x, at_x, timers) = settled in
      let ends =
        ends_same result.status row.attempt e.attempt task.max_retries x.status t.same_attempt
          at_x in
      subst
        (λ k.
          (last : World) × (handle_execution_complete p k result v ≡ (ok tt, last))
          × (x : Execution) × (get_execution k last.store ≡ some x)
          × EndsAs result.status e.attempt task.max_retries x.status)
        t.same_id (last, returns, x, found_x, ends)

  executed :
      (runtimes : List AgentRuntime) (w v : World) (e : Execution) (task : Task) (r : AgentRuntime)
      (result : ExecuteResult)
      → select_runtime runtimes task ≡ some r
      → start_execution p e.id w ≡ (ok tt, v)
      → r.execute e.id task v ≡ (ok result, v)
      → execute_task p runtimes (assignment_of e task) w ≡ (ok result, v)
  unfolding execute_task
  executed runtimes w v e task r result chosen started ran =
      rw chosen (bind_ok (start_execution p e.id) (λ _. r.execute e.id task) w v tt started ∙ ran)

  -- Where the ids to come are new and all different, and `Math.random` is below one, let an execution
  -- be assigned, its task be there, and the runtime that the agent selects return a result and leave
  -- the world alone. Then the agent starts the execution, runs it and reports the result. It leaves
  -- the execution completed or cancelled as the result says; after a failure or a timeout it leaves it
  -- waiting for a retry if the task has retries and the next attempt is at most one more than their
  -- number, and dead-lettered otherwise.
  pub run_assignment_settles :
      (runtimes : List AgentRuntime) (w : World) (e : Execution) (task : Task) (r : AgentRuntime)
      (result : ExecuteResult)
      → IsFresh p w
      → get_execution e.id w.store ≡ some e
      → e.status ≡ assigned
      → get_task e.task_id w.store ≡ some task
      → select_runtime runtimes task ≡ some r
      → ((v : World) → r.execute e.id task v ≡ (ok result, v))
      → (v : World) × (run_assignment p runtimes (assignment_of e task) w ≡ (ok tt, v))
        × (x : Execution) × (get_execution e.id v.store ≡ some x)
        × EndsAs result.status e.attempt task.max_retries x.status
  unfolding run_assignment rescued
  run_assignment_settles runtimes w e task r result fresh found at owned chosen runs =
      let start = start_execution-Runs p one_to_one w e fresh found at in
      let t = start.holds in
      let v = start.after in
      let (last, returns, x, found_x, at_x) = reported_running w v e task result t owned in
      let ran = executed runtimes w v e task r result chosen start.returns (runs v) in
      let served =
        bind_ok (execute_task p runtimes (assignment_of e task)) (handle_execution_complete p e.id)
          w v result ran
        ∙ returns in
      (last, rw served refl, x, found_x, at_x)
