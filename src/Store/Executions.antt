-- ===== src/Store/Executions.antt =====
-- The executions of packages/store/src/sqlite-store.ts.
use baara_next.Base.{
  ℕ, List, [], ◌∷◌, ◌++◌, Bool, not, ◌&&◌, Option, none, some, if◌then◌else◌, ltb, ◌==◌, is_some,
  get_or, update, keep, length, take,
}
use baara_next.Core.Status.{
  ExecutionStatus, created, queued, assigned, same_status, can_transition, dead_lettered,
  waiting_for_input,
}
use baara_next.Core.Errors.{
  Result, ok, or_err, guard, execution_not_found, invalid_state_transition, constraint_failed,
  ◌>>=◌, ◌>>◌,
}
use baara_next.Core.Types.{Key, Execution, ExecutionUpdates, HealthStatus, Text, healthy}
use baara_next.Store.Schema.{Store, get_task, get_execution, newest_first}

-- A row as the INSERT of `createExecution` and the defaults of the schema make it.
abbrev pub new_execution :
    (id task_id queue_name : Key) (priority scheduled_at attempt now : ℕ) → Execution
new_execution id task_id queue_name priority scheduled_at attempt now = record {
  id = id;
  task_id = task_id;
  queue_name = queue_name;
  priority = priority;
  status = created;
  attempt = attempt;
  scheduled_at = scheduled_at;
  started_at = none;
  completed_at = none;
  duration_ms = none;
  output = none;
  error = none;
  input_tokens = none;
  output_tokens = none;
  health_status = healthy;
  turn_count = 0;
  checkpoint_data = none;
  thread_id = none;
  created_at = now;
}

-- `createExecution`; the id is a primary key, the task a foreign key.
unfoldable pub create_execution :
    (id task_id queue_name : Key) (priority scheduled_at attempt now : ℕ) → Store → Result Store
create_execution id task_id queue_name priority scheduled_at attempt now s = do
  guard (not (is_some (get_execution id s))) constraint_failed
  guard (is_some (get_task task_id s)) constraint_failed
  let e = new_execution id task_id queue_name priority scheduled_at attempt now
  ok (record s { executions = s.executions ++ e ∷ [] })

-- The SET clauses of `updateExecutionStatus`.
abbrev pub with_status : ExecutionStatus → ExecutionUpdates → Execution → Execution
with_status status u e = record e {
  status = status;
  started_at = get_or u.started_at e.started_at;
  completed_at = get_or u.completed_at e.completed_at;
  duration_ms = get_or u.duration_ms e.duration_ms;
  output = get_or u.output e.output;
  error = get_or u.error e.error;
  input_tokens = get_or u.input_tokens e.input_tokens;
  output_tokens = get_or u.output_tokens e.output_tokens;
  health_status = get_or u.health_status e.health_status;
  turn_count = get_or u.turn_count e.turn_count;
  checkpoint_data = get_or u.checkpoint_data e.checkpoint_data;
}

-- `updateExecutionStatus`
unfoldable pub update_execution_status :
    (id : Key) (status : ExecutionStatus) (u : ExecutionUpdates) → Store → Result Store
update_execution_status id status u s = do
  existing ← or_err (get_execution id s) (execution_not_found id)
  guard (can_transition existing.status status) (invalid_state_transition existing.status status id)
  ok (record s { executions = update (λ e. e.id) id (with_status status u) s.executions })

-- The SET clauses of `updateExecutionFields`; without any, no statement is run.
abbrev pub with_fields :
    Option ℕ → Option HealthStatus → Option (Option Text) → Execution → Execution
with_fields turn_count health_status checkpoint_data e = record e {
  turn_count = get_or turn_count e.turn_count;
  health_status = get_or health_status e.health_status;
  checkpoint_data = get_or checkpoint_data e.checkpoint_data;
}

-- `updateExecutionFields`
unfoldable pub update_execution_fields :
    (id : Key) → Option ℕ → Option HealthStatus → Option (Option Text) → Store → Result Store
update_execution_fields id turn_count health_status checkpoint_data s = do
  _ ← or_err (get_execution id s) (execution_not_found id)
  let f = with_fields turn_count health_status checkpoint_data
  ok (record s { executions = update (λ e. e.id) id f s.executions })

-- `ORDER BY priority ASC, created_at ASC`
abbrev pub comes_before : Execution → Execution → Bool
comes_before a b =
    if ltb a.priority b.priority
    then Bool.true
    else (if a.priority == b.priority then ltb a.created_at b.created_at else Bool.false)

-- The first row of that order with `LIMIT 1`; of equal rows the one inserted first.
unfoldable pub first_in_order : List Execution → Option Execution
first_in_order [] = none
first_in_order (x ∷ xs) = elim (first_in_order xs) [
  | none ↦ some x
  | some y ↦ if comes_before y x then some y else some x
]

-- `queue_name = ? AND status = 'queued'`
abbrev pub is_waiting_in : Key → Execution → Bool
is_waiting_in queue_name e = e.queue_name == queue_name && same_status e.status queued

abbrev pub assign : Execution → Execution
assign e = record e { status = assigned }

-- `dequeueExecution`: one transaction, which returns the row that it has updated.
unfoldable pub dequeue_execution : (queue_name : Key) → Store → Option Execution × Store
unfolding first_in_order
dequeue_execution queue_name s =
    elim (first_in_order (keep (is_waiting_in queue_name) s.executions)) [
      | none ↦ (none, s)
      | some row ↦
          let s' = record s { executions = update (λ e. e.id) row.id assign s.executions } in
          (get_execution row.id s', s')
    ]

-- `opts?.status` and `opts?.limit`; a limit of 0 is none.
abbrev pub has_status : Option ExecutionStatus → Execution → Bool
has_status none e = Bool.true
has_status (some status) e = same_status e.status status

abbrev pub limit {ℓ} : {A : Type ℓ} → Option ℕ → List A → List A
limit none xs = xs
limit (some n) xs = if n == 0 then xs else take n xs

-- `listAllExecutions`
unfoldable pub list_all_executions : Option ExecutionStatus → Option ℕ → Store → List Execution
list_all_executions status n s =
    limit n (newest_first (λ e. e.created_at) (keep (has_status status) s.executions))

-- `listExecutions`
unfoldable pub list_executions : Key → Option ExecutionStatus → Option ℕ → Store → List Execution
list_executions task_id status n s = limit n (
    newest_first (λ e. e.created_at)
      (keep (λ e. e.task_id == task_id && has_status status e) s.executions))

-- `countExecutionsByStatus`
unfoldable pub count_executions_by_status : ExecutionStatus → Store → ℕ
count_executions_by_status status s = length (keep (λ e. same_status e.status status) s.executions)

-- `getDeadLetteredExecutions`
unfoldable pub get_dead_lettered_executions : Store → List Execution
get_dead_lettered_executions s =
    newest_first (λ e. e.created_at) (keep (λ e. same_status e.status dead_lettered) s.executions)

-- `getPendingInputExecutions`
unfoldable pub get_pending_input_executions : Store → List Execution
get_pending_input_executions s =
    newest_first (λ e. e.created_at)
      (keep (λ e. same_status e.status waiting_for_input) s.executions)
