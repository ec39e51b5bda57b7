-- ===== src/Tests/Store.antt =====
-- The store and the task manager at concrete values.
use baara_next.Base.{◌∷◌}
use baara_next.Core.Types.{TaskMessage, outbound, checkpoint_type}
use baara_next.Store.Events.{list_events}
use baara_next.Store.Logs.{of_execution, IsConsecutive, list_events-IsConsecutive, sent}
use baara_next.Base.{◌≡◌, ◌≢◌, ◌⊎◌, inl, inr, [], true, none, some, refl, arith, All, keep, update}
use baara_next.Core.Types.{Execution, TaskInput, transfer_queue}
use baara_next.Store.{Store, get_execution, get_task}
use baara_next.Store.Soundness.{IsSound}
use baara_next.Store.Executions.{dequeue_execution, is_waiting_in, assign}
use baara_next.Store.Selection.{IsFirst, dequeue_execution_min}
use baara_next.Store.Tasks.{delete_task, update_task, with_input}
use baara_next.Store.Deletion.{delete_task-IsSound}
use baara_next.Orchestrator.TaskManager.{sanitize_input, modify, nothing}
use baara_next.Orchestrator.TaskManager.Limits.{IsLimited, create-IsLimited}
use baara_next.Tests.Sample.{store, store-IsSound}

dequeue_execution_min_example :
    ((keep (is_waiting_in transfer_queue) store.executions ≡ [])
      × (dequeue_execution transfer_queue store ≡ (none, store)))
    ⊎ ((row : Execution) × (get_execution row.id store ≡ some row)
        × (is_waiting_in transfer_queue row ≡ true)
        × IsFirst row (keep (is_waiting_in transfer_queue) store.executions)
        × (dequeue_execution transfer_queue store ≡ (
          some (assign row),
          record store { executions = update (λ e. e.id) row.id assign store.executions },
        )))
dequeue_execution_min_example =
    dequeue_execution_min transfer_queue store store-IsSound.executions_distinct

-- The store without the task and what belongs to it.
abbrev empty : Store
empty = record store { tasks = []; executions = []; events = [] }

delete_task-IsSound_example :
    IsSound empty
    × (get_task 20 empty ≡ none)
    × All (λ (e : Execution). e.task_id ≢ 20) empty.executions
unfolding delete_task
delete_task-IsSound_example = delete_task-IsSound 20 store empty store-IsSound refl

-- An input that asks for a timeout of one millisecond and for a hundred retries.
abbrev extreme : TaskInput
extreme = record nothing { timeout_ms = some 1; max_retries = some 100 }

abbrev tamed : TaskInput
tamed = record nothing { timeout_ms = some 1000; max_retries = some 10 }

abbrev changed : Store
changed = record store { tasks = update (λ t. t.id) 20 (with_input tamed 6) store.tasks }

create-IsLimited_example : All IsLimited changed.tasks
unfolding sanitize_input update_task modify
create-IsLimited_example =
    create-IsLimited 20 extreme 6 store changed (((omega arith, omega arith), omega arith), tt)
      (inr (inl refl))

list_events-IsConsecutive_example :
    (list_events 30 none none store ≡ keep (of_execution 30) store.events)
    × IsConsecutive 1 (list_events 30 none none store)
list_events-IsConsecutive_example = list_events-IsConsecutive 30 store store-IsSound

abbrev note : TaskMessage
note = sent 50 30 outbound checkpoint_type (1 ∷ []) 8
