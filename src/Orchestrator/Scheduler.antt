-- ===== src/Orchestrator/Scheduler.antt =====
-- packages/orchestrator/src/scheduler.ts. When a cron expression fires is the environment's choice.
pub mod Jobs
use baara_next.Base.{
  List, [], ◌∷◌, ◌++◌, Bool, true, false, ◌&&◌, Option, none, some, if◌then◌else◌, remove, keep,
  not, set_in,
}
use baara_next.Core.Status.{queued}
use baara_next.Core.Types.{Key, Text, Task, no_updates}
use baara_next.Core.Errors.{ok, other}
use baara_next.Store.{get_task}
use baara_next.Store.Tasks.{list_tasks}
use baara_next.Store.Executions.{create_execution, update_execution_status}
use baara_next.Orchestrator.World.{
  Job, Platform, Action, done, gets, look, ◌>>=◌, ◌>>◌, on_store, swallow, seconds, when, throw,
  random_uuid,
}
use baara_next.Orchestrator.EventHandler.{emit_execution_created, emit_execution_queued}
use baara_next.Orchestrator.QueueManager.{enqueue}

-- `unregister`
unfoldable pub unregister : (task_id : Key) → Action (Unit {0})
unregister task_id w = (ok tt, record w { jobs = remove (λ j. j.task_id) task_id w.jobs })

-- `this.jobs.set(taskId, job)`
abbrev pub set_job : Job → Action (Unit {0})
set_job j w = (ok tt, record w { jobs = set_in (λ x. x.task_id) j w.jobs })

-- `register`: the job that the task has is dropped first, and then `new Cron` throws on a text that is
-- no cron expression.
unfoldable pub register : Platform → (task_id : Key) → (cron_expression : Text) → Action (Unit {0})
unfolding unregister
register p task_id cron_expression = do
  unregister task_id
  when (not (p.is_cron cron_expression)) (throw other)
  set_job (record { task_id = task_id; cron_expression = cron_expression })

-- `t.enabled && t.cronExpression`; the empty text is false.
abbrev pub recurs : Task → Bool
recurs t = t.enabled && elim t.cron_expression [ none ↦ false | some [] ↦ false | some _ ↦ true ]

abbrev pub cron_of : Task → Text
cron_of t = elim t.cron_expression [ none ↦ [] | some c ↦ c ]

unfoldable pub register_all : Platform → List Task → Action (Unit {0})
unfolding register
register_all p [] = done
register_all p (t ∷ ts) = register p t.id (cron_of t) >> register_all p ts

-- `startAll`
unfoldable pub start_all : Platform → Action (Unit {0})
unfolding register_all
start_all p = do tasks ← look (list_tasks none); register_all p (keep recurs tasks)

-- `stop`
unfoldable pub stop : Action (Unit {0})
stop w = (ok tt, record w { jobs = [] })

module _ (p : Platform) where
  -- The `try` block of a job's callback.
  unfoldable pub submit_tick : Task → Action (Unit {0})
  submit_tick task = do
    exec_id ← random_uuid p
    now ← gets (λ w. w.now)
    stamp ← gets seconds
    on_store (create_execution exec_id task.id task.target_queue task.priority now 1 stamp)
    emit_execution_created p exec_id task.id task.target_queue 1
    on_store (update_execution_status exec_id queued no_updates)
    emit_execution_queued p exec_id task.target_queue
    enqueue task.target_queue

  abbrev pub tick_task : Option Task → Action (Unit {0})
  tick_task none = done
  tick_task (some task) = if task.enabled then swallow (submit_tick task) else done

  -- The callback that `register` gives to the cron job.
  unfoldable pub tick : (task_id : Key) → Action (Unit {0})
  unfolding submit_tick
  tick task_id = do task ← look (get_task task_id); tick_task task
