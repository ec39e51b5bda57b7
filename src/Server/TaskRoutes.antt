-- ===== src/Server/TaskRoutes.antt =====
-- The routes of packages/server/src/routes/tasks.ts.
use baara_next.Base.{Option, none, some, or_else, not, codes, [], ◌∷◌}
use baara_next.Core.Types.{Key, Text, Task, TaskInput}
use baara_next.Core.Errors.{task_not_found, other}
use baara_next.Store.{get_task, get_task_by_name}
use baara_next.Store.Tasks.{list_tasks, delete_task, update_task}
use baara_next.Orchestrator.World.{
  Platform, Action, pure, throw, look, need, gets, on_store, seconds, random_uuid, ◌>>=◌, ◌>>◌,
}
use baara_next.Orchestrator.TaskManager.{create, modify, nothing, sanitize_input}
use baara_next.Orchestrator.Service.Run.{Registries, run_direct, from_result}
use baara_next.Orchestrator.Service.Submit.{submit_task}
use baara_next.Server.Replies.{
  Reply, RequestBody, malformed, null_body, given, reply, accepted, one_task, many_tasks,
  one_execution, failure, complaint, answering, task_errors, create_errors,
}

-- `GET /`
unfoldable pub get_tasks : (project_id : Option Key) → Action Reply
get_tasks project_id = do tasks ← look (list_tasks project_id); pure (reply 200 (many_tasks tasks))

abbrev pub task_reply : Key → Option Task → Reply
task_reply id none = reply 404 (failure (task_not_found id))
task_reply id (some task) = reply 200 (one_task task)

-- `GET /:id`
unfoldable pub get_task_by_id : Key → Action Reply
get_task_by_id id = do
  task ← look (λ s. or_else (get_task id s) (get_task_by_name id s))
  pure (task_reply id task)

-- A change of the task table, and the row that it leaves.
abbrev pub changed_task : Key → Action (Unit {0}) → Action Task
changed_task id m = do m; need (get_task id) (task_not_found id)

-- `PUT /:id`, with the body.
unfoldable pub put_task : Key → RequestBody TaskInput → Action Reply
put_task id null_body = throw other
put_task id malformed = pure (reply 400 (complaint (codes "Invalid JSON body")))
put_task id (given input) = do
  stamp ← gets seconds
  answering task_errors (λ task. reply 200 (one_task task))
      (changed_task id (on_store (modify id input stamp)))

-- `DELETE /:id`
unfoldable pub delete_task_by_id : Key → Action Reply
delete_task_by_id id = answering task_errors (λ _. reply 200 accepted) (on_store (delete_task id))

abbrev pub toggled : Key → Option Task → Action Reply
toggled id none = pure (reply 404 (failure (task_not_found id)))
toggled id (some task) = do
  stamp ← gets seconds
  updated ←
      changed_task id
        (on_store (update_task id (record nothing { enabled = some (not task.enabled) }) stamp))
  pure (reply 200 (one_task updated))

-- `POST /:id/toggle`
unfoldable pub post_toggle : Key → Action Reply
post_toggle id = do task ← look (get_task id); toggled id task

module _ (p : Platform) where
  -- `POST /:id/run`
  unfoldable pub post_run : Registries → Key → Action Reply
  post_run registries id =
      answering task_errors (λ e. reply 200 (one_execution e)) (run_direct p registries id)

  -- `POST /:id/submit`
  unfoldable pub post_submit : Key → Action Reply
  post_submit id = answering task_errors (λ e. reply 201 (one_execution e)) (submit_task p id)

  -- `taskManager.createTask`, which draws the id after the input is clean.
  unfoldable pub create_task_from : TaskInput → Action Task
  create_task_from input = do
    _ ← from_result (sanitize_input input)
    id ← random_uuid p
    stamp ← gets seconds
    changed_task id (on_store (create id input stamp))

  -- `POST /` after the body is read.
  abbrev pub create_checked : Option Key → Option Text → TaskInput → Action Reply
  create_checked none prompt input = pure (reply 400 (complaint (codes "name is required")))
  create_checked (some name) none input = pure (reply 400 (complaint (codes "prompt is required")))
  create_checked (some name) (some []) input =
      pure (reply 400 (complaint (codes "prompt is required")))
  create_checked (some name) (some (c ∷ cs)) input =
      answering create_errors (λ task. reply 201 (one_task task)) (create_task_from input)

  -- `POST /`, with the body.
  unfoldable pub post_task : RequestBody TaskInput → Action Reply
  unfolding create_task_from
  post_task null_body = throw other
  post_task malformed = pure (reply 400 (complaint (codes "Invalid JSON body")))
  post_task (given input) = create_checked input.name input.prompt input
