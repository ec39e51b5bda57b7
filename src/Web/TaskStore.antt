-- ===== src/Web/TaskStore.antt =====
-- The task store of packages/web/src/stores/task-store.ts; the answers of the server are arguments.
use baara_next.Base.{
  Bool, true, false, not, List, [], ◌∷◌, ◌++◌, Option, none, some, find, remove, update, get_or,
  codes,
}
use baara_next.Core.Types.{Key, Text, Task}
use baara_next.Web.Requests.{Response, Outcome, returned, refused, settled, rethrown}

pub record TaskStore : Type 0 where
  pub tasks : List Task
  pub loading : Bool
  pub error : Option Text

-- `set({ loading: false, error: err instanceof Error ? err.message : … })`
abbrev pub failing : Option Text → Text → TaskStore → TaskStore
failing message otherwise s = record s { loading = false; error = some (get_or message otherwise) }

-- `set({ error: err instanceof Error ? err.message : … })`
abbrev pub noting : Option Text → Text → TaskStore → TaskStore
noting message otherwise s = record s { error = some (get_or message otherwise) }

-- `fetchTasks`, `createTask` and `deleteTask` begin with `set({ loading: true, error: null })`.
abbrev pub begin_loading : TaskStore → TaskStore
begin_loading s = record s { loading = true; error = none }

-- `fetchTasks`
unfoldable pub fetch_tasks : Response (List Task) → TaskStore → Outcome TaskStore
fetch_tasks (returned tasks) s =
    settled (record (begin_loading s) { tasks = tasks; loading = false })
fetch_tasks (refused m) s = settled (failing m (codes "Failed to fetch tasks") (begin_loading s))

-- `createTask`
unfoldable pub add_created_task : Response Task → TaskStore → Outcome TaskStore
add_created_task (returned task) s =
    settled (record (begin_loading s) { tasks = s.tasks ++ task ∷ []; loading = false })
add_created_task (refused m) s =
    rethrown (failing m (codes "Failed to create task") (begin_loading s))

-- `deleteTask`
unfoldable pub drop_deleted_task : Key → Response (Unit {0}) → TaskStore → Outcome TaskStore
drop_deleted_task id (returned done) s =
    settled (record (begin_loading s) { tasks = remove (λ t. t.id) id s.tasks; loading = false })
drop_deleted_task id (refused m) s =
    rethrown (failing m (codes "Failed to delete task") (begin_loading s))

-- The request of `toggleTask`: the wanted value of `enabled`, if the task is in the store.
abbrev pub toggle_request : Key → TaskStore → Option Bool
toggle_request id s = elim (find (λ t. t.id) id s.tasks) [
  | none ↦ none
  | some t ↦ some (not t.enabled)
]

abbrev pub show_toggled : Key → Response Task → TaskStore → Outcome TaskStore
show_toggled id (returned task) s =
    settled (record s { tasks = update (λ t. t.id) id (λ _. task) s.tasks })
show_toggled id (refused m) s = rethrown (noting m (codes "Failed to toggle task") s)

-- `toggleTask`, with what the server makes of the request.
unfoldable pub toggle_task : Key → (Bool → Response Task) → TaskStore → Outcome TaskStore
toggle_task id server s = elim (toggle_request id s) [
  | none ↦ settled s
  | some enabled ↦ show_toggled id (server enabled) s
]

-- `runTask`
unfoldable pub run_task : Response (Unit {0}) → TaskStore → Outcome TaskStore
run_task (returned done) s = settled s
run_task (refused m) s = rethrown (noting m (codes "Failed to run task") s)
