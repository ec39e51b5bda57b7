-- ===== src/Web/ExecutionStore.antt =====
-- The execution store of packages/web/src/stores/execution-store.ts; the answers of the server are
-- arguments.
use baara_next.Base.{
  Bool, true, false, List, [], ◌∷◌, Option, none, some, remove, update, get_or, codes, ◌==◌,
  if◌then◌else◌,
}
use baara_next.Core.Status.{ExecutionStatus}
use baara_next.Core.Types.{Key, Text, Execution}
use baara_next.Core.Events.{Event}
use baara_next.Web.Requests.{Response, Outcome, returned, refused, settled, rethrown}

pub record ExecutionFilters : Type 0 where
  pub status : Option ExecutionStatus
  pub task_id : Option Key

pub record ExecutionStore : Type 0 where
  pub executions : List Execution
  pub selected_execution : Option Execution
  pub selected_events : List Event
  pub filters : ExecutionFilters
  pub loading : Bool
  pub error : Option Text

abbrev pub begin_loading : ExecutionStore → ExecutionStore
begin_loading s = record s { loading = true; error = none }

abbrev pub failing : Option Text → Text → ExecutionStore → ExecutionStore
failing message otherwise s = record s { loading = false; error = some (get_or message otherwise) }

abbrev pub noting : Option Text → Text → ExecutionStore → ExecutionStore
noting message otherwise s = record s { error = some (get_or message otherwise) }

-- `fetchExecutions`
unfoldable pub fetch_executions :
    Response (List Execution) → ExecutionStore → Outcome ExecutionStore
fetch_executions (returned executions) s =
    settled (record (begin_loading s) { executions = executions; loading = false })
fetch_executions (refused m) s =
    settled (failing m (codes "Failed to fetch executions") (begin_loading s))

-- `fetchExecution`
unfoldable pub fetch_execution : Response Execution → ExecutionStore → Outcome ExecutionStore
fetch_execution (returned e) s =
    settled (record (begin_loading s) { selected_execution = some e; loading = false })
fetch_execution (refused m) s =
    settled (failing m (codes "Failed to fetch execution") (begin_loading s))

-- `fetchExecutionEvents`
unfoldable pub fetch_execution_events :
    Response (List Event) → ExecutionStore → Outcome ExecutionStore
fetch_execution_events (returned events) s = settled (record s { selected_events = events })
fetch_execution_events (refused m) s = settled (noting m (codes "Failed to fetch events") s)

-- `state.selectedExecution?.id === id ? updated : state.selectedExecution`
abbrev pub reselect : Key → Execution → Option Execution → Option Execution
reselect id updated none = none
reselect id updated (some e) = if e.id == id then some updated else some e

-- `cancelExecution`, with the answers to the cancellation and to the request for the execution.
unfoldable pub show_cancelled :
    Key → Response (Unit {0}) → Response Execution → ExecutionStore → Outcome ExecutionStore
show_cancelled id (refused m) fetched s = rethrown (noting m (codes "Failed to cancel execution") s)
show_cancelled id (returned done) (refused m) s =
    rethrown (noting m (codes "Failed to cancel execution") s)
show_cancelled id (returned done) (returned updated) s = settled (record s {
  executions = update (λ e. e.id) id (λ _. updated) s.executions;
  selected_execution = reselect id updated s.selected_execution;
})

-- `retryExecution`
unfoldable pub show_retried : Key → Response Execution → ExecutionStore → Outcome ExecutionStore
show_retried id (refused m) s = rethrown (noting m (codes "Failed to retry execution") s)
show_retried id (returned updated) s = settled (record s {
  executions = updated ∷ remove (λ e. e.id) id s.executions;
  selected_execution = reselect id updated s.selected_execution;
})

-- `provideInput`, with the answers to the response and to the request for the execution.
unfoldable pub send_input :
    Response (Unit {0}) → Response Execution → ExecutionStore → Outcome ExecutionStore
unfolding fetch_execution
send_input (refused m) fetched s = rethrown (noting m (codes "Failed to provide input") s)
send_input (returned done) fetched s = fetch_execution fetched s

-- `setFilters`
abbrev pub set_filters : ExecutionFilters → ExecutionStore → ExecutionStore
set_filters filters s = record s { filters = filters }

-- `clearSelected`
abbrev pub clear_selected : ExecutionStore → ExecutionStore
clear_selected s = record s { selected_execution = none; selected_events = [] }
