-- ===== src/Store/Schema.antt =====
-- The tables of packages/store/src/migrations.ts, in the order of insertion.
use baara_next.Base.{ℕ, List, [], ◌∷◌, Bool, Option, none, some, find, if◌then◌else◌, ltb, is_some}
use baara_next.Core.Types.{
  Key, Task, Execution, InputRequest, Queue, Thread, ThreadMessage, TaskMessage, Project, Template,
}
use baara_next.Core.Events.{Event}

pub record Store : Type 0 where
  pub tasks : List Task
  pub executions : List Execution
  pub events : List Event
  pub input_requests : List InputRequest
  pub queues : List Queue
  pub threads : List Thread
  pub thread_messages : List ThreadMessage
  pub task_messages : List TaskMessage
  pub projects : List Project
  pub templates : List Template

-- `getTask`
abbrev pub get_task : Key → Store → Option Task
get_task id s = find (λ t. t.id) id s.tasks

-- `getTaskByName`
abbrev pub get_task_by_name : Key → Store → Option Task
get_task_by_name name s = find (λ t. t.name) name s.tasks

-- `getExecution`
abbrev pub get_execution : Key → Store → Option Execution
get_execution id s = find (λ e. e.id) id s.executions

-- `getThread`
abbrev pub get_thread : Key → Store → Option Thread
get_thread id s = find (λ t. t.id) id s.threads

-- `getProject`
abbrev pub get_project : Key → Store → Option Project
get_project id s = find (λ p. p.id) id s.projects

-- `getTemplate`
abbrev pub get_template : Key → Store → Option Template
get_template id s = find (λ t. t.id) id s.templates

-- `REFERENCES … `: a key that is given is the key of a row.
abbrev pub refers {ℓ} : {A : Type ℓ} → (Key → Option A) → Option Key → Bool
refers get none = Bool.true
refers get (some k) = is_some (get k)

-- `ORDER BY created_at DESC`: the newest row first, rows of one second in the order of insertion.
module _ {ℓ} {A : Type ℓ} (created_at : A → ℕ) where
  abbrev pub insert_newest : A → List A → List A
  insert_newest a [] = a ∷ []
  insert_newest a (x ∷ xs) =
      if ltb (created_at a) (created_at x) then x ∷ insert_newest a xs else a ∷ x ∷ xs

  abbrev pub newest_first : List A → List A
  newest_first [] = []
  newest_first (x ∷ xs) = insert_newest x (newest_first xs)
