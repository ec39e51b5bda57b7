-- ===== src/Store/Threads.antt =====
-- The threads and their messages in packages/store/src/sqlite-store.ts.
use baara_next.Base.{
  ℕ, List, [], ◌∷◌, ◌++◌, Bool, false, not, Option, none, some, if◌then◌else◌, ltb, ◌==◌, is_some,
  keep, find, update, remove, map,
}
use baara_next.Core.Errors.{
  Result, ok, guard, or_err, constraint_failed, other, execution_not_found, thread_not_found, ◌>>=◌,
  ◌>>◌,
}
use baara_next.Core.Types.{Key, Text, Thread, ThreadMessage, Execution, Task, main_thread_id}
use baara_next.Store.Schema.{Store, get_execution, get_thread, newest_first}
use baara_next.Store.Executions.{limit}

-- `createThread`
unfoldable pub create_thread : (id : Key) (title : Text) (now : ℕ) → Store → Result Store
create_thread id title now s = do
  guard (not (is_some (get_thread id s))) constraint_failed
  let t : Thread = record { id = id; title = title; created_at = now; updated_at = now }
  ok (record s { threads = s.threads ++ t ∷ [] })

-- `updateThread`
unfoldable pub update_thread : (id : Key) → Option Text → (now : ℕ) → Store → Result Store
update_thread id none now s = do _ ← or_err (get_thread id s) (thread_not_found id); ok s
update_thread id (some title) now s = do
  _ ← or_err (get_thread id s) (thread_not_found id)
  let f = λ (t : Thread). record t { title = title; updated_at = now }
  ok (record s { threads = update (λ t. t.id) id f s.threads })

-- `ON DELETE SET NULL`
abbrev pub cleared : Key → Option Key → Option Key
cleared id none = none
cleared id (some k) = if k == id then none else some k

-- `deleteThread`, with the actions of the foreign keys that name the thread.
unfoldable pub delete_thread : (id : Key) → Store → Result Store
delete_thread id s = do
  guard (not (id == main_thread_id)) other
  _ ← or_err (get_thread id s) (thread_not_found id)
  ok (record s {
    threads = remove (λ t. t.id) id s.threads;
    executions =
        map (λ (e : Execution). record e { thread_id = cleared id e.thread_id }) s.executions;
    tasks =
        map (λ (t : Task). record t { target_thread_id = cleared id t.target_thread_id }) s.tasks;
    thread_messages = keep (λ m. not (m.thread_id == id)) s.thread_messages;
  })

-- `linkExecutionToThread`
unfoldable pub link_execution_to_thread : (execution_id thread_id : Key) → Store → Result Store
link_execution_to_thread execution_id thread_id s = do
  _ ← or_err (get_execution execution_id s) (execution_not_found execution_id)
  _ ← or_err (get_thread thread_id s) (thread_not_found thread_id)
  let f = λ (e : Execution). record e { thread_id = some thread_id }
  ok (record s { executions = update (λ e. e.id) execution_id f s.executions })

-- `appendThreadMessage`
unfoldable pub append_thread_message : ThreadMessage → Store → Result Store
append_thread_message m s = do
  guard (not (is_some (find (λ x. x.id) m.id s.thread_messages))) constraint_failed
  guard (is_some (get_thread m.thread_id s)) constraint_failed
  ok (record s { thread_messages = s.thread_messages ++ m ∷ [] })

abbrev pub is_in_thread : Key → Execution → Bool
is_in_thread id e = elim e.thread_id [ none ↦ false | some t ↦ t == id ]

-- `listExecutionsByThread`
unfoldable pub list_executions_by_thread : Key → Option ℕ → Store → List Execution
list_executions_by_thread id n s =
    limit n (newest_first (λ e. e.created_at) (keep (is_in_thread id) s.executions))

-- `listThreads`
unfoldable pub list_threads : Option ℕ → Store → List Thread
list_threads n s = limit n (newest_first (λ t. t.created_at) s.threads)

-- `ORDER BY created_at ASC`
abbrev pub insert_oldest : ThreadMessage → List ThreadMessage → List ThreadMessage
insert_oldest m [] = m ∷ []
insert_oldest m (x ∷ xs) =
    if ltb x.created_at m.created_at then x ∷ insert_oldest m xs else m ∷ x ∷ xs

abbrev pub oldest_first : List ThreadMessage → List ThreadMessage
oldest_first [] = []
oldest_first (m ∷ ms) = insert_oldest m (oldest_first ms)

-- `listThreadMessages`
unfoldable pub list_thread_messages : Key → Store → List ThreadMessage
list_thread_messages id s = oldest_first (keep (λ m. m.thread_id == id) s.thread_messages)
