-- ===== src/Store/Queues.antt =====
-- The queues of packages/store/src/sqlite-store.ts.
use baara_next.Base.{
  ℕ, List, Bool, ◌&&◌, ◌||◌, Option, none, some, if◌then◌else◌, ◌==◌, length, keep, find, update,
  map,
}
use baara_next.Core.Status.{
  ExecutionStatus, queued, assigned, running, waiting_for_input, same_status,
}
use baara_next.Core.Errors.{Result, ok, err, other}
use baara_next.Core.Types.{Key, Queue, Execution}
use baara_next.Store.Schema.{Store}

pub record QueueInfo : Type 0 where
  pub name : Key
  pub depth : ℕ
  pub active_count : ℕ
  pub max_concurrency : ℕ
  pub created_at : ℕ

abbrev pub is_active : ExecutionStatus → Bool
is_active s = same_status s assigned || same_status s running || same_status s waiting_for_input

abbrev pub count_in : Key → (ExecutionStatus → Bool) → List Execution → ℕ
count_in name p es = length (keep (λ (e : Execution). e.queue_name == name && p e.status) es)

abbrev pub info_of : Store → (ExecutionStatus → Bool) → Queue → QueueInfo
info_of s active q = record {
  name = q.name;
  depth = count_in q.name (λ st. same_status st queued) s.executions;
  active_count = count_in q.name active s.executions;
  max_concurrency = q.max_concurrency;
  created_at = q.created_at;
}

-- `listQueues`, in the order of insertion; the database groups by name, and the order is of no use.
unfoldable pub list_queues : Store → List QueueInfo
list_queues s = map (info_of s is_active) s.queues

-- `getQueueInfo`, which does not count the executions that wait for input as active.
unfoldable pub get_queue_info : Key → Store → Option QueueInfo
get_queue_info name s = elim (find (λ q. q.name) name s.queues) [
  | none ↦ none
  | some q ↦ some (info_of s (λ st. same_status st assigned || same_status st running) q)
]

-- `updateQueueConcurrency`
unfoldable pub update_queue_concurrency : Key → ℕ → Store → Result (Option QueueInfo) × Store
unfolding get_queue_info
update_queue_concurrency name n s =
    if n == 0 then (err other, s) else elim (find (λ q. q.name) name s.queues) [
      | none ↦ (ok none, s)
      | some _ ↦
          let f = λ (q : Queue). record q { max_concurrency = n } in
          let s' = record s { queues = update (λ q. q.name) name f s.queues } in
          (ok (get_queue_info name s'), s')
    ]
