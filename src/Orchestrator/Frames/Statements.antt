-- ===== src/Orchestrator/Frames/Statements.antt =====
-- Stable relations across the statements that the handlers of packages/orchestrator run.
use baara_next.Base.{ℕ, Option, refl}
use baara_next.Core.Status.{ExecutionStatus}
use baara_next.Core.Types.{Key, Text, ExecutionUpdates, HealthStatus, InputRequest, ThreadMessage}
use baara_next.Core.Events.{EventType}
use baara_next.Store.{Store}
use baara_next.Store.Executions.{create_execution, update_execution_status, update_execution_fields}
use baara_next.Store.Inputs.{create_input_request, respond_to_input}
use baara_next.Store.Threads.{link_execution_to_thread, append_thread_message}
use baara_next.Orchestrator.World.{Platform, on_store, random_uuid, math_random}
use baara_next.Orchestrator.EventHandler.{append_next, emit}
use baara_next.Orchestrator.QueueManager.{enqueue, dequeue, cancel_timer, enqueue_visibility}
use baara_next.Orchestrator.Frames.Rules.{IsStable, Keeps, still-Keeps, store-Keeps, frame_rules}

module _ {R : Store → Store → Type 0} (stable : IsStable R) (p : Platform) where
  open stable use {created, moved, touched, dequeued, logged, asked, answered, linked, posted}

  pub random_uuid-Keeps : Keeps R (random_uuid p)
  unfolding random_uuid
  random_uuid-Keeps = still-Keeps stable _ (λ w. refl)

  pub math_random-Keeps : Keeps R (math_random p)
  unfolding math_random
  math_random-Keeps = still-Keeps stable _ (λ w. refl)

  pub created-Keeps :
      (id task_id queue_name : Key) (priority scheduled_at attempt now : ℕ)
      → Keeps R
          (on_store (create_execution id task_id queue_name priority scheduled_at attempt now))
  created-Keeps id t q r a n m = store-Keeps stable _ (created id t q r a n m)

  pub moved-Keeps :
      (id : Key) (status : ExecutionStatus) (u : ExecutionUpdates)
      → Keeps R (on_store (update_execution_status id status u))
  moved-Keeps id status u = store-Keeps stable _ (moved id status u)

  pub touched-Keeps :
      (id : Key) (n : Option ℕ) (h : Option HealthStatus) (c : Option (Option Text))
      → Keeps R (on_store (update_execution_fields id n h c))
  touched-Keeps id n h c = store-Keeps stable _ (touched id n h c)

  pub asked-Keeps : (r : InputRequest) → Keeps R (on_store (create_input_request r))
  asked-Keeps r = store-Keeps stable _ (asked r)

  pub answered-Keeps :
      (id : Key) (response : Text) (now : ℕ) → Keeps R (on_store (respond_to_input id response now))
  answered-Keeps id response now = store-Keeps stable _ (answered id response now)

  pub linked-Keeps :
      (execution_id thread_id : Key)
      → Keeps R (on_store (link_execution_to_thread execution_id thread_id))
  linked-Keeps execution_id thread_id = store-Keeps stable _ (linked execution_id thread_id)

  pub posted-Keeps : (m : ThreadMessage) → Keeps R (on_store (append_thread_message m))
  posted-Keeps m = store-Keeps stable _ (posted m)

  logged-Keeps :
      (id execution_id : Key) (now : ℕ) (type : EventType)
      → Keeps R (on_store (append_next id execution_id now type))
  logged-Keeps id execution_id now type = store-Keeps stable _ (logged id execution_id now type)

  pub emit-Keeps : (execution_id : Key) (type : EventType) → Keeps R (emit p execution_id type)
  unfolding emit
  emit-Keeps execution_id type = search (frame_rules, random_uuid-Keeps, logged-Keeps) depth 20

  pub dequeue-Keeps : (queue_name : Key) → Keeps R (dequeue queue_name)
  unfolding dequeue
  dequeue-Keeps queue_name = record { across = λ w. dequeued queue_name w.store }

  pub enqueue-Keeps : (queue_name : Key) → Keeps R (enqueue queue_name)
  unfolding enqueue
  enqueue-Keeps queue_name = still-Keeps stable _ (λ w. refl)

  pub cancel_timer-Keeps : (id : Key) → Keeps R (cancel_timer id)
  unfolding cancel_timer
  cancel_timer-Keeps id = still-Keeps stable _ (λ w. refl)

  pub enqueue_visibility-Keeps :
      (id : Key) (status : ExecutionStatus) → Keeps R (enqueue_visibility id status)
  unfolding enqueue_visibility
  enqueue_visibility-Keeps id status = still-Keeps stable _ (λ w. refl)

pub ruleset statements = (
  frame_rules, random_uuid-Keeps, math_random-Keeps, created-Keeps, moved-Keeps, touched-Keeps,
  asked-Keeps, answered-Keeps, linked-Keeps, posted-Keeps, emit-Keeps, dequeue-Keeps, enqueue-Keeps,
  cancel_timer-Keeps, enqueue_visibility-Keeps,
)
