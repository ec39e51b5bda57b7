-- ===== src/Orchestrator/Frames/Rules.antt =====
-- The statements of the store that the handlers of packages/orchestrator run, and a rule for each
-- way in which the handlers put them together.
use baara_next.Base.{ℕ, Bool, true, false, Option, none, some, ◌≡◌, refl, if◌then◌else◌}
use baara_next.Core.Status.{ExecutionStatus}
use baara_next.Core.Errors.{Error, Result, ok, err}
use baara_next.Core.Types.{Key, Text, ExecutionUpdates, HealthStatus, InputRequest, ThreadMessage}
use baara_next.Core.Events.{EventType}
use baara_next.Store.{Store}
use baara_next.Store.Executions.{
  create_execution, update_execution_status, update_execution_fields, dequeue_execution,
}
use baara_next.Store.Inputs.{create_input_request, respond_to_input}
use baara_next.Store.Threads.{link_execution_to_thread, append_thread_message}
use baara_next.Orchestrator.World.{
  World, Action, pure, throw, gets, need, or_throw, when, swallow, and_then, ◌>>=◌, stored,
  on_store,
}
use baara_next.Orchestrator.EventHandler.{append_next}

pub record IsStable (R : Store → Store → Type 0) : Type 0 where
  pub same : (s : Store) → R s s
  pub trans : (s t u : Store) → R s t → R t u → R s u
  pub created :
      (id task_id queue_name : Key) (priority scheduled_at attempt now : ℕ) (s t : Store)
      → create_execution id task_id queue_name priority scheduled_at attempt now s ≡ ok t
      → R s t
  pub moved :
      (id : Key) (status : ExecutionStatus) (u : ExecutionUpdates) (s t : Store)
      → update_execution_status id status u s ≡ ok t
      → R s t
  pub touched :
      (id : Key) (n : Option ℕ) (h : Option HealthStatus) (c : Option (Option Text)) (s t : Store)
      → update_execution_fields id n h c s ≡ ok t
      → R s t
  pub dequeued : (queue_name : Key) (s : Store) → R s (dequeue_execution queue_name s).1
  pub logged :
      (id execution_id : Key) (now : ℕ) (type : EventType) (s t : Store)
      → append_next id execution_id now type s ≡ ok t
      → R s t
  pub asked : (r : InputRequest) (s t : Store) → create_input_request r s ≡ ok t → R s t
  pub answered :
      (id : Key) (response : Text) (now : ℕ) (s t : Store)
      → respond_to_input id response now s ≡ ok t
      → R s t
  pub linked :
      (execution_id thread_id : Key) (s t : Store)
      → link_execution_to_thread execution_id thread_id s ≡ ok t
      → R s t
  pub posted : (m : ThreadMessage) (s t : Store) → append_thread_message m s ≡ ok t → R s t

-- The action takes any store to one that is related to it.
pub record Keeps (R : Store → Store → Type 0) {A : Type 0} (m : Action A) : Type 0 where
  pub across : (w : World) → R w.store (m w).1.store

module _ {R : Store → Store → Type 0} (stable : IsStable R) where
  open stable use {same, trans}

  -- An action that leaves the store alone.
  pub still-Keeps :
      {A : Type 0} (m : Action A) → ((w : World) → (m w).1.store ≡ w.store) → Keeps R m
  still-Keeps m h = record { across = λ w. rw (h w) (same w.store) }

  pub pure-Keeps : {A : Type 0} (a : A) → Keeps R (pure a)
  unfolding pure
  pure-Keeps a = record { across = λ w. same w.store }

  pub throw-Keeps : (A : Type 0) (e : Error) → Keeps R (throw {A = A} e)
  unfolding throw
  throw-Keeps A e = record { across = λ w. same w.store }

  pub gets-Keeps : {A : Type 0} (f : World → A) → Keeps R (gets f)
  unfolding gets
  gets-Keeps f = record { across = λ w. same w.store }

  need_across :
      {A : Type 0} (o : Option A) (e : Error) (w : World) → R w.store (or_throw o e w).1.store
  unfolding or_throw
  need_across none e w = same w.store
  need_across (some a) e w = same w.store

  pub or_throw-Keeps : {A : Type 0} (o : Option A) (e : Error) → Keeps R (or_throw o e)
  or_throw-Keeps o e = record { across = need_across o e }

  pub need-Keeps : {A : Type 0} (f : Store → Option A) (e : Error) → Keeps R (need f e)
  unfolding need
  need-Keeps f e = record { across = λ w. need_across (f w.store) e w }

  and_then_across :
      {A B : Type 0} (r : Result A) (f : A → Action B) (s : Store) (w : World)
      → ((a : A) → Keeps R (f a))
      → R s w.store
      → R s (and_then r f w).1.store
  unfolding and_then
  and_then_across (ok a) f s w k h = trans s w.store _ h ((k a).across w)
  and_then_across (err e) f s w k h = h

  pub bind-Keeps :
      {A B : Type 0} {m : Action A} {f : A → Action B}
      → Keeps R m
      → ((a : A) → Keeps R (f a))
      → Keeps R (m >>= f)
  unfolding ◌>>=◌
  bind-Keeps {m} {f} h k = record {
    across = λ w. and_then_across (m w).0 f w.store (m w).1 k (h.across w);
  }

  stored_across :
      (r : Result Store) (w : World)
      → ((t : Store) → r ≡ ok t → R w.store t)
      → R w.store (stored r w).1.store
  unfolding stored
  stored_across (ok t) w h = h t refl
  stored_across (err e) w h = same w.store

  pub store-Keeps :
      (f : Store → Result Store) → ((s t : Store) → f s ≡ ok t → R s t) → Keeps R (on_store f)
  unfolding on_store
  store-Keeps f h = record { across = λ w. stored_across (f w.store) w (h w.store) }

  pub swallow-Keeps : {m : Action (Unit {0})} → Keeps R m → Keeps R (swallow m)
  unfolding swallow
  swallow-Keeps h = record { across = h.across }

  pub if-Keeps :
      {A : Type 0} (b : Bool) {m n : Action A}
      → Keeps R m
      → Keeps R n
      → Keeps R (if b then m else n)
  if-Keeps true h k = h
  if-Keeps false h k = k

  pub when-Keeps : (b : Bool) {m : Action (Unit {0})} → Keeps R m → Keeps R (when b m)
  unfolding when
  when-Keeps b h = if-Keeps b h (pure-Keeps tt)

pub ruleset frame_rules = (
  pure-Keeps, throw-Keeps, gets-Keeps, need-Keeps, or_throw-Keeps, bind-Keeps, swallow-Keeps,
  if-Keeps, when-Keeps,
)
