-- ===== src/Orchestrator/Outcomes/Dialogue.antt =====
-- How `requestInput` and `provideInput` of packages/orchestrator/src/orchestrator-service.ts end.
use baara_next.Base.{
  ℕ, suc, ◌≡◌, refl, true, Option, none, some, List, [], ◌∷◌, ◌++◌, arith, find, is_some, update,
}
use baara_next.Core.Status.{ExecutionStatus, running, waiting_for_input, can_transition}
use baara_next.Core.Errors.{ok}
use baara_next.Core.Types.{Key, Text, Thread, Execution, InputRequest, no_updates}
use baara_next.Store.{Store, get_execution}
use baara_next.Store.Inputs.{
  get_input_request, respond_to_input, with_response, create_input_request,
}
use baara_next.Orchestrator.World.{World, Timer, Platform, random_uuid, gets, on_store, seconds}
use baara_next.Orchestrator.Service.Input.{
  provide_input, request_input, notify, notify_thread, new_request,
}
use baara_next.Orchestrator.Outcomes.Runs.{
  Runs, Saves, bind-Runs, step-Runs, store-Runs, swallow-Runs, bind-Saves, gets-Saves, pure-Saves,
}
use baara_next.Orchestrator.Outcomes.Tracked.{IsFresh, Tracked, still, emit-Runs, move-Runs}
use baara_next.Orchestrator.Outcomes.Submission.{need_found}
use baara_next.Orchestrator.Outcomes.Routing.{post_message-Saves}
use baara_next.Orchestrator.Outcomes.Changes.{Leaves, leaves, tracked}

may_wait : (s : ExecutionStatus) → s ≡ running → can_transition s waiting_for_input ≡ true
unfolding can_transition
may_wait s h = ground arith

may_go_on : (s : ExecutionStatus) → s ≡ waiting_for_input → can_transition s running ≡ true
unfolding can_transition
may_go_on s h = ground arith

pub respond_to_input_ok :
    (id : Key) (response : Text) (now : ℕ) (s : Store) (r : InputRequest)
    → get_input_request id s ≡ some r
    → respond_to_input id response now s
      ≡ ok (record s {
        input_requests = update (λ x. x.id) r.id (with_response response now) s.input_requests;
      })
unfolding respond_to_input
respond_to_input_ok id response now s r h = rw h refl

pub create_input_request_ok :
    (r : InputRequest) (s : Store)
    → find (λ x. x.id) r.id s.input_requests ≡ none
    → is_some (get_execution r.execution_id s) ≡ true
    → create_input_request r s ≡ ok (record s { input_requests = s.input_requests ++ r ∷ [] })
unfolding create_input_request
create_input_request_ok r s free there = rw (free, there) refl

module _ (p : Platform) (one_to_one : (m n : ℕ) → p.uuid m ≡ p.uuid n → m ≡ n) where
  provide_input-Runs :
      (w : World) (e : Execution) (r : InputRequest) (response : Text)
      → get_execution e.id w.store ≡ some e
      → get_input_request e.id w.store ≡ some r
      → e.status ≡ waiting_for_input
      → Tracked p w e w.timers e.status w
      → Runs (provide_input p e.id response) w (λ _ v. Tracked p w e w.timers running v)
  unfolding provide_input gets
  provide_input-Runs w e r response found asked at t =
      let answered : Runs (on_store (respond_to_input e.id response (seconds w))) w
          (λ _ v. Tracked p w e w.timers e.status v) =
        store-Runs _ _ (respond_to_input_ok e.id response (seconds w) w.store r asked)
          (still _ t refl refl refl (omega arith) refl refl) in
      step-Runs _ _ (need_found (get_execution e.id) _ w e found) (
        step-Runs _ _ (need_found (get_input_request e.id) _ w r asked) (
          step-Runs _ _ refl (
            bind-Runs answered (λ _ w₁ t₁.
              bind-Runs (move-Runs p one_to_one w e running no_updates (may_go_on e.status at) t₁)
                (λ _ w₂ t₂. emit-Runs p one_to_one w e _ t₂)))))

  -- Where the ids to come are new and all different, an answer to an execution that waits for
  -- input and has a pending request returns, and leaves the execution running and the timers as
  -- they were.
  pub provide_input_resumes :
      (w : World) (e : Execution) (r : InputRequest) (response : Text)
      → IsFresh p w
      → get_execution e.id w.store ≡ some e
      → get_input_request e.id w.store ≡ some r
      → e.status ≡ waiting_for_input
      → (v : World) × (provide_input p e.id response w ≡ (ok tt, v)) × Leaves e running w.timers v
  provide_input_resumes w e r response fresh found asked at =
      let run = provide_input-Runs w e r response found asked at (tracked p w e fresh found) in
      (run.after, run.returns, leaves run.holds)

  notify_thread-Saves :
      {w : World} {e : Execution} {ts : List Timer} {s : ExecutionStatus} (thread : Option Thread)
      (content : Text)
      → Saves (Tracked p w e ts s) (notify_thread p thread content)
  notify_thread-Saves none content = pure-Saves tt
  notify_thread-Saves {w} {e} (some thread) content =
      post_message-Saves p one_to_one w e thread.id content

  notify-Saves :
      {w : World} {e : Execution} {ts : List Timer} {s : ExecutionStatus} (x : Execution)
      (prompt : Text) (options : Option (List Text))
      → Saves (Tracked p w e ts s) (notify p x prompt options)
  unfolding notify
  notify-Saves x prompt options =
      bind-Saves (gets-Saves _)
        (λ task. bind-Saves (gets-Saves _) (λ thread. notify_thread-Saves thread _))

  request_input-Runs :
      (w : World) (e : Execution) (prompt : Text) (options : Option (List Text))
      → get_execution e.id w.store ≡ some e
      → find (λ r. r.id) (p.uuid w.drawn) w.store.input_requests ≡ none
      → e.status ≡ running
      → Tracked p w e w.timers e.status w
      → Runs
          (request_input p e.id prompt options)
          w
          (λ _ v. Tracked p w e w.timers waiting_for_input v)
  unfolding request_input random_uuid gets
  request_input-Runs w e prompt options found free at t =
      let w' = record w { drawn = suc w.drawn } in
      let r = new_request p (p.uuid w.drawn) e.id prompt options (seconds w) in
      let there : is_some (get_execution e.id w.store) ≡ true = rw found refl in
      let asked : Runs (on_store (create_input_request r)) w'
          (λ _ v. Tracked p w e w.timers e.status v) =
        store-Runs _ _ (create_input_request_ok r w.store free there)
          (still _ t refl refl refl (omega arith) refl refl) in
      step-Runs _ _ (need_found (get_execution e.id) _ w e found) (
        step-Runs _ _ refl (
          step-Runs _ _ refl (
            bind-Runs asked (λ _ w₁ t₁.
              bind-Runs
                (move-Runs p one_to_one w e waiting_for_input no_updates (may_wait e.status at) t₁)
                (λ _ w₂ t₂.
                  bind-Runs (emit-Runs p one_to_one w e _ t₂)
                    (λ _ w₃ t₃. swallow-Runs _ ((notify-Saves e prompt options).across w₃ t₃)))))))

  -- Where the ids to come are new and all different, and the next one is the id of no request, a
  -- request for input by a running execution returns, and leaves the execution waiting for input
  -- and the timers as they were.
  pub request_input_waits :
      (w : World) (e : Execution) (prompt : Text) (options : Option (List Text))
      → IsFresh p w
      → find (λ r. r.id) (p.uuid w.drawn) w.store.input_requests ≡ none
      → get_execution e.id w.store ≡ some e
      → e.status ≡ running
      → (v : World) × (request_input p e.id prompt options w ≡ (ok tt, v))
        × Leaves e waiting_for_input w.timers v
  request_input_waits w e prompt options fresh free found at =
      let run = request_input-Runs w e prompt options found free at (tracked p w e fresh found) in
      (run.after, run.returns, leaves run.holds)
