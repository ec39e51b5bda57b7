-- ===== src/Orchestrator/Outcomes/Routing.antt =====
-- An execution that is followed through the output routing of
-- packages/orchestrator/src/orchestrator-service.ts.
use baara_next.Base.{ℕ, ◌≡◌, refl, Option, none, some, List, arith}
use baara_next.Core.Status.{ExecutionStatus}
use baara_next.Core.Types.{Key, Text, Task, Execution, ExecuteResult, Thread}
use baara_next.Store.Inversion.{link_execution_to_thread-eq-ok, append_thread_message-eq-ok}
use baara_next.Orchestrator.World.{World, Timer, Platform, random_uuid}
use baara_next.Orchestrator.Service.Complete.{post_message, report_to, route_output}
use baara_next.Orchestrator.Outcomes.Runs.{Saves, store-Saves, pure-Saves, bind-Saves, gets-Saves}
use baara_next.Orchestrator.Outcomes.Tracked.{Tracked, still, changed}

module _ (p : Platform) (one_to_one : (m n : ℕ) → p.uuid m ≡ p.uuid n → m ≡ n) (begin : World)
    (e : Execution) where
  module _ {ts : List Timer} {s : ExecutionStatus} where
    random_uuid-Saves : Saves (Tracked p begin e ts s) (random_uuid p)
    unfolding random_uuid
    random_uuid-Saves = record {
      across = λ w t. still _ t refl refl refl (omega arith) t.same_timers refl;
    }

    pub post_message-Saves :
        (id : Key) (content : Text) → Saves (Tracked p begin e ts s) (post_message p id content)
    unfolding post_message
    post_message-Saves id content = bind-Saves random_uuid-Saves (λ i.
        bind-Saves (gets-Saves _) (λ stamp. store-Saves _ (λ w u t h.
          let (_, _, same) = append_thread_message-eq-ok _ w.store u h in
          rw same (still _ t refl refl refl (omega arith) t.same_timers refl))))

    link-Saves :
        (thread : Thread) (task : Option Task) (r : ExecuteResult)
        → Saves (Tracked p begin e ts s) (report_to p (some thread) task e r)
    link-Saves thread task r =
        bind-Saves
          (store-Saves _ (λ w u t h.
            let (_, same) = link_execution_to_thread-eq-ok e.id thread.id w.store u h in
            rw same (
              changed p one_to_one begin e w (λ x. record x { thread_id = some thread.id })
                (λ x. refl) (λ x. refl) (λ x. refl) (λ x k. k) t)))
          (λ _. post_message-Saves thread.id _)

    pub route_output-Saves :
        (task : Option Task) (r : ExecuteResult)
        → Saves (Tracked p begin e ts s) (route_output p task e r)
    unfolding route_output
    route_output-Saves task r = bind-Saves (gets-Saves _) (λ thread. go thread)
      where
        go : (thread : Option Thread) → Saves (Tracked p begin e ts s) (report_to p thread task e r)
        go none = pure-Saves tt
        go (some thread) = link-Saves thread task r
