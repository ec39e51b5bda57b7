-- ===== src/Server/QueueRoutes.antt =====
-- The routes of packages/server/src/routes/queues.ts.
use baara_next.Base.{ℕ, zero, suc, Option, none, some, not, codes, if◌then◌else◌}
use baara_next.Core.Status.{dead_lettered, same_status}
use baara_next.Core.Types.{Key}
use baara_next.Core.Errors.{execution_not_found, other, Result, ok, err}
use baara_next.Store.{get_execution}
use baara_next.Store.Executions.{get_dead_lettered_executions}
use baara_next.Store.Queues.{QueueInfo, list_queues, get_queue_info, update_queue_concurrency}
use baara_next.Orchestrator.World.{Action, pure, throw, look, ◌>>=◌}
use baara_next.Server.Replies.{
  Reply, RequestBody, malformed, null_body, given, reply, one_queue, many_queues, many_executions,
  failure, complaint,
}

-- `GET /dlq`
unfoldable pub get_dlq : Action Reply
get_dlq = do
  executions ← look get_dead_lettered_executions
  pure (reply 200 (many_executions executions))

-- `POST /dlq/:id/retry`, which only names the route that retries.
unfoldable pub post_dlq_retry : Key → Action Reply
post_dlq_retry id = do
  execution ← look (get_execution id)
  pure (elim execution [
    | none ↦ reply 404 (failure (execution_not_found id))
    | some e ↦
        if not (same_status e.status dead_lettered)
        then reply 409 (complaint (codes "Execution is not in dead_lettered status"))
        else reply 422 (
            complaint
              (codes "Use POST /api/executions/:id/retry to retry a dead-lettered execution"))
  ])

-- `GET /`
unfoldable pub get_queues : Action Reply
get_queues = do queues ← look list_queues; pure (reply 200 (many_queues queues))

abbrev pub queue_reply : Option QueueInfo → Reply
queue_reply none = reply 404 (complaint (codes "Queue not found"))
queue_reply (some q) = reply 200 (one_queue q)

-- `GET /:name`
unfoldable pub get_queue : Key → Action Reply
get_queue name = do queue ← look (get_queue_info name); pure (queue_reply queue)

abbrev pub updated_reply : Result (Option QueueInfo) → Result Reply
updated_reply (ok q) = ok (queue_reply q)
updated_reply (err e) = err e

-- `PUT /:name`, with the `maxConcurrency` of the body, `none` if it is no integer that is not negative.
unfoldable pub put_queue : Key → RequestBody (Option ℕ) → Action Reply
put_queue name null_body = throw other
put_queue name malformed = pure (reply 400 (complaint (codes "Invalid JSON body")))
put_queue name (given none) =
    pure (reply 400 (complaint (codes "maxConcurrency must be a positive integer")))
put_queue name (given (some zero)) =
    pure (reply 400 (complaint (codes "maxConcurrency must be a positive integer")))
put_queue name (given (some (suc n))) = λ w.
    let (result, s) = update_queue_concurrency name (suc n) w.store in
    (updated_reply result, record w { store = s })
