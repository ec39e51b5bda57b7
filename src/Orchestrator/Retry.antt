-- ===== src/Orchestrator/Retry.antt =====
-- packages/orchestrator/src/retry.ts
pub mod Bounds
use baara_next.Base.{ℕ, suc, ◌+◌, ◌-◌, ◌*◌, ◌/◌, ◌^◌, Bool, ◌&&◌, if◌then◌else◌, ltb, leb, min}
use baara_next.Core.Status.{ExecutionStatus, retry_scheduled, dead_lettered}
use baara_next.Core.Types.{Key, Execution, Task, no_updates}
use baara_next.Store.Executions.{update_execution_status}
use baara_next.Orchestrator.World.{World, Platform, Action, ◌>>=◌, ◌>>◌, on_store}
use baara_next.Orchestrator.EventHandler.{emit, emit_retry_scheduled, emit_dead_lettered}
use baara_next.Orchestrator.QueueManager.{enqueue_timer}

pub record RetryConfig : Type 0 where
  pub initial_delay : ℕ
  pub coefficient : ℕ
  pub max_delay : ℕ

abbrev pub default_retry_config : RetryConfig
default_retry_config = record { initial_delay = 1000; coefficient = 2; max_delay = 60000 }

-- `shouldRetry`
unfoldable pub should_retry : Execution → Task → Bool
should_retry execution task = ltb 0 task.max_retries && leb execution.attempt task.max_retries

-- `base` of `calculateDelay`, for an attempt that counts from 1.
unfoldable pub base_delay : (attempt : ℕ) → RetryConfig → ℕ
base_delay attempt c = min (c.initial_delay * c.coefficient ^ (attempt - 1)) c.max_delay

-- `calculateDelay`, with `Math.random()` as the fraction `random / scale`. The jitter
-- 0.9 + 0.2 * random / scale is (9 * scale + 2 * random) / (10 * scale), and `Math.round` adds one
-- half and rounds down.
unfoldable pub calculate_delay : (attempt : ℕ) → RetryConfig → (scale random : ℕ) → ℕ
calculate_delay attempt c scale random =
    (2 * (base_delay attempt c * (9 * scale + 2 * random)) + 10 * scale) / (20 * scale)

module _ (p : Platform) where
  -- `scheduleRetry`
  unfoldable pub schedule_retry : Execution → (delay : ℕ) → Action (Unit {0})
  schedule_retry e delay = do
    let next_attempt = e.attempt + 1
    on_store (update_execution_status e.id retry_scheduled no_updates)
    emit_retry_scheduled p e.id next_attempt delay
    enqueue_timer e.id delay next_attempt

  -- `routeToDlq`
  unfoldable pub route_to_dlq : Execution → Action (Unit {0})
  route_to_dlq e = do
    let previous_status = e.status
    on_store (update_execution_status e.id dead_lettered no_updates)
    emit_dead_lettered p e.id previous_status e.attempt
