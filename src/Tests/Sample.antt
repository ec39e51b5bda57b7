-- ===== src/Tests/Sample.antt =====
-- A platform and a world on which the theorems are tried.
use baara_next.Base.{ℕ, ◌+◌, ◌<◌, ◌≡◌, [], ◌∷◌, not, is_blank, true, none, some, refl, arith}
use baara_next.Core.Status.{ExecutionStatus, queued, running, waiting_for_input, completed}
use baara_next.Core.Types.{
  Key, Task, Execution, ExecutionType, SandboxType, SandboxConfig, ExecutionMode, visibility_queue,
  transfer_queue, healthy, ExecuteResult, ResultStatus,
}
use baara_next.Core.Events.{Event, execution_started}
use baara_next.Store.{Store}
use baara_next.Store.Soundness.{IsSound}
use baara_next.Orchestrator.World.{World, Platform}

abbrev pub platform : Platform
platform = record {
  uuid = λ n. n + 100;
  decimal = λ n. n ∷ [];
  tenths = λ n. n ∷ [];
  key_text = λ k. k ∷ [];
  scale = 10;
  random = λ n. 3;
  error_text = λ e. [];
  reencode = λ t. some t;
  is_cron = λ t. not (is_blank t);
}

abbrev pub uuid_one_to_one : (m n : ℕ) → platform.uuid m ≡ platform.uuid n → m ≡ n
uuid_one_to_one m n h = omega arith

pub random_small : (n : ℕ) → platform.random n < platform.scale
random_small n = omega arith

-- A task with two retries.
abbrev pub report : Task
report = record {
  id = 20;
  name = 21;
  description = [];
  prompt = [];
  cron_expression = none;
  timeout_ms = 300000;
  execution_type = ExecutionType.cloud_code;
  sandbox_type = SandboxType.native;
  sandbox_config = SandboxConfig.native;
  agent_config = none;
  priority = 1;
  target_queue = transfer_queue;
  max_retries = 2;
  execution_mode = ExecutionMode.queued;
  enabled = true;
  project_id = none;
  target_thread_id = none;
  created_at = 5;
  updated_at = 5;
}

abbrev pub attempt_of : (id : Key) → ExecutionStatus → (priority date : ℕ) → Execution
attempt_of id status priority date = record {
  id = id;
  task_id = 20;
  queue_name = transfer_queue;
  priority = priority;
  status = status;
  attempt = 1;
  scheduled_at = 0;
  started_at = none;
  completed_at = none;
  duration_ms = none;
  output = none;
  error = none;
  input_tokens = none;
  output_tokens = none;
  health_status = healthy;
  turn_count = 0;
  checkpoint_data = none;
  thread_id = none;
  created_at = date;
}

abbrev pub event_of : (id execution_id seq : ℕ) → Event
event_of id execution_id seq = record {
  id = id;
  execution_id = execution_id;
  event_seq = seq;
  timestamp = 7;
  type = execution_started;
}

-- A running execution, one that waits for input, one that is done and two in the queue.
abbrev pub store : Store
store = record {
  tasks = report ∷ [];
  executions =
      attempt_of 30 running 1 6
      ∷ attempt_of 31 waiting_for_input 1 6
      ∷ attempt_of 32 completed 1 6
      ∷ attempt_of 33 queued 2 7
      ∷ attempt_of 34 queued 1 9
      ∷ [];
  events = event_of 40 30 1 ∷ event_of 41 31 1 ∷ event_of 42 30 2 ∷ [];
  input_requests = [];
  queues =
      (record { name = visibility_queue; max_concurrency = 1; created_at = 0 })
      ∷ (record { name = transfer_queue; max_concurrency = 10; created_at = 0 })
      ∷ [];
  threads = [];
  thread_messages = [];
  task_messages = [];
  projects = [];
  templates = [];
}

abbrev pub world : World
world = record {
  store = store;
  timers = [];
  visibility_buffer = [];
  available = [];
  flushing = true;
  monitoring = true;
  jobs = [];
  drawn = 0;
  now = 10000;
}

pub store-IsSound : IsSound store
store-IsSound = record {
  executions_distinct = (refl, (refl, (refl, (refl, (refl, tt)))));
  executions_owned = (refl, (refl, (refl, (refl, (refl, tt)))));
  events_owned = (refl, (refl, (refl, tt)));
  events_numbered = (refl, (refl, (refl, tt)));
  requests_owned = tt;
}

-- What the runtime reports of a run that failed.
abbrev pub failure : ExecuteResult
failure = record {
  status = ResultStatus.failed;
  output = none;
  error = none;
  duration_ms = 12;
  input_tokens = none;
  output_tokens = none;
}
