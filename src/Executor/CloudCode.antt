-- ===== src/Executor/CloudCode.antt =====
-- `CloudCodeRuntime` of packages/executor/src/runtimes/cloud-code.ts.
use baara_next.Base.{
  ℕ, ◌-◌, List, [], ◌∷◌, ◌++◌, Bool, true, false, Option, none, some, if◌then◌else◌, get_or, codes,
  decimal,
}
use baara_next.Core.Types.{
  Text, AgentConfig, PermissionMode, ExecuteResult, ResultStatus, completed, timed_out,
}
use baara_next.Executor.Sdk.{
  SdkMessage, Usage, Arrival, Ending, exhausted, rejected, SdkOptions, default_model, add_tokens,
  replace_tokens,
}
pub mod Agreement

-- The variables of the loop.
pub record Totals : Type 0 where
  pub output : Text
  pub input_tokens : ℕ
  pub output_tokens : ℕ

abbrev pub no_totals : Totals
no_totals = record { output = []; input_tokens = 0; output_tokens = 0 }

-- `cwd` is the working directory of the task, if it has one.
abbrev pub cloud_options : AgentConfig → (cwd : Option Text) → SdkOptions
cloud_options config cwd = record {
  allowed_tools = config.allowed_tools;
  permission_mode = get_or config.permission_mode PermissionMode.default;
  model = get_or config.model default_model;
  system_prompt = none;
  max_turns = config.max_turns;
  max_budget_usd = config.budget_usd;
  mcp_servers = config.mcp_servers;
  messages = none;
  cwd = cwd;
}

-- The body of the loop.
unfoldable pub count_message : SdkMessage → Totals → Totals
count_message m t = record {
  output = get_or m.result t.output;
  input_tokens =
      replace_tokens m.usage (λ u. u.input_tokens)
        (add_tokens m.turn_usage (λ u. u.input_tokens) t.input_tokens);
  output_tokens =
      replace_tokens m.usage (λ u. u.output_tokens)
        (add_tokens m.turn_usage (λ u. u.output_tokens) t.output_tokens);
}

-- The end of the loop: the totals, and the error that it throws.
pub data CloudLoop : Type 0 where
  finished : Totals → CloudLoop
  threw : Text → CloudLoop

abbrev pub cloud_loop : List Arrival → Ending → Totals → CloudLoop
cloud_loop [] exhausted t = finished t
cloud_loop [] (rejected message) t = threw message
cloud_loop (a ∷ arrivals) ending t =
    let rest = cloud_loop arrivals ending (count_message a.message t) in
    if a.aborted then finished t else rest

abbrev pub exceeded : ℕ → Text
exceeded timeout = codes "Exceeded timeout of " ++ decimal timeout ++ codes "ms"

abbrev pub failed_after : (aborted : Bool) → (timeout : ℕ) → Text → (duration : ℕ) → ExecuteResult
failed_after aborted timeout message duration = record {
  status = if aborted then timed_out else ResultStatus.failed;
  output = none;
  error = some (if aborted then exceeded timeout else message);
  duration_ms = duration;
  input_tokens = none;
  output_tokens = none;
}

abbrev pub completed_with : Totals → (duration : ℕ) → ExecuteResult
completed_with t duration = record {
  status = completed;
  output = some t.output;
  error = none;
  duration_ms = duration;
  input_tokens = some t.input_tokens;
  output_tokens = some t.output_tokens;
}

-- `execute`; `aborted` is the signal when an error is caught.
unfoldable pub execute_cloud :
    List Arrival → Ending → (aborted : Bool) → (timeout duration : ℕ) → ExecuteResult
execute_cloud arrivals ending aborted timeout duration =
    elim (cloud_loop arrivals ending no_totals) [
      | finished t ↦ completed_with t duration
      | threw message ↦ failed_after aborted timeout message duration
    ]
