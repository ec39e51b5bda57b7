-- ===== src/Executor/DockerSandbox.antt =====
-- `DockerSandboxInstance` of packages/executor/src/sandboxes/docker.ts: the call of docker, and what
-- becomes of its output.
use baara_next.Base.{
  ℕ, List, [], ◌∷◌, ◌++◌, Bool, true, false, ◌&&◌, ◌||◌, Option, none, some, if◌then◌else◌, leb,
  ◌==◌, get_or, take, map, codes, decimal, trim, trim_end,
}
use baara_next.Core.Types.{Text, ExecuteResult, ResultStatus, completed, timed_out, cancelled}
use baara_next.Core.Conversation.{SandboxEvent, Level, info, warn, error}
use baara_next.Executor.EventStream.{EventStream, push_event, close_events}
use baara_next.Executor.LogWriter.Lines.{Cut, cut}
use baara_next.Executor.LogWriter.{asked}
use baara_next.Executor.CloudCode.{exceeded}
use baara_next.Executor.Shell.{Process, exited, unspawned, failed_with, complaint}
pub mod Names

pub record ResolvedDockerConfig : Type 0 where
  pub image : Text
  pub network_enabled : Bool
  pub ports : List ℕ
  pub volume_mounts : List Text

-- `resolveDockerConfig`, of the fields of the raw configuration.
abbrev pub resolve_docker_config :
    Option Text → Option Bool → Option (List ℕ) → Option (List Text) → ResolvedDockerConfig
resolve_docker_config image network_enabled ports volume_mounts = record {
  image = get_or image (codes "node:22-slim");
  network_enabled = get_or network_enabled true;
  ports = get_or ports [];
  volume_mounts = get_or volume_mounts [];
}

-- `[a-zA-Z0-9_-]`
abbrev pub is_name_char : ℕ → Bool
is_name_char c =
    (leb 97 c && leb c 122)
    || (leb 65 c && leb c 90)
    || (leb 48 c && leb c 57)
    || (c == 95)
    || (c == 45)

abbrev pub clean : Text → Text
clean = map (λ c. if is_name_char c then c else 45)

-- The name of the container of an execution, with a drawn id.
unfoldable pub container_name : (execution_id uuid : Text) → Text
container_name execution_id uuid =
    codes "baara-" ++ (clean execution_id ++ (codes "-" ++ take 8 uuid))

abbrev pub port_args : List ℕ → List Text
port_args [] = []
port_args (p ∷ ps) = codes "-p" ∷ (decimal p ++ codes ":" ++ decimal p) ∷ port_args ps

abbrev pub flagged : Text → List Text → List Text
flagged flag [] = []
flagged flag (x ∷ xs) = flag ∷ x ∷ flagged flag xs

-- The file of the secrets, when there is a key; the key itself is written to the file only.
abbrev pub env_file_args : Option Text → List Text
env_file_args none = []
env_file_args (some path) = codes "--env-file" ∷ path ∷ []

-- The arguments of the process; a variable of the environment is its text `key=value`.
unfoldable pub docker_args :
    ResolvedDockerConfig
    → (name : Text) → (env_file : Option Text) → (environment : List Text) → List Text
docker_args config name env_file environment =
    (codes "docker" ∷ codes "run" ∷ codes "--rm" ∷ codes "--name" ∷ name ∷ [])
    ++ ((if config.network_enabled then [] else codes "--network=none" ∷ [])
        ++ (port_args config.ports
            ++ (flagged (codes "-v") config.volume_mounts
                ++ (env_file_args env_file
                    ++ (flagged (codes "-e") environment
                        ++ (codes "-i" ∷ config.image ∷ codes "sh" ∷ []))))))

-- The lines of an output that are not empty, as events.
abbrev pub push_lines : Level → ℕ → List Text → EventStream SandboxEvent → EventStream SandboxEvent
push_lines level now [] s = s
push_lines level now ([] ∷ lines) s = push_lines level now lines s
push_lines level now ((c ∷ cs) ∷ lines) s =
    push_lines level now lines (push_event (SandboxEvent.log level (c ∷ cs) now) s)

-- `text.split("\n")`
abbrev pub split_lines : Text → List Text
split_lines text = (cut text).lines ++ (cut text).rest ∷ []

-- A result without output and error.
abbrev pub bare : ResultStatus → (duration : ℕ) → ExecuteResult
bare status duration = record {
  status = status;
  output = none;
  error = none;
  duration_ms = duration;
  input_tokens = none;
  output_tokens = none;
}

abbrev pub timed_out_after : (timeout duration : ℕ) → ExecuteResult
timed_out_after timeout duration = record (bare timed_out duration) {
  error = some (exceeded timeout);
}

-- The run: whether `cancel` was called and the timer has fired by the end of the process, and the
-- texts and times that it uses.
pub record DockerRun : Type 0 where
  pub execution_id : Text
  pub uuid : Text
  pub image : Text
  pub cancelled : Bool
  pub timed_out : Bool
  pub timeout : ℕ
  pub duration : ℕ
  pub started : ℕ
  pub ended : ℕ

module _ (run : DockerRun) where
  abbrev pub push_line : Level → Text → EventStream SandboxEvent → EventStream SandboxEvent
  push_line level what =
      push_event
        (SandboxEvent.log level (codes "[docker] Execution " ++ run.execution_id ++ what) run.ended)

  -- The result and the last events of a process that exits.
  abbrev pub conclude_docker :
      (code : ℕ)
      → (stdout stderr : Text) → EventStream SandboxEvent
      → ExecuteResult × EventStream SandboxEvent
  conclude_docker code stdout stderr s =
      let output = trim_end stdout in
      if run.cancelled
      then (bare cancelled run.duration, close_events s)
      else if run.timed_out
      then (
        timed_out_after run.timeout run.duration,
        close_events
            (push_line warn (codes " timed out after " ++ decimal run.timeout ++ codes "ms") s),
      )
      else if code == 0
      then (
        record (bare completed run.duration) { output = some output },
        close_events
            (push_line info (codes " completed in " ++ decimal run.duration ++ codes "ms") s),
      )
      else let message =
          complaint (trim stderr) (codes "Container exited with code " ++ decimal code) in
        (
          failed_with (some output) message run.duration,
          close_events (
              push_line error (codes " failed (exit " ++ decimal code ++ codes "): " ++ message) s),
        )

  -- `execute`, from the process on.
  unfoldable pub execute_docker :
      Process → EventStream SandboxEvent → ExecuteResult × EventStream SandboxEvent
  execute_docker (exited code stdout stderr) s =
      let name = container_name run.execution_id run.uuid in
      let begun =
        push_event
          (SandboxEvent.log info
            (codes "[docker] Starting execution "
              ++ run.execution_id
              ++ codes " in image "
              ++ run.image
              ++ codes " (container: "
              ++ name
              ++ codes ")")
            run.started)
          s in
      conclude_docker code stdout stderr (
        push_lines error run.ended (split_lines stderr)
          (push_lines info run.ended (split_lines stdout) begun))
  execute_docker (unspawned message) s =
      let name = container_name run.execution_id run.uuid in
      let begun =
        push_event
          (SandboxEvent.log info
            (codes "[docker] Starting execution "
              ++ run.execution_id
              ++ codes " in image "
              ++ run.image
              ++ codes " (container: "
              ++ name
              ++ codes ")")
            run.started)
          s in
      let closed = close_events begun in
      if run.cancelled
      then (bare cancelled run.duration, closed)
      else if run.timed_out
      then (timed_out_after run.timeout run.duration, closed)
      else (failed_with none message run.duration, closed)
