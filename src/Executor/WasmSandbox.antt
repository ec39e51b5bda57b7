-- ===== src/Executor/WasmSandbox.antt =====
-- `WasmSandbox` of packages/executor/src/sandboxes/wasm.ts: its configuration, the network policy
-- that it gives to the plugin, and the system prompt of the run in the native sandbox.
use baara_next.Base.{
  ℕ, List, [], ◌∷◌, ◌++◌, Bool, true, false, Option, none, some, if◌then◌else◌, ◌==◌, get_or,
  exists_in, codes, join, decimal,
}
use baara_next.Core.Types.{Text}
use baara_next.Executor.LogWriter.{asked}

pub record ResolvedWasmConfig : Type 0 where
  pub network_enabled : Bool
  pub max_memory_mb : ℕ
  pub max_cpu_percent : ℕ
  pub ports : List ℕ

-- `resolveWasmConfig`, of the fields of the raw configuration.
abbrev pub resolve_wasm_config :
    Option Bool → Option ℕ → Option ℕ → Option (List ℕ) → ResolvedWasmConfig
resolve_wasm_config network_enabled max_memory_mb max_cpu_percent ports = record {
  network_enabled = get_or network_enabled true;
  max_memory_mb = get_or max_memory_mb 512;
  max_cpu_percent = get_or max_cpu_percent 80;
  ports = get_or ports [];
}

-- `check_network`
abbrev pub check_network : ResolvedWasmConfig → (port : ℕ) → Bool
check_network config port =
    if config.network_enabled
    then elim config.ports [ [] ↦ true | p ∷ ps ↦ exists_in (λ x. x == port) (p ∷ ps) ]
    else false

abbrev pub bool_text : Bool → Text
bool_text true = codes "true"
bool_text false = codes "false"

-- The hint after the system prompt of the task, if it has one.
abbrev pub constrained_prompt : ResolvedWasmConfig → Option Text → Text
constrained_prompt config own =
    let hint =
      codes "Sandbox constraints: maxMemoryMb="
      ++ decimal config.max_memory_mb
      ++ codes ", networkEnabled="
      ++ bool_text config.network_enabled
      ++ codes ", maxCpuPercent="
      ++ decimal config.max_cpu_percent
      ++ codes "." in
    elim (asked own) [ none ↦ hint | some prompt ↦ join (codes "\n\n") (prompt ∷ hint ∷ []) ]
