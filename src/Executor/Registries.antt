-- ===== src/Executor/Registries.antt =====
-- packages/executor/src/sandbox-registry.ts and runtime-registry.ts: the sandboxes and runtimes by
-- their names.
use baara_next.Base.{
  set_in, ℕ, List, [], ◌∷◌, ◌++◌, Bool, true, false, Option, none, some, if◌then◌else◌, ◌==◌, find,
  update, is_some, keep, exists_in,
}
use baara_next.Core.Errors.{Result, or_err, other}
use baara_next.Core.Types.{
  Key, Task, SandboxType, ExecutionType, cloud_code, wasm_edge, shell, unknown_type,
}
pub mod Lookup

-- The names that the code spells out; a sandbox and a runtime may have one name.
abbrev pub native_name : Key
native_name = 12

abbrev pub wasm_name : Key
wasm_name = 13

abbrev pub docker_name : Key
docker_name = 14

abbrev pub cloud_code_name : Key
cloud_code_name = 15

abbrev pub wasm_edge_name : Key
wasm_edge_name = 16

abbrev pub shell_name : Key
shell_name = 17

abbrev pub sandbox_name : SandboxType → Key
sandbox_name SandboxType.native = native_name
sandbox_name SandboxType.wasm = wasm_name
sandbox_name SandboxType.docker = docker_name

abbrev pub runtime_name : ExecutionType → Key
runtime_name cloud_code = cloud_code_name
runtime_name ExecutionType.wasm = wasm_name
runtime_name wasm_edge = wasm_edge_name
runtime_name shell = shell_name
runtime_name (unknown_type k) = k

-- `available` is what `isAvailable` answers.
pub record Sandbox : Type 0 where
  pub name : Key
  pub available : Bool

abbrev pub register_sandbox : Sandbox → List Sandbox → List Sandbox
register_sandbox = set_in (λ s. s.name)

abbrev pub get_sandbox : Key → List Sandbox → Option Sandbox
get_sandbox = find (λ s. s.name)

-- `SandboxRegistry.getForTask`; a task of the store has a sandbox type.
abbrev pub sandbox_for_task : Task → List Sandbox → Result Sandbox
sandbox_for_task task registry =
    or_err (get_sandbox (sandbox_name task.sandbox_type) registry) other

abbrev pub get_available : List Sandbox → List Sandbox
get_available = keep (λ s. s.available)

pub record Runtime : Type 0 where
  pub name : Key
  pub capabilities : List Key

abbrev pub register_runtime : Runtime → List Runtime → List Runtime
register_runtime = set_in (λ r. r.name)

abbrev pub get_runtime : Key → List Runtime → Option Runtime
get_runtime = find (λ r. r.name)

-- `RuntimeRegistry.getForTask`
abbrev pub runtime_for_task : Task → List Runtime → Result Runtime
runtime_for_task task registry =
    or_err (get_runtime (runtime_name task.execution_type) registry) other

-- `seen.add` for each of the capabilities
abbrev pub add_capabilities : List Key → List Key → List Key
add_capabilities [] seen = seen
add_capabilities (c ∷ cs) seen =
    add_capabilities cs (if exists_in (λ k. k == c) seen then seen else seen ++ c ∷ [])

abbrev pub gather_capabilities : List Runtime → List Key → List Key
gather_capabilities [] seen = seen
gather_capabilities (r ∷ rs) seen = gather_capabilities rs (add_capabilities r.capabilities seen)

-- `getAllCapabilities`
unfoldable pub get_all_capabilities : List Runtime → List Key
get_all_capabilities registry = gather_capabilities registry []
