-- ===== src/Executor.antt =====
-- The executor of packages/executor, a child module for each source file.
pub mod MessageBus
pub mod EventStream
pub mod CheckpointService
pub mod LogWriter
pub mod Recovery
pub mod Registries
pub mod Sdk
pub mod CloudCode
pub mod NativeSandbox
pub mod Limits
pub mod Shell
pub mod WasmSandbox
pub mod DockerSandbox
