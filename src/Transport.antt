-- ===== src/Transport.antt =====
-- The transports of packages/transport, a child module for each source file.
pub mod HttpTransport
pub mod DevTransport
