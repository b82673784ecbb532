-- ===== src/Trpc.antt =====
-- internal/runtime/trpc: the adapter of the tRPC-Agent-Go framework. The framework is third-party:
-- `Event` holds the fields of its events that the adapter reads.
pub mod Event
pub mod Normalizer
pub mod Agent
pub mod Instruction
pub mod Runtime
mod Tests
