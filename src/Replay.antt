-- ===== src/Replay.antt =====
-- internal/replay and internal/runtime/trpc/replay.go: recording the calls of a run, and replaying them.
pub mod Canonical
pub mod Store
pub mod Tools
pub mod Model
pub mod Tests
