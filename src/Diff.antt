-- ===== src/Diff.antt =====
-- internal/diff/diff.go: two runs' event streams become comparable steps, and the first place where
-- the two trajectories differ is located. SHA-256 is the parameter `sha256`.
pub mod Steps
pub mod Table
pub mod Compare
pub mod Divergence
pub mod Outcome
pub mod Trace
mod Tests
