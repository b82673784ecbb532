-- ===== src/Optimize.antt =====
-- internal/optimize: selection of harness candidates on several objectives.
pub mod Pareto
pub mod Eval
pub mod Front
pub mod Analyze
pub mod Generate
pub mod Candidates
mod Tests
