-- ===== src/Evals.antt =====
-- services/api/src/evals: evaluation sets are run through the question pipeline, each answer is
-- scored by a rubric, and a run is summed up and compared with the run before it.
pub mod Types
pub mod Rubric
pub mod Scoring
pub mod Reporting
pub mod Stored
pub mod Comparison
pub mod Execution
pub mod Sets
pub mod Runs
