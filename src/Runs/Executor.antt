-- ===== src/Runs/Executor.antt =====
-- The capability executor: backend-services/api/src/modules/agent-runs/capability-executor.ts, over the
-- business services.
pub mod Zod
pub mod Inputs
pub mod Results
pub mod Reports
pub mod Reads
pub mod Writes
pub mod Execute
mod Tests
