-- ===== src/Task.antt =====
-- Tasks: the policy of state changes, and the records of Tasks
-- (src/researchctl/services/task_policy.py, src/researchctl/services/task_records.py).
pub mod Policy
pub mod Records
pub mod Service
mod Samples
