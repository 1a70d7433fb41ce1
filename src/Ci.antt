-- ===== src/Ci.antt =====
-- apps/api/src/ci: branch filters (Glob), workflow files (Workflows) and what they trigger (Trigger).
pub mod Glob
pub mod Workflows
pub mod Trigger
pub mod Tests
