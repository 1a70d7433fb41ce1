-- ===== src/Gates.antt =====
-- What a merge is held back by: CI checks (ci/summary.ts), reviews (review-summary.ts) and branch
-- protection (branch-protection.ts), all under apps/api/src.
pub mod Checks
pub mod Reviews
pub mod Protection
pub mod Tests
