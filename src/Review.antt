-- ===== src/Review.antt =====
-- backend/app/modules/orchestrator/graph_review.py: human decisions on gated nodes, and rollbacks.
pub mod Types
pub mod Rollback
pub mod Decide
pub mod Rows
pub mod Accept
pub mod Cas
pub mod Verdict
pub mod Reject
pub mod Confirm
pub mod Once
