-- ===== src/Engine.antt =====
-- backend/app/modules/orchestrator/graph_engine.py: the engine that walks a run's snapshot. What
-- it does outside the tables is a `World`. `_reassert_rls` only re-applies the scope of a `Db`.
pub mod Types
pub mod Node
pub mod Final
pub mod Loop
pub mod Next
pub mod Advance
pub mod Turn
pub mod Run
pub mod Safe
pub mod Outcome
pub mod Ends
pub mod Orchestrate
