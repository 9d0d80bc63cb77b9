-- ===== src/Plans.antt =====
-- Connecting through a plan: which node is bought, in what order, and how often the money moves
-- (src/main/plans/plan-connect.ts and the handler `PLAN_SMART_CONNECT` of src/main/ipc-handlers.ts).
pub mod Ranking
pub mod Ladder
mod Tests
