-- ===== src/Hooks.antt =====
-- The hooks around the executors: frontend/src/lookingglass/hooks.ts and frontend/src/hooks.
pub mod Normal
pub mod FlowIds
pub mod Mapping
pub mod Executor
pub mod Socket
pub mod Session
pub mod Simulation
