-- ===== src/Flow.antt =====
-- The flow executors' base: frontend/src/lookingglass/flows/base.ts.
pub mod State
pub mod Env
pub mod Exec
pub mod Jwt
pub mod Base
pub mod Tokens
pub mod Random
pub mod Popup
pub mod Respects
pub mod Steps
pub mod Listeners
pub mod Timeline
pub mod Outcome
pub mod Inversion
pub mod Yields
pub mod Total
pub mod Watching
pub mod Validation
pub mod Window
