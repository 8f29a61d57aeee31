-- ===== src/Flows.antt =====
-- The executors of the single grants: frontend/src/lookingglass/flows/*.ts.
pub mod Grant
pub mod Answer
pub mod Endings
pub mod RefreshToken
pub mod ClientCredentials
pub mod ResourceOwner
pub mod AuthorizationCode
pub mod Implicit
pub mod DeviceCode
pub mod Hybrid
pub mod Runs
pub mod Requests
