-- ===== src/Auth.antt =====
-- auth/: accounts, their health and score, and the selection of an account for a request.
pub mod Plan
pub mod Account
pub mod Usage
pub mod Score
pub mod Recompute
pub mod Availability
pub mod Store
pub mod ModelCooldowns
pub mod Results
pub mod FastScheduler
pub mod ProxyPool
pub mod Refresh
pub mod LifeCycle
