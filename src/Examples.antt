-- ===== src/Examples.antt =====
-- Concrete accounts, schedulers and limiters: the theorems at work, and runs of the code.
pub mod Data
pub mod Account
pub mod Scheduler
pub mod Cooldowns
pub mod RateLimit
pub mod Requests
pub mod Cache
pub mod Store
pub mod Billing
pub mod PromptFilter
pub mod Mapping
pub mod Proxies
pub mod Refresh
pub mod LifeCycle
