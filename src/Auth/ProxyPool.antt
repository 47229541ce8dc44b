-- ===== src/Auth/ProxyPool.antt =====
-- auth/proxy_pool.go: the pool of outgoing proxies, their health, and the choice of one.
pub mod Entry
pub mod Pool
pub mod Selection
pub mod Reports
pub mod Entries
pub mod Health
pub mod Run
pub mod Valid
pub mod Weights
pub mod Turns
pub mod Choices
pub mod Service
pub mod Unhealthy
