-- ===== src/Proxy.antt =====
-- The package proxy/: the limits that a request passes before it is forwarded.
pub mod RateLimit
pub mod Concurrency
pub mod Exclusions
pub mod KeyLimits
pub mod ModelMapping
