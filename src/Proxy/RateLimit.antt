-- ===== src/Proxy/RateLimit.antt =====
-- proxy/ratelimit.go: token buckets with an exponential cooldown, at three levels. Times are
-- nanoseconds of a clock that does not run backwards, and 0 is the zero time.
pub mod Bucket
pub mod Cooldown
pub mod Level
pub mod Enhanced
pub mod Rate
pub mod Backoff
pub mod Blocking
pub mod Denials
pub mod Layers
