-- ===== src/Cache.antt =====
-- cache/memory.go: the cache inside one process. A Go map is an association list in which every key
-- stands once. A call is one step: what it does between two locks is told where it matters. A
-- time is a number of nanoseconds since the year 1; `time.Now` is an argument.
pub mod Entries
pub mod Memory
pub mod Sessions
pub mod Locks
pub mod Waiting
pub mod RuntimeKeys
