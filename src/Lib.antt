-- ===== src/Lib.antt =====
-- Verification of qoder2api, a Go proxy that spreads API requests over a pool of accounts.
--
-- The program. A request passes the limits of its API key, the rate limiter (proxy/) and the prompt
-- filter (security/), then the store picks an account that may serve it, the one its session is bound
-- to if it can, and takes one of its concurrency slots (auth/); bindings, locks and cooldowns are
-- shared through a cache (cache/). The upstream answer changes the account's state, which changes its
-- score, its health tier and its place in the fast scheduler, and its tokens are billed (database/).
--
-- The files.
--   Prelude: shared tests, lists, maps as association lists, integers, text.
--   Auth.Plan, Auth.Account, Auth.Usage: auth/store.go and auth/premium_rate_limit.go, the fields of
--     `Account` that scheduling reads or writes, plan names, usage windows.
--   Auth.Score, Auth.Recompute: auth/store.go 533-930, `schedulerBreakdownLocked` and
--     `recomputeSchedulerLocked`; `recompute_scheduler` is the latter.
--   Auth.Availability: `IsAvailable`, `RuntimeStatus`, `SetCooldownUntil` of auth/store.go, and
--     `fastSchedulerSnapshot`, `tryAcquireAccount` of auth/fast_scheduler.go.
--   Auth.ModelCooldowns, Auth.Results: the cooldowns of single models and the window of the last
--     results, both of auth/store.go.
--   Auth.FastScheduler: auth/fast_scheduler.go. The state is the scheduler and the heap of accounts;
--     Buckets has the operations that move entries, Scan the search for a free account. The other
--     files below it have the invariant `Indexed` of the positions and the proofs.
--   Auth.Store: auth/store.go, the store. Cached has the cooldowns in the token cache (1797-1919),
--     Selection the slow path of `NextExcludingWithFilter` (3094-3150), Taking `takeByIDExcluding`
--     (3524-3572), Affinity the bindings of sessions (3326-3522): `next_for_session_with_filter` tries
--     the binding, the cache and then the selection, one function each. Waits has the wait for a free
--     account (3585-3676), Charges the slots that are taken, Excluded what is left out, and the children
--     hold the proofs.
--   Auth.ProxyPool: auth/proxy_pool.go. Entry has what marks and checks do to one proxy, Pool the
--     operations of the pool, Selection the three strategies, Reports what the pool tells of itself.
--     The other files below it have the invariant of the pool and the proofs.
--   Auth.Refresh: auth/refresh_scheduler.go. Tasks has a task and its times, Queue the priority queue,
--     Scheduler the state and the ways into the queues, Execution the runs, retries and cancellations
--     of tasks. The others have the proofs. What refreshAccount answers is a parameter.
--   Auth.LifeCycle: auth/store.go 4300-4660 and 5104-5129, what cooldowns, errors, tests, probes and
--     outcomes of requests do to an account (`mark_cooldown_account` is the account's part of `markCooldown`, and so on), with
--     ModelMarks for the cooldowns of models; Auth.Store.Marks has the operations on the store.
--   Cache: cache/memory.go. Memory has one function for each operation, Entries what its maps have in
--     common, Locks the refresh lock, Waiting the wait for it, Sessions the session bindings as a function
--     of the key and the time, RuntimeKeys the keys of the runtime values.
--   Database.Billing: database/billing.go, model names, prices and the cost of a request.
--   Security.PromptFilter: security/promptfilter/filter.go, the configuration, the scanned text and
--     the engine; regular expressions are parameters. Runes are counted as in UTF-8;
--     letters, spaces and control characters are those of ASCII.
--   Proxy.RateLimit: proxy/ratelimit.go, the token bucket, the exponential cooldown, the limiter of
--     one level and the limiter of all levels.
--   Proxy.Concurrency: proxy/apikey_concurrency.go, callers that take and give back slots in turns.
--   Proxy.Exclusions: proxy/retry_exclusions.go, with the store of Auth.Store.
--   Proxy.KeyLimits: proxy/apikey_limits.go, `enforceAPIKeyLimits`; what the database or the cache says
--     of a window is a parameter.
--   Proxy.ModelMapping: proxy/model_mapping.go, the mapping of model names by patterns; the members of
--     the JSON object are a parameter.
--   Examples: concrete states on which the theorems and the code run.
--
-- Conventions. A time is a number of nanoseconds and 0 is Go's zero time; a call takes the time as an
-- argument, which stands for its reading of the clock. Floats are exact rationals in the units that
-- each file names; rounding is modelled only where a file says so. Counters are natural numbers that
-- do not wrap where a file says nothing else: they are int64 and go up by one request at a time.
-- An operation that the code runs under a lock is one step.
--
-- Fuel. `acquire_excluding_with_filter` takes fuel: its loop starts again when an entry was out of
-- date. Each such round puts one entry right, so more fuel than out-of-date entries is enough.
-- `next_retry_account` runs along a list of turns, and two turns are enough. The loop of
-- `process_scheduled_tasks` has one turn for each task in its queue and one more, and needs no others.
--
-- Loops. The slow path has 16 attempts. The wait for an account runs along a list of its rounds, at
-- whose end the deadline has passed or the context is done, and the wait for a refresh along a list
-- of pauses, one for each further look, at whose end the context is done.
--
-- Not modelled: lazy mode of the store, the requests that refresh tokens or check proxies, HTTP
-- handlers, SQL, the Redis cache, the extraction of text from JSON, the administration and the
-- web interface, which are I/O, calls of other libraries, or are left for later.
pub mod Prelude
pub mod Auth
pub mod Cache
pub mod Database
pub mod Security
pub mod Proxy
pub mod Examples
