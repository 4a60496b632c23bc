-- ===== src/Lib.antt =====
-- A library of verified models of parts of LingFramework, a Go framework for web services with
-- access control, caches, circuit breakers, transactions, captchas and voice media. Each module
-- translates a package or a file of the repository into functions and proves what they do.
--
-- Parts of the program, and the files that model them:
--
--   pkg/circuitbreaker, types.go, circuitbreaker.go, utils.go
--     Breaker.antt: the state machine of CircuitBreaker (closed, open, half-open) with its counters,
--     generations and expiries; the two halves of Execute, before and after the called function,
--     are steps at an instant. Breaker/Events names the events of a run; Closed, HalfOpen, Recovery
--     and Trace hold the proofs by state and over runs.
--   pkg/circuitbreaker/retry.go             Breaker/Retry.antt, with its proofs in Breaker/Retry/.
--   pkg/cache/local.go                      Cache.antt: localCache over lruCache, a map with an
--     order of access; every method is a function of the instant and of the cache. Cache/Calls
--     runs histories of calls against a map without a bound; Refines, Methods and Recency relate
--     the two, Cleanup and Reads look at single methods.
--   pkg/auth/abac.go                        Auth/Abac.antt: the list of policies of ABAC, its
--     conditions and CheckAccess. Auth/Abac/ holds the proofs.
--   pkg/auth/rbac.go                        Auth/Rbac.antt: the maps roles and userRoles of RBAC and
--     its methods. Auth/Rbac/ holds the proofs.
--   pkg/transaction/types.go, manager.go    Transaction.antt and Transaction/Manager.antt: contexts
--     in a heap, Begin, Commit, Rollback, ShouldRollback. Transaction/ holds the proofs.
--   pkg/websocket/websocket.go, and JoinGroup, LeaveGroup, handlePing and SendMessage of connection.go
--     Hub.antt: the hub's tables and the methods that change them; Hub/Delivery: sending. The other
--     files of Hub/ hold the proofs.
--   pkg/utils/security/login_security.go, registration_guard.go, distributed_lock.go
--     Guard/Login, Guard/Registration with Guard/Attempts, Guard/Lock and Guard/UserAgent. They
--     share Guard.antt with the interface of the cache that they count in, which Guard/Local fills
--     with the local cache (pkg/cache/redis.go does not fill it: an int comes back as a float64);
--     Limits, Failures and Exclusion hold the proofs.
--   pkg/scheduler/scheduler.go            Scheduler.antt, with Scheduler/Hash for the choice of nodes;
--     Scheduled, Stopped, Steps and Runs hold the proofs.
--   pkg/reactive/backpressure.go          Backpressure.antt: a subscriber with its bounded buffer, its
--     methods run one after another (proofs in Strategies and Drain); Backpressure/Interleaved.antt:
--     the same with its goroutines in turns of one access of the shared state each (proofs in
--     Signals, Kept, Runs and Lost; Whole relates the two files).
--   pkg/utils/session.go                  Session.antt; the proofs are in Session/Alive and Cleaned.
--   pkg/utils/utils_array.go              Slices.antt; the proofs are in Slices/Members.
--   pkg/media/encoder/g711.go               G711.antt: A-law and mu-law on bytes and on samples;
--     proofs in G711/RoundTrip.
--   pkg/utils/captcha, store.go and the Verify of image.go, slider.go, puzzle.go, click.go
--     Captcha.antt: MemoryStore and the comparisons of answers; proofs in Captcha/.
--
-- Base.antt passes on the names that all modules share: Base/Tests (Boolean tests, Go's
-- comparable), Base/Lists (strings as lists of bytes), Base/Int (int, int64), Base/Time
-- (instants, durations) and Base/Dict (Go maps as association lists, with their laws in
-- Base/Dict/Laws).
--
-- How state and calls are modelled. A method with a receiver is a function from the receiver's
-- fields to the new ones, with the results beside them; a run of several goroutines is a list of
-- calls in some order, where each runs to its end before the next one begins, also where the Go code
-- takes no lock or gives one up in between (setState and its callers in the circuit breaker, the
-- sending of the hub, EnableTask, DisableTask and UpdateTask of the scheduler). Runs in which such
-- calls overlap are not modelled, except for the subscriber with a bounded buffer, in
-- Backpressure/Interleaved. The clock is an argument: an instant in nanoseconds. Errors are values of
-- a data type or of Option, nil is
-- none. The Go map is an association list, of which no model observes the order. int and int64
-- are integers, with the wrap-around of int64 written out where a counter can reach it (Base/Int,
-- inc64 and wrap64).
--
-- The connections of the hub, the tasks of the scheduler and the sessions are shared pointers:
-- addresses into a store, `objects`.
--
-- Bounds and fuel. Loops over slices and maps are recursion on the list. The search for a
-- substring in pkg/auth/abac.go runs over as many positions as the source's loop has, which is
-- its only fuel; the retries run over the attempts that the source counts. A loop that runs for
-- ever, as the hub's and that of a backpressure buffer, is taken by iterations, which are steps
-- of a run. No model stops early by lack of fuel.
--
-- Parameters, for code outside of the repository or of no concern to the properties: the called
-- function of a circuit breaker, the float64 comparisons of a condition (Auth/Abac, FloatOps),
-- gorm with the state of its database (Transaction, Gorm), robfig/cron, the product of a pause
-- with a float64 in the retries, strings.ToLower, the expression for e-mail addresses and package
-- net in the guards, and whether a full channel is drained before the timeout of a send in the
-- hub (`drained`).
--
-- Not modelled: the handlers and models of internal/, the commands of cmd/, templates and static
-- files; the adapters of third-party libraries (redis, gocache, hashicorp lru, gorm plugins, gin
-- middlewares, storage backends, search, notification, opus and g722 codecs); pure formatting,
-- logging and file input and output; and the parts that wait for their turn:
-- pkg/scheduler/distributed.go, pkg/middleware, the rest of pkg/reactive, the sessions and
-- routers of pkg/media, and most of pkg/utils. Of pkg/websocket the upgrade of requests, the
-- pumps of the sockets, JSON and the handlers are left out.
pub mod Base
pub mod Breaker
pub mod Hub
pub mod Guard
pub mod Scheduler
pub mod Backpressure
pub mod Auth
pub mod Cache
pub mod G711
pub mod Transaction
pub mod Captcha
pub mod Slices
pub mod Session
