-- ===== src/Lib.antt =====
-- pace: rate limiting of outbound HTTP requests per key (a Go library).
--
-- A client's request goes through client/, which enters the limiter of limiter/, acquires a token for
-- its key and hands the request to the transport. The limiter finds the key's entry in the sharded map
-- of registry/, whose bucket (bucket/) is local, and asks a shared backend through the gate of gate/,
-- which has a circuit breaker (breaker/). Idle keys are swept from the registry and saved in a store
-- (store/). config/ holds the settings, urlx/ makes the URLs.
--
-- Which file models what:
--   Breaker       breaker/breaker.go: the fields of Breaker and its four calls
--   Bucket        bucket/bucket.go and bucket/rate.go
--   Bucket.Parse  bucket/parse.go and Limit.String of bucket/rate.go
--   Shared        the requests, answers and policies of shared/shared.go
--   Gate          gate/gate.go: Take, its counters and delays, RetryDelay, FallbackDelay
--   Gate.Fleet    replicas with gates before one shared backend, as gate/gate.go and shared/shared.go
--                 compose
--   Gate.Rounds   gate/admit.go: Allow, wait and waitFallback; Polling has the loop of Acquire
--   Registry      registry/registry.go: GetOrCreate, newEntry, SnapshotAll, Reload, ReloadKey
--   Registry.Gc   registry/gc.go: Evict, DropAll, Sweep with its three phases, sweepInPlace
--   Registry.Run  the critical sections of both as steps, one for each shard's lock
--   Registry.Owned, Registry.Directory   who holds which entry, and the registry as one map
--   Config        config/config.go: validate, withDefaults, Resolve, roundUpPowerOfTwo
--   Config.Options   config/options.go, and DefaultConfig of config/config.go
--   Limiter       limiter/validate.go and limiter/quota.go
--   Limiter.Persist, Limiter.Lifecycle   limiter/persist.go and limiter/lifecycle.go
--   Limiter.Lifecycle.Calls   finish, Close and Shutdown of limiter/lifecycle.go as calls
--   Limiter.Lifecycle.Contexts   Enter of limiter/api.go and withLifetime of limiter/lifecycle.go
--   Limiter.Admission, Limiter.Reserve, Limiter.Acquire   Allow and acquire of limiter/ratelimit.go and
--                 limiter/reserve.go, with limiter/errors.go and the throttle reports of
--                 limiter/observer.go
--   Limiter.Observer   the other reports of limiter/observer.go, and limiter/stats.go
--   Limiter.Engine     New of limiter/limiter.go and the calls of limiter/api.go
--   Observe       observe/observe.go
--   Store         store/store.go and store/memory/memory.go
--   Urlx          urlx/urlx.go
--   Store.Suite   store/storetest/storetest.go, with the store of examples/store/main.go
--   Store.File    the store in a file of examples/store/main.go
--   Shared.Suite  shared/quotatest/quotatest.go
--   Client        client/request.go (do, send, build, roundTrip), readBody of client/stream.go and
--                 RetryAfter of client/response.go
--   Client.Builder, Client.Streams   the calls of client/request.go that build a request, and Stream of
--                 client/stream.go
--   Client.Pools  client/pool.go and client/client.go
--   Limiter.Isolation, Limiter.Budget   one key of a limiter beside the calls for others, and the
--                 credit that its calls of Allow are counted against
-- The folder of a file has what is proved of it, and Tests the calls at fixed inputs. Prelude has what
-- all share, Float the type of float64, Samples concrete values of the parameters.
--
-- How the code is read:
--   - A method that changes its receiver returns the new state. A panic, and a nil pointer, is `none`.
--   - An instant is the number of nanoseconds since 1970 as an integer without bounds; time.Sub
--     saturates and UnixNano wraps at 64 bits as in Go, and so do the counters and the sums of int64.
--   - Concurrency is explicit. An operation that gives up its lock takes what other goroutines do in
--     between as an argument: `others` is any function of the registry, while `meanwhile`, `before` and
--     `parked` change a bucket only, so that nobody evicts or touches a key while the shared backend is
--     asked for it. The lifecycle's critical sections are steps that interleave in any order, and so are
--     the registry's in Registry.Run, shard by shard. The functions of Registry and Registry.Gc that walk
--     over the shards, and Evict between its lock and its Save, are one goroutine's call with nobody in
--     between.
--   - A string is its list of bytes. A map is an association list, walked in its order.
--   - float64 is a parameter with the operations that are used, and IEEE 754 facts as its laws;
--     golang.org/x/time/rate, net/url, the store of a user, the shared backend, the clock, the contexts
--     and the transport are parameters too. Logging is left out; the warnings of a flush are returned.
--   - What ParseLimit uses of strings and strconv is a parameter, with what their documentation says of
--     plain ASCII as laws. A range over a map takes its keys in an order that is an argument.
--   - The polling loop of Acquire takes the rounds as a list; one that ends early leaves the caller
--     waiting. The loop of roundUpPowerOfTwo has 64 rounds, as its limit is 2 ^ 20, and the loop of
--     flush has one for each state, as a chunk takes at least one of them.
--   - A check of a shipped test suite is a function of what it tests; it returns what it reports.
--
-- Not modelled: the texts of errors, logging, the decoding of a response's JSON, the hooks for tests and
-- the main programs of the examples, as no part of the program's work; and bucket.Wait, which is
-- golang.org/x/time/rate's.
pub mod Prelude
pub mod Breaker
pub mod Float
pub mod Bucket
pub mod Shared
pub mod Gate
pub mod Samples
pub mod Registry
pub mod Observe
pub mod Urlx
pub mod Store
pub mod Config
pub mod Limiter
pub mod Client
