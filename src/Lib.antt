-- ===== src/Lib.antt =====
-- Soroban DevConsole: the request path, the job queue and the offline queue.
--
-- The repository is a developer console for Soroban contracts: an API server (apps/api) that proxies
-- JSON-RPC calls and stores workspaces, a web client (apps/web), and shared packages. This library
-- models the parts that hold state or decode untrusted input.
--
-- Shared: what the modules share. Numbers are natural numbers; a Map is an association list that an
-- insertion overwrites; texts are compared as sequences of characters.
-- Breaker: apps/api/src/lib/circuit-breaker.ts. `Registry` is the map of circuits; `can_request`,
-- `record_success` and `record_failure` are the methods of the same names, `run` is a history of them.
-- Failover: apps/api/src/modules/rpc/rpc-failover.service.ts. `get_endpoints` gives the urls in the
-- order in which they are tried, and recovers endpoints whose cooldown is over.
-- Rpc: apps/api/src/modules/rpc. `Fetch` is `fetchWithFailover` of rpc.service.ts, which asks the
-- circuit breaker and the failover service around each upstream call; `Cache` is rpc-cache.service.ts.
-- Jobs: apps/api/src/lib/background-job.service.ts. A table is the list of the rows of the database.
-- `fail`, `replay` and `retryDeadLetter` read a row and then write it; `Histories` lets other steps
-- come between.
-- RateLimit: the guards and services that limit requests. `FixedWindow` is the count for each key
-- that three of them keep; `Policies` is apps/api/src/auth/services/rate-limit.service.ts, the others
-- are share-resolve-rate-limit.guard.ts and rpc-rate-limit.guard.ts with owner-rate-limit-config.ts.
-- Wasm: packages/soroban-utils/src/wasm-parser.ts, `readVarUint`,
-- `extractWasmCustomSection` and the signatures of functions, with wasm-validation.ts.
-- SyncQueue: apps/web/store/useSyncQueueStore.ts. A flush is a function of the server's replies.
-- Csrf: apps/api/src/common/guards/csrf.guard.ts, with the tokens as texts.
-- Webhooks: apps/api/src/lib/webhook-delivery.service.ts, over the table of Jobs.
-- OwnerKey: apps/api/src/auth/owner-key.guard.ts. Migration: apps/web/store/store-migration.ts, whose
-- loop runs on fuel; a round for each version up to the target is enough.
-- DeadLetter: apps/api/src/modules/dead-letter/dead-letter.service.ts; a retry is followed through
-- calls one after the other.
-- Rotation: apps/api/src/auth/owner-key-rotation.service.ts. Coalescer:
-- apps/api/src/lib/request-coalescer.ts. Poller: apps/web/lib/tx-status-poller.ts, a function of the
-- answers and the clock readings of its rounds.
-- Orchestrator: apps/web/lib/tx-orchestrator.ts; `orchestrate_tx` is a function of the replies to its
-- calls, `Watch` the step relation of `watchTxStatus`.
-- Workspaces: apps/api/src/modules/workspaces/workspaces.service.ts, over a list of rows with an
-- audit log; `Histories` are requests one after the other, `Races` lets one update come between the
-- read and the write of another.
-- Shares: apps/api/src/modules/shares/shares.service.ts, over the same rows; it stores what the
-- sanitizer leaves of a snapshot.
-- Sanitizer: apps/api/src/modules/shares/share-payload-sanitizer.ts. A JSON value is a tree.
--
-- Time is an argument, in milliseconds, and `now - t >= d` is written `t + d ≤ now`. What other
-- requests do while an answer is awaited is an argument too: a list of calls or a function on the
-- state. In the histories of Workspaces, Shares, Rotation and DeadLetter each request is handled before
-- the next begins; those of Jobs interleave reads and writes. The environment, hashes and the case
-- conversion of texts are parameters.
--
-- Bounds: the loop of `readVarUint` makes at most five rounds and the walk over sections at most
-- 10,000, both limits of the code itself; the polling of a transaction is a recursion on the attempts
-- that are left, a chain of migrations runs on fuel, and every other loop is on a list or a tree.
-- Numbers of `readVarUint` are kept modulo 2 to the power of 32 as the bit operations do.
--
-- Not modelled: HTTP, the database beyond the rows it holds, logging and domain events, but for
-- those of the dead-letter service, React components, and the text decoding of `parseWasmClientSpec`.
pub mod Shared
pub mod Breaker
pub mod Failover
pub mod Rpc
pub mod Jobs
pub mod Webhooks
pub mod RateLimit
pub mod Wasm
pub mod Workspaces
pub mod SyncQueue
pub mod Sanitizer
pub mod Shares
pub mod Rotation
pub mod Coalescer
pub mod DeadLetter
pub mod Poller
pub mod Orchestrator
pub mod Csrf
pub mod Migration
pub mod OwnerKey
