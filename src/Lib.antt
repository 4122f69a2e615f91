-- ===== src/Lib.antt =====
-- The indexer API of FastAuth: a worker that walks the NEAR chain block by block, keeps checkpoints and
-- a ledger of the heights that it gave up, classifies transactions, and runs its collectors on a
-- schedule. This library models its core in one module per part.
--
-- How the parts interact: the scheduler ticks the collectors. A run of the ingest collector asks the
-- block service for the final block, computes its range from the checkpoint table, walks the heights
-- through the RPC pool, and moves the checkpoints behind the heights that are completed or ledgered.
-- The boot guard moves them too, when the worker was down for long.
--
--   Prelude        shared names, texts, decimal numbers, sets and integers
--   Checkpoints    src/modules/common/checkpoints/checkpoints.service.ts, a map from keys to texts
--   Rpc            src/modules/common/near-rpc/near-rpc.service.ts: the pool, weighted round-robin and
--                  blacklisting; Rpc/Request is `request`, the retry loop with its error,
--                  Rpc/Request/Trail its attempts,
--                  Rpc/Slots the cap on the request rate
--   NearBlock      src/modules/near-ingest/near-block.service.ts: the RPC verbs, and when a height
--                  counts as missing everywhere
--   BlockTime      the blocks of some hours, which two services compute
--   Ledger         the table missing_block_ranges and `recordSkippedRange`
--   Ingest         src/modules/near-ingest/near-ingest.service.ts: the walk (`processBlockHeight`,
--                  `runHeights`, the retries); Ingest/Range is `computeRange`, Ingest/Wedge the step from
--                  the walk to the new checkpoint, Ingest/Run is `runOnce`
--   SkipForward    src/modules/ops/skip-forward.service.ts and src/modules/ops/boot-skip-guard.service.ts
--   Scheduler      src/modules/indexer-scheduler/indexer-scheduler.service.ts
--   Blocks         the same service's work on one block: `classifyTransaction`; Blocks/Probes are the
--                  probes with their cache, Blocks/Store the tables, `persistBlock` and the instance of
--                  the walk's interface `Indexer`
--   Tables         keyed rows: a map in the order of insertion, and a table with a unique key
--   SignEvents     src/modules/near-ingest/sign-event-derivator.ts: the sign events of a transaction
--   Conversion     src/modules/near-ingest/conversion.helpers.ts; Conversion/Delegate is
--                  delegate.helpers.ts
--   Json           JSON values, with the tests of their types that the code makes
--   Pricing        src/modules/common/pricing/pricing.service.ts: the price registry; Pricing/Valuation is
--                  the value of a transaction's actions
--   PublicKeys     src/modules/public-key-accounts/public-key-accounts.service.ts: a batch of sign events and
--                  its keys; PublicKeys/Links and PublicKeys/Rows are `persistLinksAndAccounts`,
--                  PublicKeys/Lookup is pubkey-lookup.service.ts with pubkey-helpers.ts,
--                  PublicKeys/Mentioned relates its answer to the texts of the payload,
--                  PublicKeys/OrphanRetry the retry of the keys without an account
--   ContractState  src/modules/fastauth-contract-state/fastauth-contract-state.service.ts
--   Concurrency    src/modules/common/concurrency.ts, as a step relation over its runners
--   TtlMemo        src/modules/common/ttl-memo.ts, as a step relation with the clock
--   Decode         src/modules/common/decoders/decode-sign-action.ts: Borsh and base58
--   Health         src/modules/health: health-status.helpers.ts, fastauth-health.service.ts
--                  and, in Health/Generic, tx-classifier.service.ts; Health/UserRuns is
--                  user-health.service.ts
--   HttpPool       src/modules/common/http-pool/http-endpoint-pool.ts: rotation over REST providers
--   Hmac           src/modules/indexer-trigger/hmac.guard.ts
--
-- State is passed explicitly: a collector, a pool or a scheduler is a record, and each operation maps it
-- to the next one. What the network, the database and the clock answer are arguments. Calls that throw
-- are sums or the type `Try`. Heights, times and bytes are natural numbers; where the code may go below
-- 0, the guard is written so that both agree. Where runners or tasks interleave, the steps are a
-- relation, in any order.
--
-- Bounds and fuel: the retry loop of `request` recurses on the attempts that are left, the retries of
-- the walk on the three rounds, the loops over heights and actions on their counts, and the carry of
-- base58 on the carry itself, which each round divides by 58.
--
-- What Node provides (`JSON`, `Buffer`, `URL`, the hash, `Date`, floating-point numbers) is an argument, in
-- the records `Runtime`, `Dates` and `Numbers`. Numbers in JSON and in texts are natural.
--
-- Not modelled: the SQL of the dashboard, marts and migrations, the SQL of the orphan retry, the
-- back-stamp of the sign events, the derivation of MPC keys, the parser of the MPC logs, log lines,
-- sleeps, and requests that run at the same time over the shared pool. The calls to the checkpoint
-- table, the ledger and the health tables succeed; the statements of a block may throw.
pub mod BlockTime
pub mod Blocks
pub mod Checkpoints
pub mod Concurrency
pub mod ContractState
pub mod Conversion
pub mod Decode
pub mod Health
pub mod Hmac
pub mod HttpPool
pub mod Ingest
pub mod Json
pub mod Ledger
pub mod NearBlock
pub mod Prelude
pub mod Pricing
pub mod PublicKeys
pub mod Rpc
pub mod Scheduler
pub mod SignEvents
pub mod SkipForward
pub mod Tables
pub mod TtlMemo
