-- ===== src/Ingest.antt =====
-- src/modules/near-ingest/near-ingest.service.ts: the collector that walks the chain block by block.
-- This file holds its constants and its state, and the walk over a batch of heights. What is done
-- with the chunks of one block is the interface `Indexer`; the network is the interface `Node`.
--
-- One height is processed at a time, in the order of the batch. In the source the runners of
-- `runWithConcurrency` (see Concurrency.antt) interleave at their awaits; the interleaving of two
-- heights is not modelled.
pub mod Range
pub mod Wedge
pub mod Run
pub mod Walking
pub mod Lasting
pub mod Tests
use fast_auth_indexer_api.Prelude.{
  ℕ, zero, suc, ◌+◌, ◌-◌, ◌*◌, ◌≡◌, refl, ◌⊎◌, inl, inr, Bool, true, false, ◌||◌, Option, none,
  some, List, [], ◌∷◌, ◌++◌, ltb, ◌==◌, if◌then◌else◌, Text, codes, print,
}
use fast_auth_indexer_api.NearBlock.{
  Block, Failure, other, chunk_hashes_with_transactions, is_skippable_missing_height_error,
  non_empty,
}

abbrev pub near_max_blocks_per_run : ℕ
near_max_blocks_per_run = 500

abbrev pub near_backfill_start_height : ℕ
near_backfill_start_height = 194_800_000

abbrev pub near_hole_retry_rounds : ℕ
near_hole_retry_rounds = 3

abbrev pub near_wedge_skip_after_runs : ℕ
near_wedge_skip_after_runs = 2

abbrev pub relayer_mart_rebuild_min_interval_ms : ℕ
relayer_mart_rebuild_min_interval_ms = 10 * 60 * 1000

-- A call that returns a value or throws.
pub data Try {ℓ} (A : Type ℓ) : Type ℓ where
  returned : A → Try A
  threw : Failure → Try A

pub Try-cases {ℓ} :
    {A : Type ℓ} (t : Try A) → ((a : A) × (t ≡ returned a)) ⊎ ((e : Failure) × (t ≡ threw e))
Try-cases (returned a) = inl (a, refl)
Try-cases (threw e) = inr (e, refl)

-- The counts of inserted rows.
pub record Counts : Type 0 where
  pub transactions : ℕ
  pub sign_events : ℕ
  pub user_txs : ℕ

-- The tables and the caches of a run, and the work on one block: classify the transactions of its
-- chunks and insert the rows. It throws when an insert fails, and may have changed the state then.
pub record Indexer : Type 1 where
  pub Db : Type 0
  pub Chunk : Type 0
  pub index_block : ℕ → Block → List Chunk → Db → Try Counts × Db

-- What the RPC pool answers, by round of the walk.
pub record Node (Chunk : Type 0) : Type 0 where
  pub fetch_block_by_height : ℕ → ℕ → Try Block
  pub fetch_chunk_by_hash : ℕ → Text → Try Chunk

-- `stats`; `latestPersistedHeight` is `none` for its -1.
pub record Stats : Type 0 where
  pub processed : ℕ
  pub skipped_heights : ℕ
  pub indexed_transactions : ℕ
  pub indexed_sign_events : ℕ
  pub indexed_user_txs : ℕ
  pub latest_persisted_height : Option ℕ
  pub latest_persisted_hash : Option Text

abbrev pub no_stats : Stats
no_stats = record {
  processed = 0;
  skipped_heights = 0;
  indexed_transactions = 0;
  indexed_sign_events = 0;
  indexed_user_txs = 0;
  latest_persisted_height = none;
  latest_persisted_hash = none;
}

-- The variables of a run that the walk changes.
pub record Walk (Db : Type 0) : Type 0 where
  pub stats : Stats
  pub completed_heights : List ℕ
  pub height_errors : List (ℕ × Failure)
  pub db : Db

unfoldable pub has_height : List ℕ → ℕ → Bool
has_height [] h = false
has_height (k ∷ ks) h = k == h || has_height ks h

-- `blockHeight > stats.latestPersistedHeight`
abbrev pub above : ℕ → Option ℕ → Bool
above h none = true
above h (some k) = ltb k h

-- `!x` on a number that may be missing, or the number.
abbrev pub non_zero : Option ℕ → Option ℕ
non_zero none = none
non_zero (some zero) = none
non_zero (some (suc n)) = some (suc n)

module _ (ix : Indexer) where
  open ix use {Db, Chunk, index_block}

  module _ (node : Node Chunk) where
    -- `runWithConcurrencyAbortOnError` over the chunk hashes: the first failure is thrown.
    unfoldable pub fetch_chunks : ℕ → List Text → Try (List Chunk)
    fetch_chunks round [] = returned []
    fetch_chunks round (hash ∷ hashes) = elim (node.fetch_chunk_by_hash round hash) [
      | threw e ↦ threw e
      | returned chunk ↦ elim (fetch_chunks round hashes) [
        | threw e ↦ threw e
        | returned chunks ↦ returned (chunk ∷ chunks)
      ]
    ]

    unfoldable pub skip_height : ℕ → Walk Db → Walk Db
    skip_height height w = record w {
      stats = record w.stats {
        processed = w.stats.processed + 1;
        skipped_heights = w.stats.skipped_heights + 1;
      };
      completed_heights = height ∷ w.completed_heights;
    }

    unfoldable pub complete_height : ℕ → ℕ → Text → Counts → Db → Walk Db → Walk Db
    complete_height height block_height block_hash n db w =
        let newest = above block_height w.stats.latest_persisted_height in
        record w {
          stats = record {
            processed = w.stats.processed + 1;
            skipped_heights = w.stats.skipped_heights;
            indexed_transactions = w.stats.indexed_transactions + n.transactions;
            indexed_sign_events = w.stats.indexed_sign_events + n.sign_events;
            indexed_user_txs = w.stats.indexed_user_txs + n.user_txs;
            latest_persisted_height =
                if newest then some block_height else w.stats.latest_persisted_height;
            latest_persisted_hash =
                if newest then some block_hash else w.stats.latest_persisted_hash;
          };
          completed_heights = height ∷ w.completed_heights;
          db = db;
        }

    unfoldable pub after_index : ℕ → ℕ → Text → Walk Db → Try Counts × Db → Option Failure × Walk Db
    after_index height block_height block_hash w (threw e, db) = (some e, record w { db = db })
    after_index height block_height block_hash w (returned n, db) =
        (none, complete_height height block_height block_hash n db w)

    unfoldable pub store_block :
        ℕ → Block → ℕ → Text → List Chunk → Walk Db → Option Failure × Walk Db
    unfolding after_index
    store_block height b block_height block_hash chunks w =
        after_index height block_height block_hash w (index_block height b chunks w.db)

    unfoldable pub index_payload :
        ℕ → ℕ → Block → Option ℕ → Option Text → Walk Db → Option Failure × Walk Db
    index_payload round height b (some block_height) (some block_hash) w =
        elim (fetch_chunks round (chunk_hashes_with_transactions b)) [
          | threw e ↦ (some e, w)
          | returned chunks ↦ store_block height b block_height block_hash chunks w
        ]
    index_payload round height b _ _ w =
        (some (other (codes "NEAR response missing block details for height " ++ print height)), w)

    unfoldable pub fetch_payload : ℕ → ℕ → Block → ℕ → Try Block
    fetch_payload round latest_height latest height =
        if height == latest_height then returned latest else node.fetch_block_by_height round height

    -- `processBlockHeight`: what it throws, if it does, and the walk.
    unfoldable pub process_block_height : ℕ → ℕ → Block → ℕ → Walk Db → Option Failure × Walk Db
    unfolding index_payload store_block
    process_block_height round latest_height latest height w =
        elim (fetch_payload round latest_height latest height) [
          | threw e ↦
              if is_skippable_missing_height_error e
              then (none, skip_height height w)
              else (some e, w)
          | returned b ↦ index_payload round height b (non_zero b.height) (non_empty b.hash) w
        ]

    -- One round of the loop of `runHeights`: what is thrown is recorded for the height.
    unfoldable pub note_failure : ℕ → Option Failure × Walk Db → List ℕ × Walk Db
    note_failure height (none, w) = ([], w)
    note_failure height (some e, w) =
        (height ∷ [], record w { height_errors = (height, e) ∷ w.height_errors })

    -- `runHeights`: the heights that failed, and the walk.
    unfoldable pub run_heights : ℕ → ℕ → Block → List ℕ → Walk Db → List ℕ × Walk Db
    unfolding note_failure
    run_heights round latest_height latest [] w = ([], w)
    run_heights round latest_height latest (height ∷ batch) w =
        let (failed, w') =
          note_failure height (process_block_height round latest_height latest height w) in
        let (later, w'') = run_heights round latest_height latest batch w' in (failed ++ later, w'')

    -- The in-run retries of the holes, with the rounds that are left.
    unfoldable pub retry_holes : ℕ → ℕ → ℕ → Block → List ℕ → Walk Db → List ℕ × Walk Db
    retry_holes zero round latest_height latest failed w = (failed, w)
    retry_holes (suc left) round latest_height latest [] w = ([], w)
    retry_holes (suc left) round latest_height latest (h ∷ failed) w =
        let (still, w') = run_heights round latest_height latest (h ∷ failed) w in
        retry_holes left (round + 1) latest_height latest still w'

    unfoldable pub walk_heights : ℕ → Block → List ℕ → Walk Db → List ℕ × Walk Db
    walk_heights latest_height latest heights w =
        let (failed, w') = run_heights 0 latest_height latest heights w in
        retry_holes near_hole_retry_rounds 1 latest_height latest failed w'
