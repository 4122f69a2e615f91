-- ===== src/Ingest/Run.antt =====
-- `runOnce`: one run of the collector, from the final block to the checkpoints and the marts. The
-- calls to the checkpoint table and to the ledger succeed; every other call may throw.
pub mod Coverage
pub mod History
use fast_auth_indexer_api.Prelude.{
  ℕ, ◌-◌, Bool, true, false, not, ◌&&◌, ◌||◌, Option, none, some, List, [], ◌∷◌, ltb, leb, ◌==◌,
  if◌then◌else◌, Text, print,
}
use fast_auth_indexer_api.BlockTime.{lag_blocks}
use fast_auth_indexer_api.Checkpoints.{
  near_last_final_block_height, near_last_final_block_hash, near_last_scanned_height,
  near_chain_head_height, near_chain_head_hash, near_backfill_start_origin, Checkpoints, Entry, get,
  set_many,
}
use fast_auth_indexer_api.Ledger.{Ledger, force_reset, record_skipped_range}
use fast_auth_indexer_api.NearBlock.{Block, non_empty}
use fast_auth_indexer_api.Ingest.{
  relayer_mart_rebuild_min_interval_ms, Try, returned, threw, Counts, Indexer, Node, Stats,
  no_stats, Walk, non_zero, walk_heights,
}
use fast_auth_indexer_api.Ingest.Range.{Heights, compute_range, heights_between}
use fast_auth_indexer_api.Ingest.Wedge.{Detector, Advance, advance}

pub data RunStatus : Type 0 where
  ok skipped error : RunStatus

-- `IndexerRunResult` less its text.
pub record RunResult : Type 0 where
  pub status : RunStatus
  pub inserted : Option ℕ

abbrev pub failed_run : RunResult
failed_run = record { status = error; inserted = none }

-- The collector: what it stores, and its fields.
pub record Collector (Db : Type 0) : Type 0 where
  pub checkpoints : Checkpoints
  pub ledger : Ledger
  pub db : Db
  pub backfill_origin_observed : Bool
  pub last_mart_rebuild_at_ms : ℕ
  pub mart_dirty : Bool
  pub detector : Detector

-- The outside of one run: the final block, the pool's answers, the clock where it is read, and the
-- call that rebuilds the relayer mart.
pub record Visit (Db Chunk : Type 0) : Type 0 where
  pub final_block : Try Block
  pub node : Node Chunk
  pub ledger_time : ℕ
  pub mart_time : ℕ
  pub rebuild : Db → Try ℕ × Db

-- The test of the periodic force-reset. A latest height below the range gives a negative lag in the
-- source and 0 here, and neither reaches the limit.
unfoldable pub is_reset_due : ℕ → ℕ → Bool
is_reset_due latest_height start_height =
    leb (lag_blocks 30) (latest_height - (start_height - 1))
    && ltb start_height (latest_height - lag_blocks 12)

-- What the force-reset writes.
unfoldable pub reset_entries : ℕ → Text → List Entry
reset_entries latest_height latest_hash =
    let target = print (latest_height - lag_blocks 12 - 1) in
    record { key = near_last_scanned_height; value = target }
    ∷ record { key = near_last_final_block_height; value = target }
    ∷ record { key = near_chain_head_height; value = print latest_height }
    ∷ record { key = near_chain_head_hash; value = latest_hash }
    ∷ []

abbrev is_missing : Option Text → Bool
is_missing none = true
is_missing (some []) = true
is_missing (some (c ∷ s)) = false

-- The chain head, and the origin of the backfill where it is not known yet.
unfoldable pub head_writes : Bool → Checkpoints → ℕ → Text → ℕ → List Entry
head_writes observed s latest_height latest_hash start_height =
    record { key = near_chain_head_height; value = print latest_height }
    ∷ record { key = near_chain_head_hash; value = latest_hash }
    ∷ (if not observed && is_missing (get near_backfill_start_origin s)
        then record { key = near_backfill_start_origin; value = print start_height } ∷ []
        else [])

abbrev is_height : Option ℕ → ℕ → Bool
is_height none h = false
is_height (some k) h = k == h

abbrev hash_write : Bool → Option Text → List Entry
hash_write true (some hash) = record { key = near_last_final_block_hash; value = hash } ∷ []
hash_write _ _ = []

-- The writes of `persistRunCheckpoints`.
unfoldable pub run_writes : ℕ → Stats → List Entry
run_writes target_height stats =
    record { key = near_last_final_block_height; value = print target_height }
    ∷ record { key = near_last_scanned_height; value = print target_height }
    ∷ hash_write (is_height stats.latest_persisted_height target_height)
        (non_empty stats.latest_persisted_hash)

module _ (ix : Indexer) where
  open ix use {Db, Chunk}

  abbrev pub Run : Type 0
  Run = RunResult × Collector Db

  unfoldable pub reset : ℕ → ℕ → ℕ → Text → Collector Db → Collector Db
  reset now start_height latest_height latest_hash c = record c {
    checkpoints = set_many (reset_entries latest_height latest_hash) c.checkpoints;
    ledger =
        record_skipped_range start_height (latest_height - lag_blocks 12 - 1)
          (force_reset (latest_height - (start_height - 1))) now c.ledger;
  }

  unfoldable pub write_head : ℕ → Text → ℕ → Collector Db → Collector Db
  write_head latest_height latest_hash start_height c = record c {
    checkpoints =
        set_many
          (head_writes c.backfill_origin_observed c.checkpoints latest_height latest_hash
            start_height)
          c.checkpoints;
    backfill_origin_observed = true;
  }

  abbrev is_due : Bool → ℕ → ℕ → Bool
  is_due dirty now last = dirty && leb relayer_mart_rebuild_min_interval_ms (now - last)

  after_rebuild : ℕ → ℕ → Collector Db → Try ℕ × Db → Run
  after_rebuild now inserted c (threw e, db) = (failed_run, record c { db = db })
  after_rebuild now inserted c (returned relayers, db) = (
    record { status = ok; inserted = some inserted },
    record c { db = db; last_mart_rebuild_at_ms = now; mart_dirty = false },
  )

  -- The mart is rebuilt at most once in an interval, when sign events came in since.
  unfoldable pub finish_marts : Visit Db Chunk → Stats → Collector Db → Run
  unfolding after_rebuild
  finish_marts v stats c =
      let dirty = ltb 0 stats.indexed_sign_events || c.mart_dirty in
      let marked = record c { mart_dirty = dirty } in
      if is_due dirty v.mart_time c.last_mart_rebuild_at_ms
      then after_rebuild v.mart_time stats.indexed_transactions marked (v.rebuild c.db)
      else (record { status = ok; inserted = some stats.indexed_transactions }, marked)

  -- The checkpoints of a run that advanced, the ledger, and the fields of the wedge detection.
  unfoldable pub settle : ℕ → Walk Db → Advance → Collector Db → Collector Db
  settle start_height w a c = record c {
    checkpoints =
        if leb start_height a.highest_contiguous
        then set_many (run_writes a.highest_contiguous w.stats) c.checkpoints
        else c.checkpoints;
    ledger = a.ledger;
    db = w.db;
    detector = a.detector;
  }

  abbrev pub fresh_walk : Db → Walk Db
  fresh_walk db = record { stats = no_stats; completed_heights = []; height_errors = []; db = db }

  -- The walk of a run: the heights that failed to the last, and its variables.
  unfoldable pub walked : Visit Db Chunk → ℕ → Block → Heights → Db → List ℕ × Walk Db
  walked v latest_height latest r db =
      walk_heights ix v.node latest_height latest (heights_between r.start_height r.target_height)
        (fresh_walk db)

  unfoldable pub advanced : Visit Db Chunk → ℕ → Block → Heights → Collector Db → Advance
  advanced v latest_height latest r c =
      let (failed, w) = walked v latest_height latest r c.db in
      advance v.ledger_time r.start_height r.target_height w.height_errors w.completed_heights
        failed c.detector c.ledger

  -- A run without a force-reset, from the walk on.
  unfoldable pub walk_and_settle : Visit Db Chunk → ℕ → Block → Heights → Collector Db → Run
  walk_and_settle v latest_height latest r c =
      let w = (walked v latest_height latest r c.db).1 in
      finish_marts v w.stats (settle r.start_height w (advanced v latest_height latest r c) c)

  unfoldable pub run_range : Visit Db Chunk → Block → ℕ → Text → Heights → Collector Db → Run
  run_range v latest latest_height latest_hash r c =
      if is_reset_due latest_height r.start_height
      then (
        record { status = ok; inserted = none },
        reset v.ledger_time r.start_height latest_height latest_hash c,
      )
      else walk_and_settle v latest_height latest r
          (write_head latest_height latest_hash r.start_height c)

  run_final : Visit Db Chunk → Block → Option ℕ → Option Text → Collector Db → Run
  run_final v latest (some latest_height) (some latest_hash) c =
      run_range v latest latest_height latest_hash (compute_range c.checkpoints latest_height) c
  run_final v latest _ _ c = (failed_run, c)

  run_latest : Visit Db Chunk → Try Block → Collector Db → Run
  unfolding run_final
  run_latest v (threw e) c = (failed_run, c)
  run_latest v (returned latest) c =
      run_final v latest (non_zero latest.height) (non_empty latest.hash) c

  -- `runOnce`, for the contract ids of the configuration.
  unfoldable pub run_once : List Text → Visit Db Chunk → Collector Db → Run
  unfolding run_latest
  run_once [] v c = (record { status = skipped; inserted = none }, c)
  run_once (id ∷ ids) v c = run_latest v v.final_block c
