-- ===== src/Ingest/Tests.antt =====
-- A small chain of heights, for the tests of the collector.
use fast_auth_indexer_api.Prelude.{
  ℕ, ◌+◌, ◌-◌, ◌%◌, ◌≤◌, ◌≡◌, refl, ◌⊎◌, true, false, ◌&&◌, Option, some, [], ◌∷◌, arith, leb, ◌==◌,
  if◌then◌else◌, length, codes,
}
use fast_auth_indexer_api.Checkpoints.{empty, get}
use fast_auth_indexer_api.Ledger.{Ledger, ledgered}
use fast_auth_indexer_api.NearBlock.{Block, Failure, exhausted}
use fast_auth_indexer_api.Ingest.{
  near_backfill_start_height, Try, returned, threw, Counts, Indexer, Node, Stats, no_stats, Walk,
  has_height, walk_heights,
}
use fast_auth_indexer_api.Ingest.Walking.{IsDone, walk_heights-IsDone}
use fast_auth_indexer_api.Ingest.Range.{compute_range, heights_between}
use fast_auth_indexer_api.Ingest.Range.Laws.{
  compute_range_bounds, compute_range-ignores_height, has-heights_between,
}
use fast_auth_indexer_api.Ingest.Wedge.{Detector, Advance, advance, idle, is_wedged}
use fast_auth_indexer_api.Ingest.Wedge.GivenUp.{advance-gives_up}
use fast_auth_indexer_api.Ingest.Run.{Collector, Visit}
use fast_auth_indexer_api.Ingest.Run.Coverage.{Covers}
use fast_auth_indexer_api.Ingest.Run.History.{runs, runs_completed, runs_cover}

-- The rows are counted, and each chunk is a number.
abbrev sample_indexer : Indexer
sample_indexer = record {
  Db = ℕ;
  Chunk = ℕ;
  index_block = λ h b chunks db.
      (returned (record { transactions = length chunks; sign_events = 0; user_txs = 0 }), db + 1);
}

abbrev sample_block : ℕ → Block
sample_block h = record {
  height = some h;
  hash = some (codes "hash");
  timestamp = some 1;
  chunks = [];
}

-- Two endpoints out of three do not know the block.
abbrev gone : Failure
gone = exhausted (record {
  message = codes "NEAR block-by-height 7 RPC error";
  unknown_block_endpoints = codes "a" ∷ codes "b" ∷ [];
  healthy_endpoint_count = 3;
  total_attempts = 6;
  contacted_endpoint_count = 3;
})

-- The even heights are gone.
abbrev sample_node : Node ℕ
sample_node = record {
  fetch_block_by_height = λ round h. if h % 2 == 0 then threw gone else returned (sample_block h);
  fetch_chunk_by_hash = λ round hash. returned 0;
}

abbrev sample_walk : Walk ℕ
sample_walk = record { stats = no_stats; completed_heights = []; height_errors = []; db = 0 }

abbrev sample_visit : Visit ℕ ℕ
sample_visit = record {
  final_block = returned (sample_block 194_800_002);
  node = sample_node;
  ledger_time = 5;
  mart_time = 6;
  rebuild = λ db. (returned 0, db);
}

abbrev sample_collector : Collector ℕ
sample_collector = record {
  checkpoints = empty;
  ledger = [];
  db = 0;
  backfill_origin_observed = false;
  last_mart_rebuild_at_ms = 0;
  mart_dirty = false;
  detector = idle;
}

runs_cover_example :
    Covers sample_indexer near_backfill_start_height
      (runs_completed sample_indexer
        (codes "fastauth" ∷ [])
        (sample_visit ∷ sample_visit ∷ [])
        sample_collector
        [])
      (runs sample_indexer
        (codes "fastauth" ∷ [])
        (sample_visit ∷ sample_visit ∷ [])
        sample_collector)
unfolding get
runs_cover_example =
    runs_cover sample_indexer (codes "fastauth" ∷ []) (sample_visit ∷ sample_visit ∷ [])
      sample_collector refl

walk_heights-IsDone_example :
    (has_height
        (walk_heights sample_indexer sample_node 9 (sample_block 9) (5 ∷ 6 ∷ 9 ∷ []) sample_walk).0
        6
      ≡ true)
    ⊎ ((has_height
            (walk_heights sample_indexer sample_node 9
              (sample_block 9)
              (5 ∷ 6 ∷ 9 ∷ [])
              sample_walk).1.completed_heights
            6
          ≡ true)
        × IsDone sample_indexer sample_node 9 (sample_block 9) 6)
unfolding has_height
walk_heights-IsDone_example =
    walk_heights-IsDone sample_indexer sample_node 9 (sample_block 9) (5 ∷ 6 ∷ 9 ∷ []) sample_walk 6
      refl refl

compute_range_bounds_example :
    (near_backfill_start_height ≤ (compute_range empty 194_900_000).start_height)
    × ((compute_range empty 194_900_000).target_height ≤ 194_900_000)
    × ((compute_range empty 194_900_000).target_height
          + 1
          - (compute_range empty 194_900_000).start_height
        ≤ 500)
compute_range_bounds_example = compute_range_bounds empty 194_900_000

compute_range-ignores_height_example :
    (compute_range empty 194_900_007).start_height ≡ near_backfill_start_height
unfolding get
compute_range-ignores_height_example = compute_range-ignores_height empty 194_900_007 refl

has-heights_between_example : has_height (heights_between 3 9) 7 ≡ (leb 3 7 && leb 7 9)
has-heights_between_example = has-heights_between 3 9 7

-- Stuck for the second run at 5, where 5 is gone.
abbrev sample_advance : Advance
sample_advance =
    advance 1 5 8 ((5, gone) ∷ []) (6 ∷ 7 ∷ []) (5 ∷ [])
      (record { frontier = some 5; stuck_runs = 1 }) []

advance-gives_up_example :
    (is_wedged (5 ∷ []) ((5, gone) ∷ []) 5 ≡ true)
    × (◌≡◌ {A = Option ℕ} (some 5) (some 5))
    × (1 ≤ 1)
unfolding ledgered advance fast_auth_indexer_api.Ingest.Wedge.unblock
    fast_auth_indexer_api.Ingest.Wedge.last_of_range has_height
    fast_auth_indexer_api.Ingest.Wedge.stuck is_wedged fast_auth_indexer_api.Ingest.Wedge.error_of
    fast_auth_indexer_api.NearBlock.is_unfetchable_everywhere_error
    fast_auth_indexer_api.Ingest.Wedge.skip_wedge fast_auth_indexer_api.Ledger.record_skipped_range
advance-gives_up_example =
    advance-gives_up 1 5 8 ((5, gone) ∷ []) (6 ∷ 7 ∷ []) (5 ∷ [])
      (record { frontier = some 5; stuck_runs = 1 }) [] 5 (omega arith) refl refl
