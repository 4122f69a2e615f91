-- ===== src/Ingest/Range/Laws.antt =====
-- The bounds of the range, where it starts, and what it holds.
use fast_auth_indexer_api.Prelude.{
  ℕ, zero, suc, ◌+◌, ◌-◌, ◌≤◌, ◌≡◌, ◌&&◌, none, some, arith, ltb, leb, print, number-print,
  number-nil,
}
use fast_auth_indexer_api.Checkpoints.{near_last_scanned_height, Checkpoints, get}
use fast_auth_indexer_api.Ingest.{near_max_blocks_per_run, near_backfill_start_height, has_height}
use fast_auth_indexer_api.Ingest.Range.{compute_range, heights_from, heights_between}

-- A run never starts below the backfill start, goes through 500 heights at most, and never past the
-- latest final height.
pub compute_range_bounds :
    (s : Checkpoints) (latest_height : ℕ)
    → let r = compute_range s latest_height in
      (near_backfill_start_height ≤ r.start_height)
      × (r.target_height ≤ latest_height)
      × (r.target_height + 1 - r.start_height ≤ near_max_blocks_per_run)
unfolding compute_range
compute_range_bounds s latest_height = ground arith

-- Once a scanned height is stored, the next run starts right behind it, whatever the other
-- checkpoints hold.
pub compute_range-resumes :
    (s : Checkpoints) (latest_height scanned : ℕ)
    → get near_last_scanned_height s ≡ some (print scanned)
    → near_backfill_start_height ≤ scanned + 1
    → (compute_range s latest_height).start_height ≡ scanned + 1
unfolding compute_range
compute_range-resumes s latest_height scanned stored h = ground (arith, number-print scanned)

-- With no scanned height stored, the run starts at the backfill start, whatever the checkpoint of
-- the last final block height holds: `Number("")` is 0, which counts as a stored height.
pub compute_range-ignores_height :
    (s : Checkpoints) (latest_height : ℕ)
    → get near_last_scanned_height s ≡ none
    → (compute_range s latest_height).start_height ≡ near_backfill_start_height
unfolding compute_range
compute_range-ignores_height s latest_height missing = ground (arith, number-nil)

heights_from-has :
    (from left h : ℕ) → has_height (heights_from from left) h ≡ (leb from h && ltb h (from + left))
unfolding has_height heights_from
heights_from-has from zero h = ground arith
heights_from-has from (suc left) h = ground (arith, heights_from-has (from + 1) left h)

-- The heights of a run are those of its range, bounds included.
pub has-heights_between :
    (from to h : ℕ) → has_height (heights_between from to) h ≡ (leb from h && leb h to)
unfolding heights_between
has-heights_between from to h = ground (arith, heights_from-has from (to + 1 - from) h)
