-- ===== src/Ingest/Run/Coverage.antt =====
-- What one run of near-ingest.service.ts does to the heights between the old checkpoint and the new one.
use fast_auth_indexer_api.Prelude.{
  ℕ, ◌+◌, ◌-◌, ◌≤◌, ◌<◌, ◌≡◌, sym, ◌∙◌, ◌⊎◌, inl, inr, Bool, true, ◌&&◌, ◌||◌, Option, none, some,
  List, [], ◌∷◌, ◌++◌, arith, leb, if◌then◌else◌, Bool-cases, Text, print,
}
use fast_auth_indexer_api.Prelude.{dec_lt}
use fast_auth_indexer_api.BlockTime.{lag_blocks}
use fast_auth_indexer_api.Checkpoints.{near_last_scanned_height, Checkpoints, get, set_many}
use fast_auth_indexer_api.Checkpoints.Laws.{get-set_many}
use fast_auth_indexer_api.Ledger.{Ledger, ledgered, force_reset, record_skipped_range}
use fast_auth_indexer_api.Ledger.Laws.{ledgered-record}
use fast_auth_indexer_api.NearBlock.{Block, non_empty}
use fast_auth_indexer_api.Ingest.{
  near_backfill_start_height, Try, returned, threw, Indexer, Stats, Walk, non_zero,
}
use fast_auth_indexer_api.Ingest.Range.{Heights, compute_range}
use fast_auth_indexer_api.Ingest.Range.Laws.{compute_range-resumes, compute_range-ignores_height}
use fast_auth_indexer_api.Ingest.Wedge.{Advance}
use fast_auth_indexer_api.Ingest.Wedge.Laws.{IsAccounted, advance-IsAccounted, has_height-append}
use fast_auth_indexer_api.Ingest.Wedge.GivenUp.{advance-keeps_ledger}
use fast_auth_indexer_api.Ingest.Run.{
  Collector, Visit, is_reset_due, reset_entries, head_writes, run_writes, reset, write_head,
  finish_marts, settle, walked, advanced,
}

-- The heights are scanned up to `scanned`: the checkpoint says so, or there is none yet and the
-- backfill starts behind it.
abbrev pub IsScanned : Checkpoints → ℕ → Type 0
IsScanned s scanned =
    ((get near_last_scanned_height s ≡ some (print scanned))
      × (near_backfill_start_height ≤ scanned + 1))
    ⊎ ((get near_last_scanned_height s ≡ none) × (scanned + 1 ≡ near_backfill_start_height))

pub start_of_run :
    (s : Checkpoints) (latest scanned : ℕ)
    → IsScanned s scanned
    → (compute_range s latest).start_height ≡ scanned + 1
start_of_run s latest scanned (inl (stored, le)) = compute_range-resumes s latest scanned stored le
start_of_run s latest scanned (inr (missing, first)) =
    compute_range-ignores_height s latest missing ∙ sym first

pub scanned-head_writes :
    (observed : Bool) (s : Checkpoints) (latest : ℕ) (hash : Text) (start : ℕ)
    → get near_last_scanned_height (set_many (head_writes observed s latest hash start) s)
      ≡ get near_last_scanned_height s
unfolding head_writes
scanned-head_writes observed s latest hash start =
    rw (get-set_many near_last_scanned_height) (ground arith)

scanned-run_writes :
    (target : ℕ) (stats : Stats) (s : Checkpoints)
    → get near_last_scanned_height (set_many (run_writes target stats) s) ≡ some (print target)
unfolding run_writes
scanned-run_writes target stats s = rw (get-set_many near_last_scanned_height) (ground arith)

scanned-reset_entries :
    (latest : ℕ) (hash : Text) (s : Checkpoints)
    → get near_last_scanned_height (set_many (reset_entries latest hash) s)
      ≡ some (print (latest - lag_blocks 12 - 1))
unfolding reset_entries
scanned-reset_entries latest hash s = rw (get-set_many near_last_scanned_height) (ground arith)

-- The lines from `origin` up to the scanned height are all accounted for.
pub record IsCovered (origin : ℕ) (done : List ℕ) (s : Checkpoints) (ledger : Ledger) : Type 0 where
  pub scanned : ℕ
  pub stored : IsScanned s scanned
  pub accounted : (h : ℕ) → origin ≤ h → h ≤ scanned → IsAccounted done ledger h

above_backfill :
    (s : Checkpoints) (scanned : ℕ) → IsScanned s scanned → near_backfill_start_height ≤ scanned + 1
above_backfill s scanned (inl (_, le)) = le
above_backfill s scanned (inr (_, first)) = omega arith

module _ (ix : Indexer) where
  open ix use {Db, Chunk}

  pub finish_marts-checkpoints :
      (v : Visit Db Chunk) (stats : Stats) (c : Collector Db)
      → ((finish_marts ix v stats c).1.checkpoints ≡ c.checkpoints)
        × ((finish_marts ix v stats c).1.ledger ≡ c.ledger)
  unfolding finish_marts
  finish_marts-checkpoints v stats c = ground arith

  -- The heights that a run completes in its walk.
  unfoldable pub range_completed :
      Visit Db Chunk → Block → ℕ → Text → Heights → Collector Db → List ℕ
  range_completed v latest latest_height latest_hash r c =
      if is_reset_due latest_height r.start_height
      then []
      else (walked ix v latest_height latest r
          (write_head ix latest_height latest_hash r.start_height c).db).1.completed_heights

  unfoldable pub final_completed :
      Visit Db Chunk → Block → Option ℕ → Option Text → Collector Db → List ℕ
  final_completed v latest (some latest_height) (some latest_hash) c =
      range_completed v latest latest_height latest_hash (compute_range c.checkpoints latest_height)
        c
  final_completed v latest _ _ c = []

  unfoldable pub latest_completed : Visit Db Chunk → Try Block → Collector Db → List ℕ
  latest_completed v (threw e) c = []
  latest_completed v (returned latest) c =
      final_completed v latest (non_zero latest.height) (non_empty latest.hash) c

  unfoldable pub run_completed : List Text → Visit Db Chunk → Collector Db → List ℕ
  run_completed [] v c = []
  run_completed (id ∷ ids) v c = latest_completed v v.final_block c

  abbrev pub Covers : ℕ → List ℕ → Collector Db → Type 0
  Covers origin done c = IsCovered origin done c.checkpoints c.ledger

  module _ (origin : ℕ) (done : List ℕ) where
    IsAccounted-grow :
        (more : List ℕ) (old new : Ledger) (h : ℕ)
        → ((ledgered old h ≡ true) → (ledgered new h ≡ true))
        → IsAccounted done old h
        → IsAccounted (more ++ done) new h
    IsAccounted-grow more old new h keeps (inl d) =
        inl (ground (arith, has_height-append more done h))
    IsAccounted-grow more old new h keeps (inr l) = inr (keeps l)

    pub reset-Covers :
        (latest_height : ℕ) (latest_hash : Text) (start now : ℕ) (c : Collector Db)
        (k : Covers origin done c)
        → start ≡ k.scanned + 1
        → is_reset_due latest_height start ≡ true
        → Covers origin done (reset ix now start latest_height latest_hash c)
    unfolding reset is_reset_due
    reset-Covers latest_height latest_hash start now c k e due = record {
      scanned = latest_height - lag_blocks 12 - 1;
      stored = inl (
        scanned-reset_entries latest_height latest_hash c.checkpoints,
        ground (arith, above_backfill c.checkpoints k.scanned k.stored),
      );
      accounted = λ h lo hi. elim (dec_lt k.scanned h) [
        | no old ↦
            IsAccounted-grow [] c.ledger _ h (λ l. ground (arith, in_ledger h, l))
              (k.accounted h lo (omega arith))
        | yes new ↦ inr (ground (arith, in_ledger h))
      ];
    }
      where
        in_ledger :
            (h : ℕ)
            → ledgered
                (record_skipped_range start
                  (latest_height - lag_blocks 12 - 1)
                  (force_reset (latest_height - (start - 1)))
                  now
                  c.ledger)
                h
              ≡ (ledgered c.ledger h || (leb start h && leb h (latest_height - lag_blocks 12 - 1)))
        in_ledger h = ledgered-record start _ _ now c.ledger h

    module _ (v : Visit Db Chunk) (latest_height : ℕ) (latest : Block) (r : Heights)
        (c : Collector Db) where
      abbrev walk : List ℕ × Walk Db
      walk = walked ix v latest_height latest r c.db

      abbrev result : Advance
      result = advanced ix v latest_height latest r c

      keeps : (h : ℕ) → ledgered c.ledger h ≡ true → ledgered result.ledger h ≡ true
      unfolding advanced
      keeps h =
          advance-keeps_ledger v.ledger_time r.start_height r.target_height walk.1.height_errors
            walk.1.completed_heights walk.0 c.detector c.ledger h

      accounts :
          (h : ℕ)
          → 0 < r.start_height
          → r.start_height ≤ h
          → h ≤ result.highest_contiguous
          → IsAccounted walk.1.completed_heights result.ledger h
      unfolding advanced
      accounts h =
          advance-IsAccounted v.ledger_time r.start_height r.target_height walk.1.height_errors
            walk.1.completed_heights walk.0 c.detector c.ledger h

      pub settle-IsCovered :
          (k : Covers origin done c)
          → r.start_height ≡ k.scanned + 1
          → IsCovered origin
              (walk.1.completed_heights ++ done)
              (settle ix r.start_height walk.1 result c).checkpoints
              result.ledger
      unfolding settle
      settle-IsCovered k e = elim (Bool-cases (leb r.start_height result.highest_contiguous)) [
        | inr stays ↦ rw stays (record {
          scanned = k.scanned;
          stored = k.stored;
          accounted = λ h lo hi.
              IsAccounted-grow walk.1.completed_heights c.ledger result.ledger h (keeps h)
                (k.accounted h lo hi);
        })
        | inl moves ↦ rw moves (record {
          scanned = result.highest_contiguous;
          stored = inl (
            scanned-run_writes result.highest_contiguous walk.1.stats c.checkpoints,
            ground (arith, above_backfill c.checkpoints k.scanned k.stored),
          );
          accounted = λ h lo hi. elim (dec_lt k.scanned h) [
            | no old ↦
                IsAccounted-grow walk.1.completed_heights c.ledger result.ledger h (keeps h)
                  (k.accounted h lo (omega arith))
            | yes new ↦ accounted_now h (accounts h (omega arith) (omega arith) hi)
          ];
        })
      ]
        where
          accounted_now :
              (h : ℕ)
              → IsAccounted walk.1.completed_heights result.ledger h
              → IsAccounted (walk.1.completed_heights ++ done) result.ledger h
          accounted_now h (inl d) =
              inl (ground (arith, has_height-append walk.1.completed_heights done h))
          accounted_now h (inr l) = inr l
