-- ===== src/Ingest/Run/History.antt =====
-- Runs of near-ingest.service.ts one after another, and the heights behind the checkpoint.
use fast_auth_indexer_api.Prelude.{
  ℕ, ◌+◌, ◌-◌, ◌≡◌, refl, sym, ap, ◌∙◌, inl, inr, Option, none, some, List, [], ◌∷◌, ◌++◌, arith,
  Bool-cases, Text,
}
use fast_auth_indexer_api.Checkpoints.{near_last_scanned_height, get, set_many}
use fast_auth_indexer_api.NearBlock.{Block, non_empty}
use fast_auth_indexer_api.Ingest.{
  near_backfill_start_height, Try, returned, threw, Indexer, non_zero,
}
use fast_auth_indexer_api.Ingest.Range.{Heights, compute_range}
use fast_auth_indexer_api.Ingest.Run.{
  Collector, Visit, is_reset_due, head_writes, write_head, settle, walked, advanced,
  walk_and_settle, run_range, run_final, run_latest, run_once,
}
use fast_auth_indexer_api.Ingest.Run.Coverage.{
  Covers, start_of_run, scanned-head_writes, finish_marts-checkpoints, range_completed,
  final_completed, latest_completed, run_completed, reset-Covers, settle-IsCovered,
}

module _ (ix : Indexer) where
  open ix use {Db, Chunk}

  module _ (origin : ℕ) (done : List ℕ) where
    walk_and_settle-Covers :
        (v : Visit Db Chunk) (latest_height : ℕ) (latest : Block) (r : Heights) (c : Collector Db)
        (k : Covers ix origin done c)
        → r.start_height ≡ k.scanned + 1
        → Covers ix origin
            ((walked ix v latest_height latest r c.db).1.completed_heights ++ done)
            (walk_and_settle ix v latest_height latest r c).1
    unfolding walk_and_settle settle
    walk_and_settle-Covers v latest_height latest r c k e =
        let w = (walked ix v latest_height latest r c.db).1 in
        let settled = settle ix r.start_height w (advanced ix v latest_height latest r c) c in
        let (same_checkpoints, same_ledger) = finish_marts-checkpoints ix v w.stats settled in
        rw (same_checkpoints, same_ledger)
          (settle-IsCovered ix origin done v latest_height latest r c k e)

    write_head-Covers :
        (latest_height : ℕ) (latest_hash : Text) (start : ℕ) (c : Collector Db)
        (k : Covers ix origin done c)
        → (k' : Covers ix origin done (write_head ix latest_height latest_hash start c))
          × (k'.scanned ≡ k.scanned)
    unfolding write_head
    write_head-Covers latest_height latest_hash start c k =
        (record { scanned = k.scanned; stored = rw same k.stored; accounted = k.accounted }, refl)
      where
        same :
            get near_last_scanned_height (
              set_many
                (head_writes c.backfill_origin_observed c.checkpoints latest_height latest_hash
                  start)
                c.checkpoints)
            ≡ get near_last_scanned_height c.checkpoints
        same =
            scanned-head_writes c.backfill_origin_observed c.checkpoints latest_height latest_hash
              start

    run_range-Covers :
        (v : Visit Db Chunk) (latest : Block) (latest_height : ℕ) (latest_hash : Text) (r : Heights)
        (c : Collector Db) (k : Covers ix origin done c)
        → r.start_height ≡ k.scanned + 1
        → Covers ix origin
            (range_completed ix v latest latest_height latest_hash r c ++ done)
            (run_range ix v latest latest_height latest_hash r c).1
    unfolding run_range range_completed
    run_range-Covers v latest latest_height latest_hash r c k e =
        elim (Bool-cases (is_reset_due latest_height r.start_height)) [
          | inl due ↦ rw due (
              reset-Covers ix origin done latest_height latest_hash r.start_height v.ledger_time c k
                e due)
          | inr not_due ↦
              let (k', same) = write_head-Covers latest_height latest_hash r.start_height c k in
              rw not_due (
                walk_and_settle-Covers v latest_height latest r _ k'
                  (e ∙ ap (λ n. n + 1) (sym same)))
        ]

    run_final-Covers :
        (v : Visit Db Chunk) (latest : Block) (latest_height : Option ℕ) (latest_hash : Option Text)
        (c : Collector Db)
        → Covers ix origin done c
        → Covers ix origin
            (final_completed ix v latest latest_height latest_hash c ++ done)
            (run_final ix v latest latest_height latest_hash c).1
    unfolding run_final final_completed
    run_final-Covers v latest none latest_hash c k = k
    run_final-Covers v latest (some h) none c k = k
    run_final-Covers v latest (some h) (some hash) c k =
        run_range-Covers v latest h hash (compute_range c.checkpoints h) c k
          (start_of_run c.checkpoints h k.scanned k.stored)

    run_latest-Covers :
        (v : Visit Db Chunk) (final : Try Block) (c : Collector Db)
        → Covers ix origin done c
        → Covers ix origin (latest_completed ix v final c ++ done) (run_latest ix v final c).1
    unfolding run_latest latest_completed
    run_latest-Covers v (threw e) c k = k
    run_latest-Covers v (returned latest) c k =
        run_final-Covers v latest (non_zero latest.height) (non_empty latest.hash) c k

    -- One run, whatever the network answers: every height from `origin` up to the scanned checkpoint
    -- was completed by this run or an earlier one, or stands in the ledger of missing ranges.
    pub run_once-Covers :
        (ids : List Text) (v : Visit Db Chunk) (c : Collector Db)
        → Covers ix origin done c
        → Covers ix origin (run_completed ix ids v c ++ done) (run_once ix ids v c).1
    unfolding run_once run_completed
    run_once-Covers [] v c k = k
    run_once-Covers (id ∷ ids) v c k = run_latest-Covers v v.final_block c k

  -- Run after run.
  pub runs : List Text → List (Visit Db Chunk) → Collector Db → Collector Db
  runs ids [] c = c
  runs ids (v ∷ visits) c = runs ids visits (run_once ix ids v c).1

  pub runs_completed : List Text → List (Visit Db Chunk) → Collector Db → List ℕ → List ℕ
  runs_completed ids [] c done = done
  runs_completed ids (v ∷ visits) c done =
      runs_completed ids visits (run_once ix ids v c).1 (run_completed ix ids v c ++ done)

  runs-Covers :
      (origin : ℕ) (ids : List Text) (visits : List (Visit Db Chunk)) (c : Collector Db)
      (done : List ℕ)
      → Covers ix origin done c
      → Covers ix origin (runs_completed ids visits c done) (runs ids visits c)
  unfolding runs runs_completed
  runs-Covers origin ids [] c done k = k
  runs-Covers origin ids (v ∷ visits) c done k =
      runs-Covers origin ids visits (run_once ix ids v c).1 (run_completed ix ids v c ++ done)
        (run_once-Covers origin done ids v c k)

  -- From a collector that has scanned nothing, over any sequence of runs: every height from the
  -- backfill start up to the scanned checkpoint was completed by one of the runs, or stands in the
  -- ledger.
  pub runs_cover :
      (ids : List Text) (visits : List (Visit Db Chunk)) (c : Collector Db)
      → get near_last_scanned_height c.checkpoints ≡ none
      → Covers ix near_backfill_start_height (runs_completed ids visits c []) (runs ids visits c)
  runs_cover ids visits c fresh = runs-Covers near_backfill_start_height ids visits c [] (record {
    scanned = near_backfill_start_height - 1;
    stored = inr (fresh, omega arith);
    accounted = λ h lo hi. absurd (omega arith);
  })
