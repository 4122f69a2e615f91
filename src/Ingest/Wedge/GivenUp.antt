-- ===== src/Ingest/Wedge/GivenUp.antt =====
-- Which heights are given up, and how far the checkpoint goes.
use fast_auth_indexer_api.Prelude.{
  ℕ, ◌+◌, ◌-◌, ◌≤◌, ◌<◌, ◌≡◌, ap, inl, inr, Bool, true, false, ◌&&◌, some, List, ◌++◌, arith, leb,
}
use fast_auth_indexer_api.NearBlock.{Failure}
use fast_auth_indexer_api.Ledger.{Ledger, ledgered, wedged_frontier}
use fast_auth_indexer_api.Ledger.Laws.{ledgered-record}
use fast_auth_indexer_api.Ingest.{has_height}
use fast_auth_indexer_api.Ingest.Range.{heights_between}
use fast_auth_indexer_api.Ingest.Wedge.{
  last_of_range, is_wedged, Detector, Advance, unblock, advance, skip_wedge, stuck,
}
use fast_auth_indexer_api.Ingest.Wedge.Laws.{
  last_while_passes, last_while_bounds, unblock_cases, wedge_end, counted,
}

stuck-twice :
    (start : ℕ) (d : Detector)
    → 2 ≤ (stuck start d).stuck_runs
    → (d.frontier ≡ some start) × (1 ≤ d.stuck_runs)
unfolding stuck
stuck-twice start d h = ground arith

abbrev walked : ℕ → ℕ → List ℕ → List ℕ → Detector → Ledger → Advance
walked start target completed failed d ledger = record {
  detector = d;
  ledger = ledger;
  completed_heights = completed;
  failed_heights = failed;
  highest_contiguous = last_of_range (has_height completed) start target (start - 1);
}

module _ (now start target : ℕ) (errors : List (ℕ × Failure)) (completed failed : List ℕ)
    (d : Detector) (ledger : Ledger) where
  abbrev end : ℕ
  end = last_of_range (is_wedged failed errors) start target (start - 1)

  -- A height that a run adds to the ledger failed in the walk to the last round, its error says that
  -- every endpoint but at most one reports the block or chunk unknown, and the run before was stuck
  -- at the same first height.
  pub advance-gives_up :
      (h : ℕ)
      → 0 < start
      → ledgered ledger h ≡ false
      → ledgered (advance now start target errors completed failed d ledger).ledger h ≡ true
      → (is_wedged failed errors h ≡ true) × (d.frontier ≡ some start) × (1 ≤ d.stuck_runs)
  unfolding advance skip_wedge last_of_range
  advance-gives_up h pos before after =
      elim (unblock_cases now start target errors (walked start target completed failed d ledger)) [
        | inl (same, _) ↦ ground (arith, ap (λ l. ledgered l h) same)
        | inr (_, twice, _, e) ↦
            let (at_start, once) = stuck-twice start d twice in
            (
              last_while_passes (is_wedged failed errors) start (target + 1 - start) (start - 1) h
                  (omega arith) (ground (arith, added e)) (ground (arith, added e)),
              at_start,
              once,
            )
      ]
    where
      added :
          unblock now start target errors (walked start target completed failed d ledger)
            ≡ skip_wedge now start target end
                (counted now start target errors (walked start target completed failed d ledger))
          → (leb start h && leb h end) ≡ true
      added e = ground (
        arith,
        ap (λ a. ledgered a.ledger h) e,
        ledgered-record start end wedged_frontier now ledger h,
      )

  -- A run removes nothing from the ledger.
  pub advance-keeps_ledger :
      (h : ℕ)
      → ledgered ledger h ≡ true
      → ledgered (advance now start target errors completed failed d ledger).ledger h ≡ true
  unfolding advance skip_wedge
  advance-keeps_ledger h before =
      elim (unblock_cases now start target errors (walked start target completed failed d ledger)) [
        | inl (same, _) ↦ ground (arith, ap (λ l. ledgered l h) same)
        | inr (_, _, _, e) ↦ ground (
          arith,
          ap (λ a. ledgered a.ledger h) e,
          ledgered-record start end wedged_frontier now ledger h,
        )
      ]

  walk_bounds :
      (passes : ℕ → Bool) (last : ℕ)
      → last < start
      → start ≤ last + 1
      → (start ≤ last_of_range passes start target last + 1)
        × (last_of_range passes start target last < start + (target + 1 - start))
  unfolding last_of_range
  walk_bounds passes last lt le =
      omega (arith, last_while_bounds passes start (target + 1 - start) last lt)

  skipped_bounds :
      (a : Advance) (k : ℕ)
      → start ≤ target + 1
      → a.highest_contiguous < start
      → start ≤ a.highest_contiguous + 1
      → (start ≤ (skip_wedge now start target k a).highest_contiguous + 1)
        × ((skip_wedge now start target k a).highest_contiguous ≤ target)
  unfolding skip_wedge
  skipped_bounds a k fits lt le = omega (
    arith,
    walk_bounds (has_height (heights_between start k ++ a.completed_heights)) a.highest_contiguous
        lt le,
  )

  -- The new checkpoint is a height of the range, or the one right before it.
  advance_bounds :
      0 < start
      → start ≤ target + 1
      → let a = advance now start target errors completed failed d ledger in
        (start ≤ a.highest_contiguous + 1) × (a.highest_contiguous ≤ target)
  unfolding advance
  advance_bounds pos le =
      let first = walk_bounds (has_height completed) (start - 1) (omega arith) (omega arith) in
      elim (unblock_cases now start target errors (walked start target completed failed d ledger)) [
        | inl (_, same) ↦ rw same (omega (arith, first))
        | inr (lt, _, _, e) ↦ rw e (
            skipped_bounds
              (counted now start target errors (walked start target completed failed d ledger))
              (wedge_end now start target errors (walked start target completed failed d ledger)) le
              lt (omega (arith, first)))
      ]
