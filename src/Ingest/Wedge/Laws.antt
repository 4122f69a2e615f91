-- ===== src/Ingest/Wedge/Laws.antt =====
-- The loops over the range, and what a run's advance rests on.
use fast_auth_indexer_api.Prelude.{
  ℕ, zero, suc, ◌+◌, ◌-◌, ◌≤◌, ◌<◌, ◌≡◌, refl, sym, ◌⊎◌, inl, inr, Bool, true, false, ◌&&◌, ◌||◌,
  List, [], ◌∷◌, ◌++◌, arith, leb, Bool-cases,
}
use mathlib.Core.Path.{subst}
use fast_auth_indexer_api.Prelude.{dec_lt}
use fast_auth_indexer_api.NearBlock.{Failure}
use fast_auth_indexer_api.Ledger.{Ledger, ledgered, wedged_frontier}
use fast_auth_indexer_api.Ledger.Laws.{ledgered-record}
use fast_auth_indexer_api.Ingest.{has_height}
use fast_auth_indexer_api.Ingest.Range.{heights_between}
use fast_auth_indexer_api.Ingest.Range.Laws.{has-heights_between}
use fast_auth_indexer_api.Ingest.Wedge.{
  last_while, last_of_range, is_wedged, Detector, Advance, unblock, advance, skip_wedge, stuck,
  is_empty,
}

-- Every height from the start of the loop up to its result passes.
pub last_while_passes :
    (passes : ℕ → Bool) (from left last h : ℕ)
    → last < from
    → from ≤ h
    → h ≤ last_while passes from left last
    → passes h ≡ true
unfolding last_while
last_while_passes passes from zero last h lt lo hi = absurd (omega arith)
last_while_passes passes from (suc left) last h lt lo hi = elim (Bool-cases (passes from)) [
  | inr stops ↦ absurd (ground arith)
  | inl goes ↦ elim (dec_lt from h) [
    | yes later ↦
        last_while_passes passes (from + 1) left from h (omega arith) (omega arith) (ground arith)
    | no here ↦ subst (λ k. passes k ≡ true) (omega arith) goes
  ]
]

pub last_while_bounds :
    (passes : ℕ → Bool) (from left last : ℕ)
    → last < from
    → (last ≤ last_while passes from left last) × (last_while passes from left last < from + left)
unfolding last_while
last_while_bounds passes from zero last lt = omega arith
last_while_bounds passes from (suc left) last lt =
    ground (arith, last_while_bounds passes (from + 1) left from)

-- The loop goes on as far as it can.
pub last_while_stops :
    (passes : ℕ → Bool) (from left last : ℕ)
    → last + 1 ≡ from
    → last_while passes from left last + 1 < from + left
    → passes (last_while passes from left last + 1) ≡ false
unfolding last_while
last_while_stops passes from zero last lt h = absurd (omega arith)
last_while_stops passes from (suc left) last lt h = elim (Bool-cases (passes from)) [
  | inr stops ↦ rw (stops, last_while) (subst (λ k. passes k ≡ false) (sym lt) stops)
  | inl goes ↦
      rw (goes, last_while) (last_while_stops passes (from + 1) left from refl (ground arith))
]

pub has_height-append :
    (xs ys : List ℕ) (h : ℕ) → has_height (xs ++ ys) h ≡ (has_height xs h || has_height ys h)
unfolding has_height
has_height-append [] ys h = refl
has_height-append (x ∷ xs) ys h = ground (arith, has_height-append xs ys h)

-- The height was completed, or it stands in the ledger.
abbrev pub IsAccounted : List ℕ → Ledger → ℕ → Type 0
IsAccounted completed ledger h = (has_height completed h ≡ true) ⊎ (ledgered ledger h ≡ true)

of_completed :
    (completed : List ℕ) (ledger : Ledger) (start target h : ℕ)
    → 0 < start
    → start ≤ h
    → h ≤ last_of_range (has_height completed) start target (start - 1)
    → IsAccounted completed ledger h
unfolding last_of_range
of_completed completed ledger start target h pos lo hi = inl (
    last_while_passes (has_height completed) start (target + 1 - start) (start - 1) h (omega arith)
      lo hi)

module _ (now start target : ℕ) (a : Advance) (h : ℕ) where
  skip_wedge-IsAccounted :
      (wedge_end : ℕ)
      → a.highest_contiguous < start
      → start ≤ h
      → h ≤ (skip_wedge now start target wedge_end a).highest_contiguous
      → IsAccounted a.completed_heights (skip_wedge now start target wedge_end a).ledger h
  unfolding skip_wedge last_of_range
  skip_wedge-IsAccounted wedge_end lt lo hi =
      let completed = heights_between start wedge_end ++ a.completed_heights in
      let passed =
        last_while_passes (has_height completed) start (target + 1 - start) a.highest_contiguous h
          lt lo hi in
      ground (
        arith,
        passed,
        has_height-append (heights_between start wedge_end) a.completed_heights h,
        has-heights_between start wedge_end h,
        ledgered-record start wedge_end wedged_frontier now a.ledger h,
      )

module _ (now start target : ℕ) (errors : List (ℕ × Failure)) (a : Advance) where
  abbrev pub wedge_end : ℕ
  wedge_end = last_of_range (is_wedged a.failed_heights errors) start target (start - 1)

  abbrev pub counted : Advance
  counted = record a { detector = stuck start a.detector }

  -- The wedge step skips a wedge, or it leaves all but the detector as it was.
  pub unblock_cases :
      ((unblock now start target errors a).ledger ≡ a.ledger)
        × ((unblock now start target errors a).highest_contiguous ≡ a.highest_contiguous)
      ⊎ (a.highest_contiguous < start)
        × (2 ≤ (stuck start a.detector).stuck_runs)
        × (start ≤ wedge_end)
        × (unblock now start target errors a ≡ skip_wedge now start target wedge_end counted)
  unfolding unblock
  unblock_cases = elim (Bool-cases (leb start a.highest_contiguous)) [
    | inl progress ↦ rw (progress, unblock) (inl (refl, refl))
    | inr none_made ↦ elim (Bool-cases (is_empty a.failed_heights)) [
      | inl clean ↦ rw (none_made, clean, unblock) (inl (refl, refl))
      | inr holes ↦
          elim (Bool-cases (leb 2 (stuck start a.detector).stuck_runs && leb start wedge_end)) [
            | inl skips ↦
                inr
                  (ground arith, ground arith, ground arith, rw (none_made, holes, skips, unblock))
            | inr waits ↦ rw (none_made, holes, waits, unblock) (inl (refl, refl))
          ]
    ]
  ]

-- No height is lost: every height of a run's range up to the new checkpoint was completed in the
-- walk, or stands in the ledger after the run.
pub advance-IsAccounted :
    (now start target : ℕ) (errors : List (ℕ × Failure)) (completed failed : List ℕ) (d : Detector)
    (ledger : Ledger) (h : ℕ)
    → 0 < start
    → start ≤ h
    → h ≤ (advance now start target errors completed failed d ledger).highest_contiguous
    → IsAccounted completed (advance now start target errors completed failed d ledger).ledger h
unfolding advance
advance-IsAccounted now start target errors completed failed d ledger h pos lo hi =
    elim (unblock_cases now start target errors walked) [
      | inl (same_ledger, same_highest) ↦
          rw same_ledger
            (of_completed completed ledger start target h pos lo (rw same_highest at hi))
      | inr (lt, _, _, e) ↦ rw e (
          skip_wedge-IsAccounted now start target (counted now start target errors walked) h
            (wedge_end now start target errors walked) lt lo (rw e at hi))
    ]
  where
    walked : Advance
    walked = record {
      detector = d;
      ledger = ledger;
      completed_heights = completed;
      failed_heights = failed;
      highest_contiguous = last_of_range (has_height completed) start target (start - 1);
    }
