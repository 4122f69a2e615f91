-- ===== src/Ingest/Wedge.antt =====
-- How far a run advances: the highest contiguous completed height, and what is done when the first
-- height of the range keeps failing.
pub mod Laws
pub mod GivenUp
use fast_auth_indexer_api.Prelude.{
  ℕ, zero, suc, ◌+◌, ◌-◌, Bool, true, false, ◌&&◌, Option, none, some, List, [], ◌∷◌, ◌++◌, ltb,
  leb, ◌==◌, if◌then◌else◌,
}
use fast_auth_indexer_api.NearBlock.{Failure, is_unfetchable_everywhere_error}
use fast_auth_indexer_api.Ledger.{Ledger, wedged_frontier, record_skipped_range}
use fast_auth_indexer_api.Ingest.{near_wedge_skip_after_runs, has_height}
use fast_auth_indexer_api.Ingest.Range.{heights_between}

-- `for (let h = from; h <= to; h += 1) { if (!passes(h)) break; last = h; }`, with the heights left.
unfoldable pub last_while : (ℕ → Bool) → ℕ → ℕ → ℕ → ℕ
last_while passes from zero last = last
last_while passes from (suc left) last = elim (passes from) [
  | true ↦ last_while passes (from + 1) left from
  | false ↦ last
]

-- The loop over the range of a run.
unfoldable pub last_of_range : (ℕ → Bool) → ℕ → ℕ → ℕ → ℕ
unfolding last_while
last_of_range passes start target last = last_while passes start (target + 1 - start) last

-- `heightErrors.get(h)`; the newest entry of a height stands first.
unfoldable pub error_of : List (ℕ × Failure) → ℕ → Option Failure
error_of [] h = none
error_of ((k, e) ∷ errors) h = if k == h then some e else error_of errors h

abbrev is_unfetchable : Option Failure → Bool
is_unfetchable none = false
is_unfetchable (some e) = is_unfetchable_everywhere_error e

unfoldable pub is_wedged : List ℕ → List (ℕ × Failure) → ℕ → Bool
is_wedged failed errors h = has_height failed h && is_unfetchable (error_of errors h)

-- `failedHeights.filter((h) => h > wedgeEnd)`
unfoldable pub above_only : ℕ → List ℕ → List ℕ
above_only limit [] = []
above_only limit (h ∷ hs) = let rest = above_only limit hs in if ltb limit h then h ∷ rest else rest

-- The fields of the collector that detect a wedge; `none` is its -1.
pub record Detector : Type 0 where
  pub frontier : Option ℕ
  pub stuck_runs : ℕ

-- What the walk leaves, and what the wedge step makes of it.
pub record Advance : Type 0 where
  pub detector : Detector
  pub ledger : Ledger
  pub completed_heights : List ℕ
  pub failed_heights : List ℕ
  pub highest_contiguous : ℕ

abbrev pub idle : Detector
idle = record { frontier = none; stuck_runs = 0 }

abbrev same_height : Option ℕ → ℕ → Bool
same_height none h = false
same_height (some k) h = k == h

abbrev pub is_empty : List ℕ → Bool
is_empty [] = true
is_empty (_ ∷ _) = false

-- One more run is stuck at the frontier.
unfoldable pub stuck : ℕ → Detector → Detector
stuck start d = record {
  frontier = some start;
  stuck_runs = if same_height d.frontier start then d.stuck_runs + 1 else 1;
}

-- The heights up to `wedge_end` are given up.
unfoldable pub skip_wedge : ℕ → ℕ → ℕ → ℕ → Advance → Advance
skip_wedge now start target wedge_end a =
    let completed = heights_between start wedge_end ++ a.completed_heights in
    record {
      detector = idle;
      ledger = record_skipped_range start wedge_end wedged_frontier now a.ledger;
      completed_heights = completed;
      failed_heights = above_only wedge_end a.failed_heights;
      highest_contiguous = last_of_range (has_height completed) start target a.highest_contiguous;
    }

unfoldable pub unblock : ℕ → ℕ → ℕ → List (ℕ × Failure) → Advance → Advance
unblock now start target errors a =
    let wedge_end = last_of_range (is_wedged a.failed_heights errors) start target (start - 1) in
    let counted = record a { detector = stuck start a.detector } in
    if leb start a.highest_contiguous
    then record a { detector = idle }
    else if is_empty a.failed_heights
    then a
    else if leb near_wedge_skip_after_runs counted.detector.stuck_runs && leb start wedge_end
    then skip_wedge now start target wedge_end counted
    else counted

-- The lines from the computation of `highestContiguous` to the end of the wedge handling.
unfoldable pub advance :
    ℕ → ℕ → ℕ → List (ℕ × Failure) → List ℕ → List ℕ → Detector → Ledger → Advance
advance now start target errors completed failed d ledger =
    unblock now start target errors (record {
      detector = d;
      ledger = ledger;
      completed_heights = completed;
      failed_heights = failed;
      highest_contiguous = last_of_range (has_height completed) start target (start - 1);
    })
