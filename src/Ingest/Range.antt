-- ===== src/Ingest/Range.antt =====
-- `computeRange`: the heights of a run, from the checkpoints and the latest final height.
pub mod Laws
use fast_auth_indexer_api.Prelude.{
  ℕ, zero, suc, ◌+◌, ◌-◌, min, max, Text, Option, none, some, List, [], ◌∷◌, number,
}
use fast_auth_indexer_api.Checkpoints.{
  Key, near_last_final_block_height, near_last_scanned_height, Checkpoints, get,
}
use fast_auth_indexer_api.Ingest.{near_max_blocks_per_run, near_backfill_start_height}

pub record Heights : Type 0 where
  pub start_height : ℕ
  pub target_height : ℕ

-- `value ?? ""`
abbrev pub or_empty : Option Text → Text
or_empty none = []
or_empty (some value) = value

-- `Number(checkpoint ?? "")`, `none` where that is not finite.
unfoldable pub parsed : Key → Checkpoints → Option ℕ
parsed key s = number (or_empty (get key s))

computed_start : Option ℕ → Option ℕ → ℕ → ℕ
computed_start (some scanned) parsed_height latest_height = scanned + 1
computed_start none (some last_height) latest_height = last_height + 1
computed_start none none latest_height = min near_backfill_start_height latest_height

unfoldable pub compute_range : Checkpoints → ℕ → Heights
unfolding computed_start parsed
compute_range s latest_height =
    let start =
      max
        (computed_start (parsed near_last_scanned_height s) (parsed near_last_final_block_height s)
          latest_height)
        near_backfill_start_height in
    record {
      start_height = start;
      target_height = min latest_height (start + near_max_blocks_per_run - 1);
    }

-- `for (let h = from; …; h += 1) heights.push(h)`, with the heights that are left.
unfoldable pub heights_from : ℕ → ℕ → List ℕ
heights_from from zero = []
heights_from from (suc left) = from ∷ heights_from (from + 1) left

-- The heights `from..to`; there are none if `to < from`.
unfoldable pub heights_between : ℕ → ℕ → List ℕ
unfolding heights_from
heights_between from to = heights_from from (to + 1 - from)
