-- ===== src/BlockTime.antt =====
-- `Math.round((hours * 3600) / 0.61)`, which near-ingest.service.ts and skip-forward.service.ts both
-- compute: the blocks that the chain makes in some hours, rounded to the nearest, half upwards.
use fast_auth_indexer_api.Prelude.{ℕ, ◌+◌, ◌*◌, ◌/◌, ◌≡◌, refl}

-- A quotient n / 61 is rounded as ⌊(2n + 61) / 122⌋.
unfoldable pub lag_blocks : ℕ → ℕ
lag_blocks hours = (2 * (hours * 3600 * 100) + 61) / 122

pub lag_blocks_12 : lag_blocks 12 ≡ 70820
unfolding lag_blocks
lag_blocks_12 = refl

pub lag_blocks_30 : lag_blocks 30 ≡ 177049
unfolding lag_blocks
lag_blocks_30 = refl
