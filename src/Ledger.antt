-- ===== src/Ledger.antt =====
-- The table `missing_block_ranges` (src/database/entities/MissingBlockRange.ts): the heights that
-- were given up, for a later backfill. Heights are stored as decimal texts, here as the numbers.
pub mod Laws
use fast_auth_indexer_api.Prelude.{
  ℕ, Bool, true, false, ◌&&◌, ◌||◌, ◌==◌, leb, if◌then◌else◌, List, [], ◌∷◌, ◌++◌, Option, none,
  some,
}

-- The three texts that are written as the reason of a range, with the number that each mentions.
pub data Reason : Type 0 where
  wedged_frontier : Reason
  force_reset skip_forward : ℕ → Reason
  seeded : Reason

pub data Status : Type 0 where
  opened closed : Status

pub record Range : Type 0 where
  pub start_height : ℕ
  pub end_height : ℕ
  pub reason : Reason
  pub status : Status
  pub recorded_at : ℕ

abbrev pub Ledger : Type 0
Ledger = List Range

-- `findOne({ where: { startHeight, endHeight } })`
unfoldable pub find : ℕ → ℕ → Ledger → Option Range
find s e [] = none
find s e (r ∷ ranges) = if r.start_height == s && r.end_height == e then some r else find s e ranges

unfoldable pub insert : Range → Ledger → Ledger
insert r ranges = ranges ++ r ∷ []

abbrev is_some : Option Range → Bool
is_some none = false
is_some (some r) = true

-- `recordSkippedRange`
unfoldable pub record_skipped_range : ℕ → ℕ → Reason → ℕ → Ledger → Ledger
unfolding find insert
record_skipped_range s e reason now ranges =
    if is_some (find s e ranges)
    then ranges
    else insert
        (record {
          start_height = s;
          end_height = e;
          reason = reason;
          status = opened;
          recorded_at = now;
        })
        ranges

-- Some range of the ledger holds the height.
unfoldable pub ledgered : Ledger → ℕ → Bool
ledgered [] h = false
ledgered (r ∷ ranges) h = (leb r.start_height h && leb h r.end_height) || ledgered ranges h
