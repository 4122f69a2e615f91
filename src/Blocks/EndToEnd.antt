-- ===== src/Blocks/EndToEnd.antt =====
-- The walk of near-ingest.service.ts over the chain, with the tables that it fills.
use fast_auth_indexer_api.Prelude.{ℕ, ◌≡◌, true, Option, List, [], Text}
use fast_auth_indexer_api.Json.{Json}
use fast_auth_indexer_api.NearBlock.{Block, ChunkTransaction}
use fast_auth_indexer_api.Conversion.{Runtime}
use fast_auth_indexer_api.Ingest.{Indexer, Node, Walk, has_height, walk_heights}
use fast_auth_indexer_api.Ingest.Lasting.{Promise, IsKept, walk_heights-IsKept}
use fast_auth_indexer_api.Blocks.Rows.{ComputedTxValue}
use fast_auth_indexer_api.Blocks.Store.{Store, collector}
use fast_auth_indexer_api.Blocks.Indexing.{
  HasRows, HasRows-mono, index_block-Lasts, index_block-HasRows,
}

module _ (fault : ℕ → Option Text) (identifiers : ℕ → Option ℕ) (rt : Runtime)
    (contracts : List Text) (value : List Json → Text → ComputedTxValue) (now : ℕ) where
  abbrev pub collector_indexer : Indexer
  collector_indexer = collector fault identifiers rt contracts value now

  -- The rows of the FastAuth contracts are promised.
  abbrev pub rows_promised : Promise collector_indexer
  rows_promised = record {
    Holds = HasRows fault identifiers rt contracts value now;
    gives = index_block-HasRows fault identifiers rt contracts value now;
    keeps = λ h b chunks earlier db rows.
        HasRows-mono fault identifiers rt contracts value now earlier db _
          (index_block-Lasts fault identifiers rt contracts value now h b chunks db) rows;
  }

  -- When a walk that starts with no completed height has completed a height, then that height was
  -- reported missing by the rule for skipped heights, or its block and its wanted chunks were
  -- fetched, and at the end of the walk the tables have the row of each transaction of those chunks
  -- on a FastAuth contract and of each sign call in it. This holds whichever statements of the
  -- database have thrown.
  pub walk_heights-stores :
      (node : Node (List ChunkTransaction)) (latest_height : ℕ) (latest : Block) (heights : List ℕ)
      (w : Walk Store) (k : ℕ)
      → w.completed_heights ≡ []
      → has_height
          (walk_heights collector_indexer node latest_height latest heights w).1.completed_heights
          k
        ≡ true
      → IsKept collector_indexer rows_promised node latest_height latest k
          (walk_heights collector_indexer node latest_height latest heights w).1.db
  walk_heights-stores node latest_height latest heights w k fresh m =
      walk_heights-IsKept collector_indexer rows_promised node latest_height latest heights w k
        fresh m
