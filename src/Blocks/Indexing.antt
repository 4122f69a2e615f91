-- ===== src/Blocks/Indexing.antt =====
-- What the work on one block of near-ingest.service.ts leaves in the tables.
use fast_auth_indexer_api.Prelude.{ℕ, ◌≡◌, true, Option, List, Text}
use fast_auth_indexer_api.Json.{Json}
use fast_auth_indexer_api.NearBlock.{Block, ChunkTransaction}
use fast_auth_indexer_api.Conversion.{Runtime}
use fast_auth_indexer_api.Ingest.{returned, Counts}
use fast_auth_indexer_api.Blocks.Rows.{ComputedTxValue}
use fast_auth_indexer_api.Blocks.Keys.{contains_all, contains_all_mono, transaction_keys, sign_keys}
use fast_auth_indexer_api.Blocks.Stored.{block_keys, classify_chunks-HasKeys}
use fast_auth_indexer_api.Blocks.Persisting.{Lasts, persist_block-Lasts, persist_block-Persisted}
use fast_auth_indexer_api.Blocks.Store.{
  Store, index_block, classified, found_in, note_inline, height_of, probe, probe_pub_keys,
  probe_accounts, block_candidates, no_candidates,
}

module _ (fault : ℕ → Option Text) (identifiers : ℕ → Option ℕ) (rt : Runtime)
    (contracts : List Text) (value : List Json → Text → ComputedTxValue) (now : ℕ) where
  abbrev pub asked : List (List ChunkTransaction) → Store → Store
  asked chunks db = probe fault identifiers (block_candidates chunks no_candidates) db

  -- The tables keep every row, whether the block is indexed or its work throws.
  pub index_block-Lasts :
      (height : ℕ) (b : Block) (chunks : List (List ChunkTransaction)) (db : Store)
      → Lasts db (index_block fault identifiers rt contracts value now height b chunks db).1
  unfolding index_block probe probe_pub_keys probe_accounts note_inline
  index_block-Lasts height b chunks db =
      let found =
        found_in fault identifiers rt contracts value now height b chunks (asked chunks db) in
      let r = persist_block-Lasts fault identifiers found (note_inline found (asked chunks db)) in
      record {
        near_transactions = r.near_transactions;
        sign_events = r.sign_events;
        user_txs = r.user_txs;
      }

  -- The transactions on the FastAuth contracts and their sign events have their rows.
  abbrev pub HasRows : List (List ChunkTransaction) → Store → Type 0
  HasRows chunks db =
      (contains_all db.near_transactions (block_keys (transaction_keys contracts) chunks) ≡ true)
      × (contains_all db.sign_events (block_keys (sign_keys contracts) chunks) ≡ true)

  pub HasRows-mono :
      (chunks : List (List ChunkTransaction)) (a b : Store)
      → Lasts a b
      → HasRows chunks a
      → HasRows chunks b
  HasRows-mono chunks a b lasts (t, s) = (
    contains_all_mono a.near_transactions b.near_transactions _ lasts.near_transactions t,
    contains_all_mono a.sign_events b.sign_events _ lasts.sign_events s,
  )

  -- Work on a block that returns has stored the row of each transaction on a FastAuth contract and of
  -- each sign call in it.
  pub index_block-HasRows :
      (height : ℕ) (b : Block) (chunks : List (List ChunkTransaction)) (db : Store) (n : Counts)
      → (index_block fault identifiers rt contracts value now height b chunks db).0 ≡ returned n
      → HasRows chunks (index_block fault identifiers rt contracts value now height b chunks db).1
  unfolding index_block found_in classified
  index_block-HasRows height b chunks db n e =
      let found =
        found_in fault identifiers rt contracts value now height b chunks (asked chunks db) in
      let stored =
        persist_block-Persisted fault identifiers found (note_inline found (asked chunks db)) n e in
      let (t, s) =
        classify_chunks-HasKeys rt contracts value now (height_of height b.height) b.timestamp _
          chunks _ in
      (
        contains_all_mono found.unique_transactions _ _ stored.near_transactions t,
        contains_all_mono found.unique_sign_events _ _ stored.sign_events s,
      )
