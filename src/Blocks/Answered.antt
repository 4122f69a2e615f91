-- ===== src/Blocks/Answered.antt =====
-- The work on a block of near-ingest.service.ts whose question about the accounts is answered.
use fast_auth_indexer_api.Prelude.{ℕ, ◌≡◌, ap, Option, none, some, List, arith, Text, has}
use fast_auth_indexer_api.Json.{Json}
use fast_auth_indexer_api.NearBlock.{Block, ChunkTransaction}
use fast_auth_indexer_api.Conversion.{Runtime}
use fast_auth_indexer_api.Blocks.Rows.{ComputedTxValue}
use fast_auth_indexer_api.Blocks.Probes.{unchecked, known_of}
use fast_auth_indexer_api.Blocks.Stored.{block_keys}
use fast_auth_indexer_api.Blocks.Accounts.{account_ids, has-block_candidates}
use fast_auth_indexer_api.Blocks.Exactness.{SameOn, SameOn-of_has, classify_chunks-same}
use fast_auth_indexer_api.Blocks.Probing.{
  Agrees, AllNormal, normalized_all-AllNormal, probed-Agrees, has-probed,
}
use fast_auth_indexer_api.Blocks.Store.{
  Store, any_of, normalized_all, answer, accounts_query, probe_pub_keys, probe_accounts, probe,
  block_candidates, no_candidates, height_of, nothing_found, classified, found_in, index_block,
  note_inline, persist_block,
}
use fast_auth_indexer_api.Blocks.{classify_chunks}

module _ (fault : ℕ → Option Text) (identifiers : ℕ → Option ℕ) where
  -- The number of the statement that asks for the accounts of a block.
  abbrev pub accounts_statement : List (List ChunkTransaction) → Store → ℕ
  accounts_statement chunks db =
      (probe_pub_keys fault identifiers (block_candidates chunks no_candidates).pub_keys
        db).statements

  answer-accounts :
      (k : ℕ) (table unknown : List Text)
      → fault k ≡ none
      → AllNormal table
      → answer fault identifiers k (normalized_all (any_of table unknown))
        ≡ some (any_of table unknown)
  unfolding answer
  answer-accounts k table unknown sound normal =
      rw (sound, answer) (ap some (normalized_all-AllNormal table unknown normal))

  -- A block's question for its accounts that is answered leaves a cache that agrees with the table.
  pub probe-Agrees :
      (chunks : List (List ChunkTransaction)) (db : Store)
      → fault (accounts_statement chunks db) ≡ none
      → AllNormal db.public_key_accounts
      → Agrees db.public_key_accounts db.account_checked
      → Agrees db.public_key_accounts
          (probe fault identifiers (block_candidates chunks no_candidates) db).account_checked
  unfolding probe probe_accounts probe_pub_keys
  probe-Agrees chunks db sound normal agrees =
      probed-Agrees db.public_key_accounts (block_candidates chunks no_candidates).accounts _
        db.account_checked (answer-accounts _ db.public_key_accounts _ sound normal) agrees

  probe-SameOn :
      (chunks : List (List ChunkTransaction)) (db : Store)
      → fault (accounts_statement chunks db) ≡ none
      → AllNormal db.public_key_accounts
      → Agrees db.public_key_accounts db.account_checked
      → let c = block_candidates chunks no_candidates in
        SameOn
          (block_keys account_ids chunks)
          (known_of (probe fault identifiers c db).account_checked c.accounts)
          db.public_key_accounts
  unfolding probe probe_accounts probe_pub_keys has
  probe-SameOn chunks db sound normal agrees =
      let c = block_candidates chunks no_candidates in
      SameOn-of_has (block_keys account_ids chunks) _ db.public_key_accounts λ id m. ground (
        arith,
        has-probed db.public_key_accounts c.accounts
            (accounts_query fault identifiers (accounts_statement chunks db) db.public_key_accounts)
            db.account_checked id
            (answer-accounts (accounts_statement chunks db) db.public_key_accounts
              (unchecked db.account_checked c.accounts) sound normal)
            agrees,
        has-block_candidates chunks no_candidates id,
        m,
      )

  module _ (rt : Runtime) (contracts : List Text) (value : List Json → Text → ComputedTxValue)
      (now : ℕ) where
    -- When the query for the accounts is answered, from a cache that agrees with the table of
    -- normalized accounts, then the block is classified as with the whole table, and the cache agrees
    -- with the table after it.
    pub index_block-IsExact :
        (height : ℕ) (b : Block) (chunks : List (List ChunkTransaction)) (db : Store)
        → fault (accounts_statement chunks db) ≡ none
        → AllNormal db.public_key_accounts
        → Agrees db.public_key_accounts db.account_checked
        → let c = block_candidates chunks no_candidates in
          let asked = probe fault identifiers c db in
          (found_in fault identifiers rt contracts value now height b chunks asked
            ≡ classify_chunks rt contracts value now
                (height_of height b.height)
                b.timestamp
                db.public_key_accounts
                chunks
                (nothing_found fault identifiers rt contracts value now c asked))
          × Agrees db.public_key_accounts
              (index_block fault identifiers rt contracts value now height b chunks
                db).1.account_checked
    unfolding found_in classified index_block persist_block note_inline
    index_block-IsExact height b chunks db sound normal agrees = (
      classify_chunks-same rt contracts value now (height_of height b.height) b.timestamp chunks _ _
          db.public_key_accounts (probe-SameOn chunks db sound normal agrees),
      probe-Agrees chunks db sound normal agrees,
    )
