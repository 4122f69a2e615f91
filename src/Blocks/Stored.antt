-- ===== src/Blocks/Stored.antt =====
-- The rows of a block that near-ingest.service.ts has indexed, in the tables.
use fast_auth_indexer_api.Prelude.{ℕ, ◌≡◌, refl, true, Option, List, [], ◌∷◌, ◌++◌, Text}
use fast_auth_indexer_api.Json.{Json}
use fast_auth_indexer_api.NearBlock.{ChunkTransaction}
use fast_auth_indexer_api.Conversion.{Runtime}
use fast_auth_indexer_api.Blocks.Rows.{ComputedTxValue, Found}
use fast_auth_indexer_api.Blocks.Keys.{
  contains_all, contains_all-grown, transaction_keys, sign_keys,
}
use fast_auth_indexer_api.Blocks.Laws.{
  classify_transaction-IsGathered, classify_transactions-Grows, classify_chunks-Grows,
}
use fast_auth_indexer_api.Blocks.{classify_transaction, classify_transactions, classify_chunks}

-- The keys of all transactions.
unfoldable pub keys_of : (ChunkTransaction → List Text) → List ChunkTransaction → List Text
keys_of keys [] = []
keys_of keys (tx ∷ txs) = keys tx ++ keys_of keys txs

unfoldable pub block_keys :
    (ChunkTransaction → List Text) → List (List ChunkTransaction) → List Text
unfolding keys_of
block_keys keys [] = []
block_keys keys (txs ∷ chunks) = keys_of keys txs ++ block_keys keys chunks

module _ (rt : Runtime) (contracts : List Text) (value : List Json → Text → ComputedTxValue)
    (now : ℕ) where
  module _ (height : ℕ) (at : Option ℕ) (accounts : List Text) where
    -- The rows of a list of keys are in the maps.
    abbrev pub HasKeys : List Text → List Text → Found → Type 0
    HasKeys transactions events f =
        (contains_all f.unique_transactions transactions ≡ true)
        × (contains_all f.unique_sign_events events ≡ true)

    classify_transactions-HasKeys :
        (txs : List ChunkTransaction) (f : Found)
        → HasKeys
            (keys_of (transaction_keys contracts) txs)
            (keys_of (sign_keys contracts) txs)
            (classify_transactions rt contracts value now height at accounts txs f)
    unfolding classify_transactions keys_of contains_all
    classify_transactions-HasKeys [] f = (refl, refl)
    classify_transactions-HasKeys (tx ∷ txs) f =
        let g = classify_transaction rt contracts value now height at accounts tx f in
        let last = classify_transactions rt contracts value now height at accounts txs g in
        let grows = classify_transactions-Grows rt contracts value now height at accounts txs g in
        let (t, s) =
          classify_transaction-IsGathered rt contracts value now height at accounts tx f in
        let (ts, ss) = classify_transactions-HasKeys txs g in
        (
          contains_all-grown g.unique_transactions last.unique_transactions
              (transaction_keys contracts tx) _ grows.transactions t ts,
          contains_all-grown g.unique_sign_events last.unique_sign_events (sign_keys contracts tx) _
              grows.sign_events s ss,
        )

    pub classify_chunks-HasKeys :
        (chunks : List (List ChunkTransaction)) (f : Found)
        → HasKeys
            (block_keys (transaction_keys contracts) chunks)
            (block_keys (sign_keys contracts) chunks)
            (classify_chunks rt contracts value now height at accounts chunks f)
    unfolding classify_chunks block_keys contains_all
    classify_chunks-HasKeys [] f = (refl, refl)
    classify_chunks-HasKeys (txs ∷ chunks) f =
        let g = classify_transactions rt contracts value now height at accounts txs f in
        let last = classify_chunks rt contracts value now height at accounts chunks g in
        let grows = classify_chunks-Grows rt contracts value now height at accounts chunks g in
        let (t, s) = classify_transactions-HasKeys txs f in
        let (ts, ss) = classify_chunks-HasKeys chunks g in
        (
          contains_all-grown g.unique_transactions last.unique_transactions
              (keys_of (transaction_keys contracts) txs) _ grows.transactions t ts,
          contains_all-grown g.unique_sign_events last.unique_sign_events
              (keys_of (sign_keys contracts) txs) _ grows.sign_events s ss,
        )
