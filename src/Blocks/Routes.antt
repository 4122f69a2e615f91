-- ===== src/Blocks/Routes.antt =====
-- Which of the two paths of near-ingest.service.ts a transaction takes.
use fast_auth_indexer_api.Prelude.{
  ℕ, ◌≡◌, refl, ◌⊎◌, inl, inr, true, false, Option, none, some, List, Bool-cases, Option-cases,
  Text,
}
use fast_auth_indexer_api.Json.{Json}
use fast_auth_indexer_api.NearBlock.{ChunkTransaction, non_empty}
use fast_auth_indexer_api.Conversion.{Runtime}
use fast_auth_indexer_api.Health.{in_set}
use fast_auth_indexer_api.SignEvents.{normalized_id}
use fast_auth_indexer_api.Tables.{contains}
use fast_auth_indexer_api.Blocks.Rows.{ComputedTxValue, UserTxRow, Found}
use fast_auth_indexer_api.Blocks.Laws.{in_set-known}
use fast_auth_indexer_api.Blocks.{
  known, store_call, path_1, put_direct, put_meta, path_3, classify_transaction,
}

module _ (rt : Runtime) (contracts : List Text) (value : List Json → Text → ComputedTxValue)
    (now height : ℕ) (at : Option ℕ) where
  path_1-user_txs :
      (tx : ChunkTransaction) (hash : Text) (f : Found)
      → (path_1 rt contracts value now height at tx hash f).unique_user_txs ≡ f.unique_user_txs
  unfolding path_1 store_call
  path_1-user_txs tx hash f = elim (Bool-cases (in_set contracts (normalized_id tx.receiver_id))) [
    | inr other ↦ rw other refl
    | inl fast_auth ↦ rw fast_auth (elim (Option-cases (normalized_id tx.receiver_id)) [
      | inl nameless ↦ rw nameless refl
      | inr (receiver, named) ↦ rw named refl
    ])
  ]

  path_1-other :
      (tx : ChunkTransaction) (hash : Text) (f : Found)
      → in_set contracts (normalized_id tx.receiver_id) ≡ false
      → path_1 rt contracts value now height at tx hash f ≡ f
  unfolding path_1
  path_1-other tx hash f other = rw other refl

  module _ (accounts : List Text) where
    -- Only the map of the user transactions differs.
    abbrev pub IsUserOnly : Found → Found → Type 0
    IsUserOnly f g =
        (g.unique_transactions ≡ f.unique_transactions)
        × (g.unique_sign_events ≡ f.unique_sign_events)
        × (g.inline_pub_key_discoveries ≡ f.inline_pub_key_discoveries)

    put_direct-IsUserOnly :
        (hash : Text) (row : Option UserTxRow) (f : Found)
        → IsUserOnly f (put_direct rt contracts value now height at accounts hash row f)
    unfolding put_direct
    put_direct-IsUserOnly hash none f = (refl, refl, refl)
    put_direct-IsUserOnly hash (some row) f = (refl, refl, refl)

    put_meta-IsUserOnly :
        (hash : Text) (row : Option UserTxRow) (f : Found)
        → IsUserOnly f (put_meta rt contracts value now height at accounts hash row f)
    unfolding put_meta
    put_meta-IsUserOnly hash row f = elim (Bool-cases (contains f.unique_user_txs hash)) [
      | inl stored ↦ rw stored (refl, refl, refl)
      | inr new ↦ rw new (put_direct-IsUserOnly hash row f)
    ]

    path_3-IsUserOnly :
        (tx : ChunkTransaction) (hash : Text) (f : Found)
        → IsUserOnly f (path_3 rt contracts value now height at accounts tx hash f)
    unfolding path_3
    path_3-IsUserOnly tx hash f =
        elim (Bool-cases (known contracts (normalized_id tx.receiver_id))) [
          | inl covered ↦ rw covered (refl, refl, refl)
          | inr free ↦ rw free (elim (Bool-cases (in_set accounts (normalized_id tx.signer_id))) [
            | inl direct ↦ rw direct (put_direct-IsUserOnly hash _ f)
            | inr relayed ↦ rw relayed (put_meta-IsUserOnly hash _ f)
          ])
        ]

    -- A transaction takes one path at most: one on a FastAuth contract leaves the map of the user
    -- transactions alone; any other leaves the maps of the transactions and of the sign events, and
    -- the discovered keys, alone.
    pub classify_transaction-IsRouted :
        (tx : ChunkTransaction) (f : Found)
        → let g = classify_transaction rt contracts value now height at accounts tx f in
          ((in_set contracts (normalized_id tx.receiver_id) ≡ true)
            × (g.unique_user_txs ≡ f.unique_user_txs))
          ⊎ ((in_set contracts (normalized_id tx.receiver_id) ≡ false) × IsUserOnly f g)
    unfolding classify_transaction path_3
    classify_transaction-IsRouted tx f = elim (Option-cases (non_empty tx.hash)) [
      | inl nameless ↦ elim (Bool-cases (in_set contracts (normalized_id tx.receiver_id))) [
        | inl fast_auth ↦ inl (fast_auth, rw (nameless, classify_transaction) refl)
        | inr other ↦ inr (other, rw (nameless, classify_transaction) (refl, refl, refl))
      ]
      | inr (hash, named) ↦ elim (Bool-cases (in_set contracts (normalized_id tx.receiver_id))) [
        | inl fast_auth ↦ inl (
          fast_auth,
          rw (named, classify_transaction)
              (rw (in_set-known contracts (normalized_id tx.receiver_id) fast_auth, path_3)
                (path_1-user_txs tx hash f)),
        )
        | inr other ↦ inr (
          other,
          rw (named, classify_transaction)
              (rw (path_1-other tx hash f other) (path_3-IsUserOnly tx hash f)),
        )
      ]
    ]
