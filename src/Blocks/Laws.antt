-- ===== src/Blocks/Laws.antt =====
-- What `classifyTransaction` of near-ingest.service.ts puts into the maps of a block.
use fast_auth_indexer_api.Prelude.{
  ℕ, ◌≡◌, refl, ap, inl, inr, true, Option, none, some, List, [], ◌∷◌, arith, Bool-cases,
  Option-cases, Text, eq_text_refl,
}
use fast_auth_indexer_api.Json.{Json}
use fast_auth_indexer_api.NearBlock.{ChunkTransaction, non_empty}
use fast_auth_indexer_api.Conversion.{Runtime}
use fast_auth_indexer_api.Health.{in_set}
use fast_auth_indexer_api.SignEvents.{normalized_id, derive_fast_auth_sign_events}
use fast_auth_indexer_api.Tables.{contains, put, contains-put}
use fast_auth_indexer_api.Blocks.Rows.{ComputedTxValue, UserTxRow, Found}
use fast_auth_indexer_api.Blocks.Keys.{
  Includes, contains_all, contains_all_mono, put_events-Includes, put_events-derive,
  transaction_keys, sign_keys, transaction_keys-call, transaction_keys-other,
  transaction_keys-nameless, sign_keys-other, sign_keys-nameless,
}
use fast_auth_indexer_api.Blocks.{
  known, near_tx_row, surroundings, store_call, path_1, put_direct, put_meta, path_3,
  classify_transaction, classify_transactions, classify_chunks,
}

-- The maps only grow.
pub record Grows (f g : Found) : Type 0 where
  pub transactions : Includes f.unique_transactions g.unique_transactions
  pub sign_events : Includes f.unique_sign_events g.unique_sign_events
  pub user_txs : Includes f.unique_user_txs g.unique_user_txs

pub Grows-refl : (f : Found) → Grows f f
Grows-refl f = record { transactions = λ k c. c; sign_events = λ k c. c; user_txs = λ k c. c }

pub Grows-trans : {f g h : Found} → Grows f g → Grows g h → Grows f h
Grows-trans a b = record {
  transactions = λ k c. b.transactions k (a.transactions k c);
  sign_events = λ k c. b.sign_events k (a.sign_events k c);
  user_txs = λ k c. b.user_txs k (a.user_txs k c);
}

put-Includes {ℓ} :
    {A : Type ℓ} (key : Text) (row : A) (rows : List (Text × A)) → Includes rows (put key row rows)
put-Includes key row rows k c = ground (arith, contains-put key k row rows)

pub in_set-known : (set : List Text) (id : Option Text) → in_set set id ≡ true → known set id ≡ true
unfolding in_set known
in_set-known set none m = cc
in_set-known set (some []) m = cc
in_set-known set (some (c ∷ id)) m = m

module _ (rt : Runtime) (contracts : List Text) (value : List Json → Text → ComputedTxValue)
    (now height : ℕ) (at : Option ℕ) where
  store_call-Grows :
      (tx : ChunkTransaction) (hash receiver : Text) (f : Found)
      → Grows f (store_call rt contracts value now height at tx hash receiver f)
  unfolding store_call
  store_call-Grows tx hash receiver f = record {
    transactions = put-Includes hash _ f.unique_transactions;
    sign_events =
        put_events-Includes
          (derive_fast_auth_sign_events rt contracts
            (surroundings rt contracts value now height at tx) tx).seeds
          f.unique_sign_events;
    user_txs = λ k c. c;
  }

  path_1-Grows :
      (tx : ChunkTransaction) (hash : Text) (f : Found)
      → Grows f (path_1 rt contracts value now height at tx hash f)
  unfolding path_1
  path_1-Grows tx hash f = elim (Bool-cases (in_set contracts (normalized_id tx.receiver_id))) [
    | inr other ↦ rw other (Grows-refl f)
    | inl fast_auth ↦ rw fast_auth (elim (Option-cases (normalized_id tx.receiver_id)) [
      | inl nameless ↦ rw nameless (Grows-refl f)
      | inr (receiver, named) ↦ rw named (store_call-Grows tx hash receiver f)
    ])
  ]

  module _ (accounts : List Text) where
    put_direct-Grows :
        (hash : Text) (row : Option UserTxRow) (f : Found)
        → Grows f (put_direct rt contracts value now height at accounts hash row f)
    unfolding put_direct
    put_direct-Grows hash none f = Grows-refl f
    put_direct-Grows hash (some row) f = record {
      transactions = λ k c. c;
      sign_events = λ k c. c;
      user_txs = put-Includes hash row f.unique_user_txs;
    }

    put_meta-Grows :
        (hash : Text) (row : Option UserTxRow) (f : Found)
        → Grows f (put_meta rt contracts value now height at accounts hash row f)
    unfolding put_meta
    put_meta-Grows hash row f = elim (Bool-cases (contains f.unique_user_txs hash)) [
      | inl stored ↦ rw stored (Grows-refl f)
      | inr new ↦ rw new (put_direct-Grows hash row f)
    ]

    path_3-Grows :
        (tx : ChunkTransaction) (hash : Text) (f : Found)
        → Grows f (path_3 rt contracts value now height at accounts tx hash f)
    unfolding path_3
    path_3-Grows tx hash f = elim (Bool-cases (known contracts (normalized_id tx.receiver_id))) [
      | inl covered ↦ rw covered (Grows-refl f)
      | inr free ↦ rw free (elim (Bool-cases (in_set accounts (normalized_id tx.signer_id))) [
        | inl direct ↦ rw direct (put_direct-Grows hash _ f)
        | inr relayed ↦ rw relayed (put_meta-Grows hash _ f)
      ])
    ]

    pub classify_transaction-Grows :
        (tx : ChunkTransaction) (f : Found)
        → Grows f (classify_transaction rt contracts value now height at accounts tx f)
    unfolding classify_transaction
    classify_transaction-Grows tx f = elim (Option-cases (non_empty tx.hash)) [
      | inl nameless ↦ rw (nameless, classify_transaction) (Grows-refl f)
      | inr (hash, named) ↦
          rw (named, classify_transaction)
            (Grows-trans (path_1-Grows tx hash f) (path_3-Grows tx hash _))
    ]

    -- The rows of a transaction are in the maps.
    abbrev pub IsGathered : ChunkTransaction → Found → Type 0
    IsGathered tx f =
        (contains_all f.unique_transactions (transaction_keys contracts tx) ≡ true)
        × (contains_all f.unique_sign_events (sign_keys contracts tx) ≡ true)

    pub IsGathered-mono :
        (tx : ChunkTransaction) (f g : Found) → Grows f g → IsGathered tx f → IsGathered tx g
    IsGathered-mono tx f g grows (t, s) = (
      contains_all_mono f.unique_transactions g.unique_transactions _ grows.transactions t,
      contains_all_mono f.unique_sign_events g.unique_sign_events _ grows.sign_events s,
    )

    path_1-call :
        (tx : ChunkTransaction) (hash receiver : Text) (f : Found)
        → in_set contracts (normalized_id tx.receiver_id) ≡ true
        → normalized_id tx.receiver_id ≡ some receiver
        → path_1 rt contracts value now height at tx hash f
          ≡ store_call rt contracts value now height at tx hash receiver f
    unfolding path_1
    path_1-call tx hash receiver f m named = rw m (rw named refl)

    store_call-IsGathered :
        (tx : ChunkTransaction) (hash receiver : Text) (f : Found)
        → non_empty tx.hash ≡ some hash
        → in_set contracts (normalized_id tx.receiver_id) ≡ true
        → IsGathered tx (store_call rt contracts value now height at tx hash receiver f)
    unfolding store_call contains_all
    store_call-IsGathered tx hash receiver f named m = (
      rw (transaction_keys-call contracts tx hash named m) (
          ground (
            arith,
            contains-put hash hash (near_tx_row rt contracts value now height at tx receiver)
                f.unique_transactions,
            eq_text_refl hash,
          )),
      put_events-derive rt contracts (surroundings rt contracts value now height at tx) tx
          f.unique_sign_events m,
    )

    path_1-IsGathered :
        (tx : ChunkTransaction) (hash : Text) (f : Found)
        → non_empty tx.hash ≡ some hash
        → IsGathered tx (path_1 rt contracts value now height at tx hash f)
    unfolding contains_all in_set
    path_1-IsGathered tx hash f named =
        elim (Bool-cases (in_set contracts (normalized_id tx.receiver_id))) [
          | inr other ↦
              rw (transaction_keys-other contracts tx other, sign_keys-other contracts tx other)
                (refl, refl)
          | inl fast_auth ↦ elim (Option-cases (normalized_id tx.receiver_id)) [
            | inl nameless ↦ absurd (ground (arith, ap (in_set contracts) nameless, fast_auth))
            | inr (receiver, r) ↦
                rw (path_1-call tx hash receiver f fast_auth r)
                  (store_call-IsGathered tx hash receiver f named fast_auth)
          ]
        ]

    pub classify_transaction-IsGathered :
        (tx : ChunkTransaction) (f : Found)
        → IsGathered tx (classify_transaction rt contracts value now height at accounts tx f)
    unfolding classify_transaction contains_all
    classify_transaction-IsGathered tx f = elim (Option-cases (non_empty tx.hash)) [
      | inl nameless ↦
          rw
            (
              transaction_keys-nameless contracts tx nameless,
              sign_keys-nameless contracts tx nameless,
            )
            (refl, refl)
      | inr (hash, named) ↦
          rw (named, classify_transaction)
            (IsGathered-mono tx _ _ (path_3-Grows tx hash _) (path_1-IsGathered tx hash f named))
    ]

    pub classify_transactions-Grows :
        (txs : List ChunkTransaction) (f : Found)
        → Grows f (classify_transactions rt contracts value now height at accounts txs f)
    unfolding classify_transactions
    classify_transactions-Grows [] f = Grows-refl f
    classify_transactions-Grows (tx ∷ txs) f =
        Grows-trans (classify_transaction-Grows tx f) (classify_transactions-Grows txs _)

    pub classify_chunks-Grows :
        (chunks : List (List ChunkTransaction)) (f : Found)
        → Grows f (classify_chunks rt contracts value now height at accounts chunks f)
    unfolding classify_chunks
    classify_chunks-Grows [] f = Grows-refl f
    classify_chunks-Grows (txs ∷ chunks) f =
        Grows-trans (classify_transactions-Grows txs f) (classify_chunks-Grows chunks _)
