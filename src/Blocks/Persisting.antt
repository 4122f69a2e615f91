-- ===== src/Blocks/Persisting.antt =====
-- What `persistBlock` of near-ingest.service.ts leaves in the tables.
use fast_auth_indexer_api.Prelude.{
  ℕ, ◌≡◌, refl, sym, ◌∙◌, ◌≢◌, inl, inr, Option, some, List, [], ◌∷◌, arith, Option-cases, Text,
}
use fast_auth_indexer_api.Ingest.{returned, Counts}
use fast_auth_indexer_api.Tables.{contains, contains-insert_rows}
use fast_auth_indexer_api.Blocks.Rows.{Found}
use fast_auth_indexer_api.Blocks.Keys.{Includes}
use fast_auth_indexer_api.Blocks.Store.{
  Store, Inserted, count, refused, counts_of, bulk_insert, persist_block,
}

-- What the state of the tables keeps: no row is lost.
pub record Lasts (a b : Store) : Type 0 where
  pub near_transactions : Includes a.near_transactions b.near_transactions
  pub sign_events : Includes a.sign_events b.sign_events
  pub user_txs : Includes a.user_txs b.user_txs

refused-ne-count : {message : Text} {n : ℕ} → refused message ≢ count n
refused-ne-count e = cc

-- All three inserts have succeeded.
counts_of-returned :
    (t s u : Inserted) (n : Counts)
    → counts_of t s u ≡ returned n
    → ((a : ℕ) × (t ≡ count a)) × ((b : ℕ) × (s ≡ count b)) × ((c : ℕ) × (u ≡ count c))
unfolding counts_of
counts_of-returned (count a) (count b) (count c) n e = ((a, refl), (b, refl), (c, refl))
counts_of-returned (count a) (count b) (refused m) n e = cc
counts_of-returned (count a) (refused m) u n e = cc
counts_of-returned (refused m) s u n e = cc

module _ (fault : ℕ → Option Text) (identifiers : ℕ → Option ℕ) where
  bulk_insert-Includes {ℓ} :
      {A : Type ℓ} (k : ℕ) (rows table : List (Text × A))
      → Includes table (bulk_insert fault identifiers k rows table).1
  unfolding bulk_insert
  bulk_insert-Includes k [] table key c = c
  bulk_insert-Includes k (row ∷ rows) table key c = elim (Option-cases (fault k)) [
    | inl sound ↦
        rw (sound, bulk_insert) (ground (arith, contains-insert_rows (row ∷ rows) table key))
    | inr (message, fails) ↦ rw (fails, bulk_insert) c
  ]

  bulk_insert-refused {ℓ} :
      {A : Type ℓ} (k : ℕ) (row : Text × A) (rows table : List (Text × A)) (message : Text)
      → fault k ≡ some message
      → (bulk_insert fault identifiers k (row ∷ rows) table).0 ≡ refused message
  unfolding bulk_insert
  bulk_insert-refused k row rows table message fails = rw (fails, bulk_insert) refl

  bulk_insert-stores {ℓ} :
      {A : Type ℓ} (k : ℕ) (rows table : List (Text × A)) (n : ℕ)
      → (bulk_insert fault identifiers k rows table).0 ≡ count n
      → Includes rows (bulk_insert fault identifiers k rows table).1
  unfolding bulk_insert contains
  bulk_insert-stores k [] table n e key c = cc
  bulk_insert-stores k (row ∷ rows) table n e key c = elim (Option-cases (fault k)) [
    | inl sound ↦
        rw (sound, bulk_insert) (ground (arith, contains-insert_rows (row ∷ rows) table key))
    | inr (message, fails) ↦
        absurd (refused-ne-count (sym (bulk_insert-refused k row rows table message fails) ∙ e))
  ]

  pub persist_block-Lasts :
      (f : Found) (db : Store) → Lasts db (persist_block fault identifiers f db).1
  unfolding persist_block
  persist_block-Lasts f db = record {
    near_transactions = bulk_insert-Includes _ f.unique_transactions db.near_transactions;
    sign_events = bulk_insert-Includes _ f.unique_sign_events db.sign_events;
    user_txs = bulk_insert-Includes _ f.unique_user_txs db.user_txs;
  }

  -- After inserts that return, the rows of the maps have theirs in the tables.
  pub record Persisted (f : Found) (db : Store) : Type 0 where
    pub near_transactions : Includes f.unique_transactions db.near_transactions
    pub sign_events : Includes f.unique_sign_events db.sign_events
    pub user_txs : Includes f.unique_user_txs db.user_txs

  pub persist_block-Persisted :
      (f : Found) (db : Store) (n : Counts)
      → (persist_block fault identifiers f db).0 ≡ returned n
      → Persisted f (persist_block fault identifiers f db).1
  unfolding persist_block
  persist_block-Persisted f db n e =
      let ((a, t), (b, s), (c, u)) = counts_of-returned _ _ _ n e in
      record {
        near_transactions = bulk_insert-stores _ f.unique_transactions db.near_transactions a t;
        sign_events = bulk_insert-stores _ f.unique_sign_events db.sign_events b s;
        user_txs = bulk_insert-stores _ f.unique_user_txs db.user_txs c u;
      }
