-- ===== src/Blocks/Store.antt =====
-- src/modules/near-ingest/near-ingest.service.ts: the tables, what a block does to them, and the
-- collector's `Indexer`. A statement of the database either throws or takes effect as a whole; which
-- ones throw is given by the number of the statement.
use fast_auth_indexer_api.Prelude.{
  ℕ, suc, Bool, true, false, Option, none, some, List, [], ◌∷◌, map, if◌then◌else◌, length, Text,
  add, to_lower_case, trim, has,
}
use fast_auth_indexer_api.Json.{Json}
use fast_auth_indexer_api.NearBlock.{Block, ChunkTransaction, other, non_empty}
use fast_auth_indexer_api.Conversion.{Runtime}
use fast_auth_indexer_api.Conversion.Delegate.{DelegateActionInfo, extract_delegate_action_info}
use fast_auth_indexer_api.SignEvents.{SignEvent, normalized_id}
use fast_auth_indexer_api.Ingest.{Try, returned, threw, Counts, Indexer}
use fast_auth_indexer_api.Tables.{insert_rows}
use fast_auth_indexer_api.Blocks.Rows.{ComputedTxValue, NearTxRow, UserTxRow, Found, add_all}
use fast_auth_indexer_api.Blocks.Probes.{probed, asks, known_of}
use fast_auth_indexer_api.Blocks.{classify_chunks}

-- `public_key_accounts` is the account column of another service's table, which a run only reads;
-- `statements` counts those that were sent.
pub record Store : Type 0 where
  pub near_transactions : List (Text × NearTxRow)
  pub sign_events : List (Text × SignEvent)
  pub user_txs : List (Text × UserTxRow)
  pub public_key_accounts : List Text
  pub pub_key_checked : List (Text × Bool)
  pub account_checked : List (Text × Bool)
  pub batch_inline_pub_keys : List Text
  pub statements : ℕ

-- `candidatePubKeys` and `candidateAccounts`
pub record Candidates : Type 0 where
  pub pub_keys : List Text
  pub accounts : List Text

unfoldable pub add_some : Option Text → List Text → List Text
add_some none set = set
add_some (some id) set = add id set

unfoldable pub note_delegate : Option DelegateActionInfo → Candidates → Candidates
unfolding add_some
note_delegate none c = c
note_delegate (some info) c = record {
  pub_keys = add info.inner_public_key c.pub_keys;
  accounts = add_some (normalized_id (non_empty (some info.inner_signer_id))) c.accounts;
}

unfoldable pub note_candidates : ChunkTransaction → Candidates → Candidates
unfolding note_delegate
note_candidates tx c =
    note_delegate (extract_delegate_action_info tx.actions)
      (record c { accounts = add_some (normalized_id (non_empty tx.signer_id)) c.accounts })

unfoldable pub candidates_of : List ChunkTransaction → Candidates → Candidates
unfolding note_candidates
candidates_of [] c = c
candidates_of (tx ∷ txs) c = candidates_of txs (note_candidates tx c)

unfoldable pub block_candidates : List (List ChunkTransaction) → Candidates → Candidates
unfolding candidates_of
block_candidates [] c = c
block_candidates (txs ∷ chunks) c = block_candidates chunks (candidates_of txs c)

abbrev pub no_candidates : Candidates
no_candidates = record { pub_keys = []; accounts = [] }

-- The members of a list that a `WHERE ... = ANY` keeps.
unfoldable pub any_of : List Text → List Text → List Text
any_of [] asked = []
any_of (x ∷ xs) asked = let later = any_of xs asked in if has asked x then x ∷ later else later

unfoldable pub derived_keys : List (Text × SignEvent) → List Text
derived_keys [] = []
derived_keys ((k, event) ∷ events) = elim event.user_derived_public_key [
  | none ↦ derived_keys events
  | some key ↦ key ∷ derived_keys events
]

-- `row.account_id.trim().toLowerCase()`
unfoldable pub normalized_all : List Text → List Text
normalized_all = map (λ id. to_lower_case (trim id))

-- The height of the header, which the caller has checked to be there.
unfoldable pub height_of : ℕ → Option ℕ → ℕ
height_of height none = height
height_of height (some block_height) = block_height

-- The keys that a block has discovered are kept for the cycle.
unfoldable pub note_inline : Found → Store → Store
note_inline found db = record db {
  batch_inline_pub_keys = add_all found.inline_pub_key_discoveries db.batch_inline_pub_keys;
}

abbrev pub bump : Bool → ℕ → ℕ
bump true n = suc n
bump false n = n

-- The rows of one table: what was inserted, or what the insert threw.
pub data Inserted : Type 0 where
  count : ℕ → Inserted
  refused : Text → Inserted

unfoldable pub counts_of : Inserted → Inserted → Inserted → Try Counts
counts_of (count t) (count s) (count u) =
    returned (record { transactions = t; sign_events = s; user_txs = u })
counts_of (refused message) s u = threw (other message)
counts_of (count t) (refused message) u = threw (other message)
counts_of (count t) (count s) (refused message) = threw (other message)

-- The message of the statement that throws, and what the driver answers for the rows that it inserted
-- (`result.identifiers?.length`).
module _ (fault : ℕ → Option Text) (identifiers : ℕ → Option ℕ) where
  unfoldable pub inserted_count : ℕ → ℕ → Inserted
  inserted_count statement rows = elim (identifiers statement) [
    | none ↦ count rows
    | some n ↦ count n
  ]

  -- `bulkInsert` of the rows, if there are any: with the table and the number of statements.
  unfoldable pub bulk_insert {ℓ} :
      {A : Type ℓ} → ℕ → List (Text × A) → List (Text × A) → Inserted × List (Text × A) × ℕ
  unfolding inserted_count
  bulk_insert k [] table = (count 0, table, k)
  bulk_insert k (row ∷ rows) table = elim (fault k) [
    | some message ↦ (refused message, table, suc k)
    | none ↦ (inserted_count k (length (row ∷ rows)), insert_rows (row ∷ rows) table, suc k)
  ]

  -- `persistBlock`: the three inserts are all sent, and one that fails does not stop the others.
  unfoldable pub persist_block : Found → Store → Try Counts × Store
  persist_block f db =
      let (t, near_transactions, k) =
        bulk_insert db.statements f.unique_transactions db.near_transactions in
      let (s, sign_events, l) = bulk_insert k f.unique_sign_events db.sign_events in
      let (u, user_txs, m) = bulk_insert l f.unique_user_txs db.user_txs in
      (
        counts_of t s u,
        record db {
          near_transactions = near_transactions;
          sign_events = sign_events;
          user_txs = user_txs;
          statements = m;
        },
      )

  unfoldable pub answer : ℕ → List Text → Option (List Text)
  answer k found = elim (fault k) [ none ↦ some found | some message ↦ none ]

  unfoldable pub probe_pub_keys : List Text → Store → Store
  unfolding answer derived_keys any_of
  probe_pub_keys candidates db = record db {
    pub_key_checked =
        probed (λ unknown. answer db.statements (any_of (derived_keys db.sign_events) unknown))
          candidates db.pub_key_checked;
    statements = bump (asks candidates db.pub_key_checked) db.statements;
  }

  abbrev pub accounts_query : ℕ → List Text → List Text → Option (List Text)
  accounts_query k table unknown = answer k (normalized_all (any_of table unknown))

  unfoldable pub probe_accounts : List Text → Store → Store
  unfolding answer normalized_all any_of
  probe_accounts candidates db = record db {
    account_checked =
        probed
          (λ unknown. answer db.statements (normalized_all (any_of db.public_key_accounts unknown)))
          candidates db.account_checked;
    statements = bump (asks candidates db.account_checked) db.statements;
  }

  unfoldable pub probe : Candidates → Store → Store
  unfolding probe_pub_keys probe_accounts
  probe c db = probe_accounts c.accounts (probe_pub_keys c.pub_keys db)

  module _ (rt : Runtime) (fast_auth_contract_set : List Text)
      (compute_actions_value : List Json → Text → ComputedTxValue) (now : ℕ) where
    -- What the classification of a block starts with.
    unfoldable pub nothing_found : Candidates → Store → Found
    nothing_found c db = record {
      unique_transactions = [];
      unique_sign_events = [];
      unique_user_txs = [];
      fast_auth_pub_key_set =
          add_all (any_of db.batch_inline_pub_keys c.pub_keys)
            (known_of db.pub_key_checked c.pub_keys);
      inline_pub_key_discoveries = [];
    }

    unfoldable pub classified : ℕ → Option ℕ → List (List ChunkTransaction) → Store → Found
    unfolding nothing_found
    classified block_height timestamp chunks db =
        let c = block_candidates chunks no_candidates in
        classify_chunks rt fast_auth_contract_set compute_actions_value now block_height timestamp
          (known_of db.account_checked c.accounts) chunks (nothing_found c db)

    unfoldable pub found_in : ℕ → Block → List (List ChunkTransaction) → Store → Found
    unfolding classified
    found_in height b chunks asked = classified (height_of height b.height) b.timestamp chunks asked

    -- What `processBlockHeight` does between the fetch of the chunks and the statistics.
    unfoldable pub index_block :
        ℕ → Block → List (List ChunkTransaction) → Store → Try Counts × Store
    unfolding found_in probe persist_block note_inline
    index_block height b chunks db =
        let asked = probe (block_candidates chunks no_candidates) db in
        let found = found_in height b chunks asked in persist_block found (note_inline found asked)

    abbrev pub collector : Indexer
    collector = record { Db = Store; Chunk = List ChunkTransaction; index_block = index_block }
