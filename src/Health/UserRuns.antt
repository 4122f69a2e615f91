-- ===== src/Health/UserRuns.antt =====
-- src/modules/health/user-health.service.ts: the runs that classify the transactions of the users. The
-- calls of a pass are settled in the order of its rows; the database calls succeed.
use fast_auth_indexer_api.Prelude.{
  ℕ, ◌+◌, ◌-◌, ◌*◌, Bool, true, false, not, ◌&&◌, ◌||◌, Option, none, some, List, [], ◌∷◌, ◌++◌,
  ltb, leb, if◌then◌else◌, Text, eq_text,
}
use fast_auth_indexer_api.Prelude.{take}
use fast_auth_indexer_api.Json.{Json}
use fast_auth_indexer_api.Health.{TxStatus}
use fast_auth_indexer_api.Health.Generic.{
  GenericOutcome, succeeded, failure, pending, GenericClassification, classify_tx_generic,
}

abbrev pub discover_limit : ℕ
discover_limit = 50

abbrev pub retry_limit : ℕ
retry_limit = 25

abbrev pub discovery_lookback_ms : ℕ
discovery_lookback_ms = 24 * 60 * 60 * 1000

abbrev pub max_retry_count : ℕ
max_retry_count = 10

abbrev pub retry_backoff_ms : ℕ
retry_backoff_ms = 5 * 60 * 1000

-- A row of `fastauth_user_transactions`.
pub record UserTransaction : Type 0 where
  pub tx_hash : Text
  pub signer_account_id : Text
  pub block_height : ℕ
  pub block_timestamp : ℕ

-- A row of `fastauth_user_health_tx`.
pub record UserHealthTx : Type 0 where
  pub tx_hash : Text
  pub signer_id : Text
  pub block_height : ℕ
  pub block_timestamp : ℕ
  pub classification : GenericClassification
  pub retry_count : ℕ
  pub last_attempted_at : Option ℕ
  pub classified_at : Option ℕ

unfoldable pub is_pending : GenericOutcome → Bool
is_pending pending = true
is_pending succeeded = false
is_pending failure = false

unfoldable pub has_row : List UserHealthTx → Text → Bool
has_row [] hash = false
has_row (row ∷ rows) hash = eq_text row.tx_hash hash || has_row rows hash

-- `WHERE h.tx_hash IS NULL AND u.block_timestamp >= $1`
unfoldable pub unclassified : ℕ → List UserHealthTx → List UserTransaction → List UserTransaction
unfolding has_row
unclassified cutoff rows [] = []
unclassified cutoff rows (tx ∷ txs) =
    let later = unclassified cutoff rows txs in
    if leb cutoff tx.block_timestamp && not (has_row rows tx.tx_hash) then tx ∷ later else later

unfoldable pub place_desc : UserTransaction → List UserTransaction → List UserTransaction
place_desc tx [] = tx ∷ []
place_desc tx (t ∷ txs) =
    let later = place_desc tx txs in
    if ltb tx.block_height t.block_height then t ∷ later else tx ∷ t ∷ txs

-- `ORDER BY u.block_height DESC`
unfoldable pub by_height_desc : List UserTransaction → List UserTransaction
unfolding place_desc
by_height_desc [] = []
by_height_desc (tx ∷ txs) = place_desc tx (by_height_desc txs)

unfoldable pub candidates : ℕ → List UserHealthTx → List UserTransaction → List UserTransaction
unfolding unclassified by_height_desc
candidates cutoff rows txs = take discover_limit (by_height_desc (unclassified cutoff rows txs))

unfoldable pub discovered : ℕ → GenericClassification → UserTransaction → UserHealthTx
unfolding is_pending
discovered now c tx = record {
  tx_hash = tx.tx_hash;
  signer_id = tx.signer_account_id;
  block_height = tx.block_height;
  block_timestamp = tx.block_timestamp;
  classification = c;
  retry_count = if is_pending c.outcome then 1 else 0;
  last_attempted_at = some now;
  classified_at = if is_pending c.outcome then none else some now;
}

-- A row whose hash is taken is ignored.
unfoldable pub insert_or_ignore : List UserHealthTx → List UserHealthTx → List UserHealthTx
unfolding has_row
insert_or_ignore [] rows = rows
insert_or_ignore (new ∷ more) rows =
    insert_or_ignore more (if has_row rows new.tx_hash then rows else rows ++ new ∷ [])

pub record Discovered : Type 0 where
  pub ok : ℕ
  pub failed : ℕ
  pub still_pending : ℕ

unfoldable pub tally : GenericOutcome → Discovered → Discovered
tally succeeded stats = record stats { ok = stats.ok + 1 }
tally pending stats = record stats { still_pending = stats.still_pending + 1 }
tally failure stats = record stats { failed = stats.failed + 1 }

pub record Retried : Type 0 where
  pub resolved : ℕ
  pub still_pending : ℕ

unfoldable pub tally_retry : GenericOutcome → Retried → Retried
unfolding is_pending
tally_retry outcome stats =
    if is_pending outcome
    then record stats { still_pending = stats.still_pending + 1 }
    else record stats { resolved = stats.resolved + 1 }

abbrev attempted_before : Option ℕ → ℕ → Bool
attempted_before none cutoff = true
attempted_before (some at) cutoff = ltb at cutoff

-- The `where` of the retry pass.
unfoldable pub is_due : ℕ → UserHealthTx → Bool
unfolding is_pending
is_due now row =
    is_pending row.classification.outcome
    && (ltb row.retry_count max_retry_count
        && attempted_before row.last_attempted_at (now - retry_backoff_ms))

unfoldable pub due_rows : ℕ → List UserHealthTx → List UserHealthTx
unfolding is_due
due_rows now [] = []
due_rows now (row ∷ rows) =
    let later = due_rows now rows in if is_due now row then row ∷ later else later

-- A missing time is the last in the order.
abbrev attempted_after : Option ℕ → Option ℕ → Bool
attempted_after none none = false
attempted_after none (some b) = true
attempted_after (some a) none = false
attempted_after (some a) (some b) = ltb b a

unfoldable pub place_asc : UserHealthTx → List UserHealthTx → List UserHealthTx
place_asc row [] = row ∷ []
place_asc row (r ∷ rows) =
    let later = place_asc row rows in
    if attempted_after row.last_attempted_at r.last_attempted_at then r ∷ later else row ∷ r ∷ rows

-- `order: { lastAttemptedAt: "ASC" }`
unfoldable pub by_attempt_asc : List UserHealthTx → List UserHealthTx
unfolding place_asc
by_attempt_asc [] = []
by_attempt_asc (row ∷ rows) = place_asc row (by_attempt_asc rows)

unfoldable pub pending_rows : ℕ → List UserHealthTx → List UserHealthTx
unfolding by_attempt_asc due_rows
pending_rows now rows = take retry_limit (by_attempt_asc (due_rows now rows))

-- `update({ txHash }, ...)`, with the retry count of the row that was read.
unfoldable pub update :
    ℕ → GenericClassification → UserHealthTx → List UserHealthTx → List UserHealthTx
unfolding is_pending
update now c read [] = []
update now c read (row ∷ rows) =
    let later = update now c read rows in
    if eq_text row.tx_hash read.tx_hash
    then record row {
      classification = c;
      retry_count = read.retry_count + 1;
      last_attempted_at = some now;
      classified_at = if is_pending c.outcome then none else some now;
    }
      ∷ later
    else row ∷ later

module _ (stringify : Json → Text) (answer : Text → Text → TxStatus) where
  abbrev pub classified : Text → Text → GenericClassification
  classified hash signer = classify_tx_generic stringify (answer hash signer)

  unfoldable pub classify_all : ℕ → List UserTransaction → Discovered × List UserHealthTx
  unfolding tally discovered
  classify_all now [] = (record { ok = 0; failed = 0; still_pending = 0 }, [])
  classify_all now (tx ∷ txs) =
      let (stats, rows) = classify_all now txs in
      let c = classified tx.tx_hash tx.signer_account_id in
      (tally c.outcome stats, discovered now c tx ∷ rows)

  -- `runDiscoveryPass`
  unfoldable pub run_discovery_pass :
      ℕ → ℕ → List UserTransaction → List UserHealthTx → Discovered × List UserHealthTx
  unfolding classify_all candidates insert_or_ignore
  run_discovery_pass cutoff now txs rows =
      let (stats, new) = classify_all now (candidates cutoff rows txs) in
      (stats, insert_or_ignore new rows)

  unfoldable pub retry_all : ℕ → List UserHealthTx → List UserHealthTx → Retried × List UserHealthTx
  unfolding tally_retry update
  retry_all now [] rows = (record { resolved = 0; still_pending = 0 }, rows)
  retry_all now (read ∷ more) rows =
      let c = classified read.tx_hash read.signer_id in
      let (stats, rows') = retry_all now more (update now c read rows) in
      (tally_retry c.outcome stats, rows')

  -- `runRetryPass`
  unfoldable pub run_retry_pass : ℕ → ℕ → List UserHealthTx → Retried × List UserHealthTx
  unfolding retry_all pending_rows
  run_retry_pass queried now rows = retry_all now (pending_rows queried rows) rows
