-- ===== src/Health/Retries.antt =====
-- The row of a transaction, from its discovery through its retries
-- (src/modules/health/fastauth-health.service.ts).
use fast_auth_indexer_api.Prelude.{
  ℕ, suc, ◌+◌, ◌-◌, ◌*◌, ◌≤◌, ◌≡◌, ◌↔◌, Bool, true, false, ◌&&◌, Option, none, some, List, arith,
  ltb, if◌then◌else◌, Text,
}
use fast_auth_indexer_api.Json.{Json}
use fast_auth_indexer_api.Health.{
  FaOutcome, success, guard_failure, mpc_failure, other_failure, rpc_pending, FaClassification,
  TxStatus, classify_tx,
}

abbrev pub max_retry_count : ℕ
max_retry_count = 10

abbrev pub retry_backoff_ms : ℕ
retry_backoff_ms = 5 * 60 * 1000

-- The columns that the passes write beside those of the transaction itself.
pub record HealthTx : Type 0 where
  pub classification : FaClassification
  pub retry_count : ℕ
  pub last_attempted_at : Option ℕ
  pub classified_at : Option ℕ

unfoldable pub is_pending : FaOutcome → Bool
is_pending rpc_pending = true
is_pending success = false
is_pending guard_failure = false
is_pending mpc_failure = false
is_pending other_failure = false

-- The row that the discovery pass inserts.
unfoldable pub discovered : ℕ → FaClassification → HealthTx
unfolding is_pending
discovered now c = record {
  classification = c;
  retry_count = if is_pending c.outcome then 1 else 0;
  last_attempted_at = some now;
  classified_at = if is_pending c.outcome then none else some now;
}

abbrev pub attempted_before : Option ℕ → ℕ → Bool
attempted_before none cutoff = true
attempted_before (some at) cutoff = ltb at cutoff

-- The `where` of the query of the retry pass.
unfoldable pub is_due : ℕ → HealthTx → Bool
unfolding is_pending
is_due now row =
    is_pending row.classification.outcome
    && (ltb row.retry_count max_retry_count
        && attempted_before row.last_attempted_at (now - retry_backoff_ms))

-- The update of the retry pass.
unfoldable pub retried : ℕ → FaClassification → HealthTx → HealthTx
unfolding is_pending
retried now c row = record {
  classification = c;
  retry_count = row.retry_count + 1;
  last_attempted_at = some now;
  classified_at = if is_pending c.outcome then none else some now;
}

-- The history of a row, with the number of the calls that were made for it. The query and the update
-- read the clock on their own.
pub data Reached (stringify : Json → Text) (mpc : List Text) : ℕ → HealthTx → Type 0 where
  discovers :
      (now : ℕ) (answer : TxStatus)
      → Reached stringify mpc 1 (discovered now (classify_tx stringify mpc answer))
  retries :
      (calls : ℕ) (row : HealthTx) (queried now : ℕ) (answer : TxStatus)
      → Reached stringify mpc calls row
      → is_due queried row ≡ true
      → Reached stringify mpc (suc calls) (retried now (classify_tx stringify mpc answer) row)

module _ (stringify : Json → Text) (mpc : List Text) where
  record IsSound (calls : ℕ) (row : HealthTx) : Type 0 where
    capped : row.retry_count ≤ max_retry_count
    bounded : calls ≤ max_retry_count
    pending : is_pending row.classification.outcome ≡ true → calls ≡ row.retry_count
    open_or_closed : (row.classified_at ≡ none) ↔ (is_pending row.classification.outcome ≡ true)

  closed_at : (now : ℕ) (b : Bool) → ((if b then none else some now) ≡ none) ↔ (b ≡ true)
  closed_at now true = ground arith
  closed_at now false = ground arith

  Reached-IsSound :
      (calls : ℕ) (row : HealthTx) → Reached stringify mpc calls row → IsSound calls row
  unfolding discovered retried is_due
  Reached-IsSound _ _ (discovers now answer) = record {
    capped = ground arith;
    bounded = omega arith;
    pending = λ p. ground (arith, p);
    open_or_closed = closed_at now _;
  }
  Reached-IsSound _ _ (retries calls row queried now answer r due) =
      let i = Reached-IsSound calls row r in
      let same = i.pending (ground (arith, due)) in
      record {
        capped = ground (arith, due);
        bounded = ground (arith, due, same);
        pending = λ p. omega (arith, same);
        open_or_closed = closed_at now _;
      }

  -- However the calls answer, the status of a transaction is asked for ten times at most, its retry
  -- count stays within the cap, it has a classification time exactly when its outcome is not pending,
  -- and a row that is not pending is never asked for again.
  pub row-IsBounded :
      (calls : ℕ) (row : HealthTx) (now : ℕ)
      → Reached stringify mpc calls row
      → ((calls ≤ max_retry_count) × (row.retry_count ≤ max_retry_count))
        × (((row.classified_at ≡ none) ↔ (is_pending row.classification.outcome ≡ true))
            × ((is_pending row.classification.outcome ≡ false) → (is_due now row ≡ false)))
  unfolding is_due
  row-IsBounded calls row now r =
      let i = Reached-IsSound calls row r in
      ((i.bounded, i.capped), (i.open_or_closed, λ p. ground (arith, p)))
