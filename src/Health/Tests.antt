-- ===== src/Health/Tests.antt =====
-- A transaction whose second receipt failed at an MPC contract, and one without executors.
use fast_auth_indexer_api.Prelude.{
  ◌≤◌, ◌≡◌, refl, ◌||◌, ◌↔◌, true, false, none, some, List, [], ◌∷◌, Text, codes,
}
use fast_auth_indexer_api.Json.{Json, null, string, object, field, end}
use fast_auth_indexer_api.Health.{
  is_failure_status, Receipt, executor, success, answered, failed, classify_tx,
}
use fast_auth_indexer_api.Health.Generic.{coarse, classify_tx_generic, classify_tx_generic-IsCoarse}
use fast_auth_indexer_api.Health.Outcomes.{
  blamed, touches, any_failed, NamesFailures, documented, AllUnknown, classify_tx-IsDocumented,
  classify_tx-ignores_unknown,
}
use fast_auth_indexer_api.Health.Retries.{
  HealthTx, max_retry_count, is_pending, discovered, is_due, retried, Reached, discovers, retries,
  row-IsBounded,
}

abbrev no_text : Json → Text
no_text value = codes "{}"

abbrev failure : Json
failure = object (field (codes "Failure") (string (codes "boom")) end)

abbrev sample_receipts : List Receipt
sample_receipts =
    record {
      executor_id = some (codes "fast-auth.near");
      status = object (field (codes "SuccessValue") (string []) end);
    }
    ∷ record { executor_id = some (codes "v1.signer"); status = failure }
    ∷ []

abbrev sample_mpc : List Text
sample_mpc = codes "v1.signer" ∷ []

classify_tx-IsDocumented_example :
    ((classify_tx no_text sample_mpc (answered sample_receipts null)).outcome
      ≡ documented sample_mpc
          (blamed sample_receipts)
          (touches sample_mpc sample_receipts)
          (any_failed sample_receipts || is_failure_status null))
    × (((classify_tx no_text sample_mpc (answered sample_receipts null)).failing_executor_id
          ≡ blamed sample_receipts)
        × ((classify_tx no_text sample_mpc (answered sample_receipts null)).reached_mpc
            ≡ some (touches sample_mpc sample_receipts)))
unfolding NamesFailures executor is_failure_status fast_auth_indexer_api.Prelude.includes
    fast_auth_indexer_api.Prelude.to_lower_case
classify_tx-IsDocumented_example =
    classify_tx-IsDocumented no_text sample_mpc sample_receipts null (refl, (refl, tt))

classify_tx-ignores_unknown_example :
    (classify_tx no_text sample_mpc
      (answered (record { executor_id = none; status = failure } ∷ []) null)).outcome
    ≡ success
unfolding AllUnknown executor is_failure_status
classify_tx-ignores_unknown_example =
    classify_tx-ignores_unknown no_text sample_mpc
      (record { executor_id = none; status = failure } ∷ []) null (refl, tt) refl

abbrev pending_row : HealthTx
pending_row = discovered 1000 (classify_tx no_text sample_mpc (failed (codes "timeout")))

abbrev solved_row : HealthTx
solved_row =
    retried 900_000 (classify_tx no_text sample_mpc (answered sample_receipts null)) pending_row

Reached-solved : Reached no_text sample_mpc 2 solved_row
unfolding is_due discovered classify_tx is_pending
Reached-solved =
    retries 1 pending_row 800_000 900_000 (answered sample_receipts null)
      (discovers 1000 (failed (codes "timeout"))) refl

row-IsBounded_example :
    ((2 ≤ max_retry_count) × (solved_row.retry_count ≤ max_retry_count))
    × (((solved_row.classified_at ≡ none) ↔ (is_pending solved_row.classification.outcome ≡ true))
        × ((is_pending solved_row.classification.outcome ≡ false)
            → (is_due 2_000_000 solved_row ≡ false)))
row-IsBounded_example = row-IsBounded no_text sample_mpc 2 solved_row 2_000_000 Reached-solved

classify_tx_generic-IsCoarse_example :
    (((classify_tx_generic no_text (answered sample_receipts null)).outcome
        ≡ coarse (classify_tx no_text sample_mpc (answered sample_receipts null)).outcome)
      × ((classify_tx_generic no_text (answered sample_receipts null)).failing_executor_id
          ≡ (classify_tx no_text sample_mpc (answered sample_receipts null)).failing_executor_id))
    × (((classify_tx_generic no_text (answered sample_receipts null)).failure_reason
          ≡ (classify_tx no_text sample_mpc (answered sample_receipts null)).failure_reason)
        × ((classify_tx_generic no_text (answered sample_receipts null)).last_error
            ≡ (classify_tx no_text sample_mpc (answered sample_receipts null)).last_error))
classify_tx_generic-IsCoarse_example =
    classify_tx_generic-IsCoarse no_text sample_mpc (answered sample_receipts null)
