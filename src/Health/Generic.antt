-- ===== src/Health/Generic.antt =====
-- src/modules/health/tx-classifier.service.ts: the classifier without the MPC split, beside
-- the one of the FastAuth collector.
use fast_auth_indexer_api.Prelude.{
  ◌≡◌, refl, inl, inr, not, ◌&&◌, Option, none, some, List, [], ◌∷◌, arith, if◌then◌else◌,
  Bool-cases, Option-cases, Text,
}
use fast_auth_indexer_api.Json.{Json, null}
use fast_auth_indexer_api.Health.{
  or, is_failure_status, extract_failure_reason, Receipt, Walked, executor, is_none, walk_receipt,
  walk_receipts, unwalked, FaOutcome, fa_outcome, TxStatus, answered, failed, reason_of,
  classify_walked, classify_tx,
}

pub data GenericOutcome : Type 0 where
  succeeded failure pending : GenericOutcome

pub record GenericClassification : Type 0 where
  pub outcome : GenericOutcome
  pub failing_executor_id : Option Text
  pub failure_reason : Option Text
  pub last_error : Option Text

-- `firstFailingExecutor` and `firstFailingStatus`
abbrev pub FirstFailing : Type 0
FirstFailing = Option Text × Json

unfoldable pub walk_generic : List Receipt → FirstFailing → FirstFailing
walk_generic [] (first, status) = (first, status)
walk_generic (r ∷ receipts) (first, status) =
    let fails = is_none first && is_failure_status r.status in
    walk_generic receipts (if fails then executor r else first, if fails then r.status else status)

module _ (stringify : Json → Text) where
  unfoldable pub conclude : FirstFailing → Json → GenericClassification
  conclude (first, status) conversion =
      if is_none first && not (is_failure_status conversion)
      then record {
        outcome = succeeded;
        failing_executor_id = none;
        failure_reason = none;
        last_error = none;
      }
      else record {
        outcome = failure;
        failing_executor_id = first;
        failure_reason =
            or stringify (extract_failure_reason stringify status)
              (extract_failure_reason stringify conversion);
        last_error = none;
      }

  unfoldable pub classify_tx_generic : TxStatus → GenericClassification
  unfolding conclude walk_generic
  classify_tx_generic (failed message) = record {
    outcome = pending;
    failing_executor_id = none;
    failure_reason = none;
    last_error = some message;
  }
  classify_tx_generic (answered receipts conversion) =
      conclude (walk_generic receipts (none, null)) conversion

-- Both loops blame the same executor and keep the same status.
walk_generic-same :
    (mpc : List Text) (receipts : List Receipt) (w : Walked)
    → walk_generic receipts (w.first_failing_executor, w.first_failing_status) ≡ (
      (walk_receipts mpc receipts w).first_failing_executor,
      (walk_receipts mpc receipts w).first_failing_status,
    )
unfolding walk_generic walk_receipts walk_receipt
walk_generic-same mpc [] w = refl
walk_generic-same mpc (r ∷ receipts) w = walk_generic-same mpc receipts (walk_receipt mpc r w)

-- The outcome without the split of the failures.
unfoldable pub coarse : FaOutcome → GenericOutcome
coarse FaOutcome.success = succeeded
coarse FaOutcome.rpc_pending = pending
coarse FaOutcome.guard_failure = failure
coarse FaOutcome.mpc_failure = failure
coarse FaOutcome.other_failure = failure

conclude-same :
    (stringify : Json → Text) (mpc : List Text) (w : Walked) (conversion : Json)
    → let g = conclude stringify (w.first_failing_executor, w.first_failing_status) conversion in
      let c = classify_walked stringify mpc w conversion in
      ((g.outcome ≡ coarse c.outcome) × (g.failing_executor_id ≡ c.failing_executor_id))
      × ((g.failure_reason ≡ c.failure_reason) × (g.last_error ≡ c.last_error))
unfolding conclude classify_walked fa_outcome coarse reason_of
conclude-same stringify mpc w conversion = elim (Option-cases w.first_failing_executor) [
  | inl free ↦ elim (Bool-cases (is_failure_status conversion)) [
    | inl bad ↦ (
      (ground (arith, free, bad), ground (arith, free, bad)),
      (ground (arith, free, bad), ground (arith, free, bad)),
    )
    | inr fine ↦ (
      (ground (arith, free, fine), ground (arith, free, fine)),
      (ground (arith, free, fine), ground (arith, free, fine)),
    )
  ]
  | inr (id, set) ↦
      ((ground (arith, set), ground (arith, set)), (ground (arith, set), ground (arith, set)))
]

-- For every answer or error of the tx call, the generic classifier and the one of the FastAuth collector
-- agree on whether the transaction succeeded, failed or is pending, on the executor to blame, on the
-- reason, and on the error of the call, whatever the MPC contracts are.
pub classify_tx_generic-IsCoarse :
    (stringify : Json → Text) (mpc : List Text) (status : TxStatus)
    → let g = classify_tx_generic stringify status in
      let c = classify_tx stringify mpc status in
      ((g.outcome ≡ coarse c.outcome) × (g.failing_executor_id ≡ c.failing_executor_id))
      × ((g.failure_reason ≡ c.failure_reason) × (g.last_error ≡ c.last_error))
unfolding classify_tx_generic classify_tx coarse
classify_tx_generic-IsCoarse stringify mpc (failed message) = ((refl, refl), (refl, refl))
classify_tx_generic-IsCoarse stringify mpc (answered receipts conversion) =
    rw (walk_generic-same mpc receipts unwalked)
      (conclude-same stringify mpc (walk_receipts mpc receipts unwalked) conversion)
