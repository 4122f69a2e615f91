-- ===== src/Health.antt =====
-- The health collectors of src/modules/health: how the status of a receipt is read
-- (health-status.helpers.ts), how a transaction is classified by its receipts (tx-classifier.service.ts
-- and fastauth-health.service.ts), and what becomes of a row that is retried.
--
-- A status is the JSON that the RPC answered, as Json.antt has it.
pub mod Generic
pub mod Outcomes
pub mod Retries
pub mod UserRuns
pub mod UserRunLaws
pub mod UserRunTests
pub mod Tests
use fast_auth_indexer_api.Prelude.{
  ◌+◌, Bool, true, false, not, ◌&&◌, ◌||◌, Option, none, some, List, [], ◌∷◌, ◌++◌, if◌then◌else◌,
  Text, codes, eq_text, to_lower_case, trim, includes, has,
}
use fast_auth_indexer_api.Json.{
  Json, null, boolean, numeral, string, array, object, end, field, lookup, is_truthy,
}

abbrev pub failure_word : Text
failure_word = codes "failure"

-- `isFailureStatus`; the first key of an array is "0".
unfoldable pub is_failure_status : Json → Bool
is_failure_status (string s) = includes (to_lower_case s) failure_word
is_failure_status (object (field name value fields)) = includes (to_lower_case name) failure_word
is_failure_status _ = false

-- `JSON.stringify` is given.
module _ (stringify : Json → Text) where
  unfoldable pub labelled : Text → Json → Text
  labelled name (string message) = name ++ (codes ": " ++ message)
  labelled name value = name ++ (codes ": " ++ stringify value)

  unfoldable pub function_call_reason : Text → Json → Text
  function_call_reason variant (string message) = message
  function_call_reason variant value = variant ++ (codes ": " ++ stringify value)

  -- `Object.entries` reads an array and an object alike.
  unfoldable pub entries_reason : Text → Json → Text → Json → Text
  unfolding labelled function_call_reason
  entries_reason name payload variant message =
      if eq_text name (codes "FunctionCallError")
      then function_call_reason variant message
      else labelled name payload

  unfoldable pub kind_reason : Text → Json → Text
  unfolding entries_reason
  kind_reason name (object (field variant message fields)) =
      entries_reason name (object (field variant message fields)) variant message
  kind_reason name (array (field variant message fields)) =
      entries_reason name (array (field variant message fields)) variant message
  kind_reason name payload = labelled name payload

  unfoldable pub action_reason : Option Json → Option Text
  unfolding kind_reason
  action_reason (some (string kind)) = some kind
  action_reason (some (object (field name payload fields))) = some (kind_reason name payload)
  action_reason (some (array (field name payload fields))) = some (kind_reason name payload)
  action_reason _ = none

  unfoldable pub action_error_reason : Option Json → Option Text
  unfolding action_reason
  action_error_reason (some (object action)) = action_reason (lookup (codes "kind") action)
  action_error_reason _ = none

  unfoldable pub invalid_tx_reason : Option Json → Option Text
  unfolding labelled
  invalid_tx_reason none = none
  invalid_tx_reason (some value) =
      if is_truthy value then some (labelled (codes "InvalidTxError") value) else none

  abbrev pub or : Option Text → Option Text → Option Text
  or none later = later
  or (some reason) later = some reason

  unfoldable pub failure_reason : Option Json → Option Text
  unfolding action_error_reason invalid_tx_reason
  failure_reason none = none
  failure_reason (some null) = none
  failure_reason (some (string reason)) = some reason
  failure_reason (some (object fields)) =
      or (action_error_reason (lookup (codes "ActionError") fields)) (
        or (invalid_tx_reason (lookup (codes "InvalidTxError") fields))
          (some (stringify (object fields))))
  failure_reason (some other) = some (stringify other)

  -- `extractFailureReason`
  unfoldable pub extract_failure_reason : Json → Option Text
  unfolding failure_reason
  extract_failure_reason (object fields) = failure_reason (lookup (codes "Failure") fields)
  extract_failure_reason _ = none

pub record Receipt : Type 0 where
  pub executor_id : Option Text
  pub status : Json

-- What the loops over the receipts find.
pub record Walked : Type 0 where
  pub reached_mpc : Bool
  pub first_failing_executor : Option Text
  pub first_failing_status : Json

-- `executor_id?.trim().toLowerCase() ?? null`
unfoldable pub executor : Receipt → Option Text
executor r = elim r.executor_id [ none ↦ none | some id ↦ some (to_lower_case (trim id)) ]

-- `executor && set.has(executor)`: the empty text is not looked up.
unfoldable pub in_set : List Text → Option Text → Bool
in_set set none = false
in_set set (some []) = false
in_set set (some (c ∷ id)) = has set (c ∷ id)

abbrev pub is_none : Option Text → Bool
is_none none = true
is_none (some t) = false

unfoldable pub walk_receipt : List Text → Receipt → Walked → Walked
unfolding executor in_set
walk_receipt mpc r w =
    let fails = is_none w.first_failing_executor && is_failure_status r.status in
    record {
      reached_mpc = in_set mpc (executor r) || w.reached_mpc;
      first_failing_executor = if fails then executor r else w.first_failing_executor;
      first_failing_status = if fails then r.status else w.first_failing_status;
    }

unfoldable pub walk_receipts : List Text → List Receipt → Walked → Walked
unfolding walk_receipt
walk_receipts mpc [] w = w
walk_receipts mpc (r ∷ receipts) w = walk_receipts mpc receipts (walk_receipt mpc r w)

abbrev pub unwalked : Walked
unwalked = record {
  reached_mpc = false;
  first_failing_executor = none;
  first_failing_status = null;
}

pub data FaOutcome : Type 0 where
  success guard_failure mpc_failure other_failure rpc_pending : FaOutcome

pub record FaClassification : Type 0 where
  pub outcome : FaOutcome
  pub reached_mpc : Option Bool
  pub failing_executor_id : Option Text
  pub failure_reason : Option Text
  pub last_error : Option Text

-- What the tx call answered, or the message of what it threw.
pub data TxStatus : Type 0 where
  answered : List Receipt → Json → TxStatus
  failed : Text → TxStatus

unfoldable pub fa_outcome : List Text → Walked → Bool → FaOutcome
fa_outcome mpc w conversion_failed =
    if is_none w.first_failing_executor && not conversion_failed
    then success
    else if in_set mpc w.first_failing_executor
    then mpc_failure
    else if w.reached_mpc && not (is_none w.first_failing_executor)
    then other_failure
    else guard_failure

module _ (stringify : Json → Text) (mpc : List Text) where
  unfoldable pub reason_of : Walked → Json → Option Text
  unfolding extract_failure_reason
  reason_of w conversion =
      or stringify (extract_failure_reason stringify w.first_failing_status)
        (extract_failure_reason stringify conversion)

  unfoldable pub classify_walked : Walked → Json → FaClassification
  unfolding fa_outcome reason_of
  classify_walked w conversion =
      let none_failed = is_none w.first_failing_executor && not (is_failure_status conversion) in
      record {
        outcome = fa_outcome mpc w (is_failure_status conversion);
        reached_mpc = some (in_set mpc w.first_failing_executor || w.reached_mpc);
        failing_executor_id = w.first_failing_executor;
        failure_reason = if none_failed then none else reason_of w conversion;
        last_error = none;
      }

  -- `classifyTx`
  unfoldable pub classify_tx : TxStatus → FaClassification
  unfolding classify_walked walk_receipts
  classify_tx (failed message) = record {
    outcome = rpc_pending;
    reached_mpc = none;
    failing_executor_id = none;
    failure_reason = none;
    last_error = some message;
  }
  classify_tx (answered receipts conversion) =
      classify_walked (walk_receipts mpc receipts unwalked) conversion
