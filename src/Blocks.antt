-- ===== src/Blocks.antt =====
-- src/modules/near-ingest/near-ingest.service.ts: what the collector does with the chunks of one block.
-- This file holds `classifyTransaction`; the valuation of src/modules/common/pricing is the interface
-- `compute_actions_value`, with the registry of the run.
pub mod Rows
pub mod Probes
pub mod Store
pub mod Keys
pub mod Laws
pub mod Stored
pub mod Persisting
pub mod Indexing
pub mod Tests
pub mod Events
pub mod Routes
pub mod Answered
pub mod Exactness
pub mod Accounts
pub mod Probing
pub mod EndToEnd
use fast_auth_indexer_api.Prelude.{
  ℕ, Bool, true, false, not, ◌&&◌, Option, none, some, List, [], ◌∷◌, if◌then◌else◌, Text,
  to_lower_case, trim, has, print, ◌>>=◌,
}
use fast_auth_indexer_api.Json.{Json}
use fast_auth_indexer_api.NearBlock.{ChunkTransaction, non_empty}
use fast_auth_indexer_api.Conversion.{
  Runtime, Execution, to_date_from_near_ns, to_nullable_big_int, normalize_near_public_key,
  parse_execution_status, parse_action_metadata, is_empty,
}
use fast_auth_indexer_api.Conversion.Delegate.{
  DelegateActionInfo, action_types, extract_delegate_action_info,
}
use fast_auth_indexer_api.Decode.{or_else}
use fast_auth_indexer_api.Health.{in_set}
use fast_auth_indexer_api.SignEvents.{
  SignEvent, Surroundings, Derived, option_print, normalized_id, derive_fast_auth_sign_events,
}
use fast_auth_indexer_api.Blocks.Rows.{
  ComputedTxValue, NearTxRow, UserTxRow, Found, put_events, add_all,
}
use fast_auth_indexer_api.Tables.{put, contains}

-- `id !== null && set.has(id)`
unfoldable pub known : List Text → Option Text → Bool
known set none = false
known set (some id) = has set id

unfoldable pub option_trim : Option Text → Option Text
option_trim none = none
option_trim (some id) = some (trim id)

-- `Array.isArray(actions) ? actions : []`
abbrev pub listed : Option (List Json) → List Json
listed none = []
listed (some actions) = actions

abbrev pub actions_of : ChunkTransaction → List Json
actions_of tx = listed tx.actions

module _ (rt : Runtime) (fast_auth_contract_set : List Text)
    (compute_actions_value : List Json → Text → ComputedTxValue) (now : ℕ) where
  -- The height and the timestamp of the block.
  module _ (block_height : ℕ) (block_timestamp : Option ℕ) where
    abbrev pub surroundings : ChunkTransaction → Surroundings
    surroundings tx = record {
      block_height = block_height;
      block_timestamp = to_date_from_near_ns now block_timestamp;
      execution = parse_execution_status rt tx.status;
      gas_burnt = to_nullable_big_int tx.gas_burnt;
      relayer_public_key = normalize_near_public_key tx.public_key;
    }

    unfoldable pub near_tx_row : ChunkTransaction → Text → NearTxRow
    near_tx_row tx receiver =
        let metadata = parse_action_metadata tx.actions in
        record {
          block_height = print block_height;
          block_timestamp = to_date_from_near_ns now block_timestamp;
          signer_account_id = tx.signer_id;
          signer_public_key = normalize_near_public_key tx.public_key;
          receiver_id = receiver;
          method_name = metadata.method_name;
          execution = parse_execution_status rt tx.status;
          gas_burnt = option_print (to_nullable_big_int tx.gas_burnt);
          attached_deposit_yocto = metadata.attached_deposit_yocto;
        }

    -- Path 1: the receiver is a FastAuth contract.
    unfoldable pub store_call : ChunkTransaction → Text → Text → Found → Found
    unfolding near_tx_row put_events add_all
    store_call tx hash receiver f =
        let derived = derive_fast_auth_sign_events rt fast_auth_contract_set (surroundings tx) tx in
        record f {
          unique_transactions = put hash (near_tx_row tx receiver) f.unique_transactions;
          unique_sign_events = put_events derived.seeds f.unique_sign_events;
          fast_auth_pub_key_set = add_all derived.inline_public_keys f.fast_auth_pub_key_set;
          inline_pub_key_discoveries =
              add_all derived.inline_public_keys f.inline_pub_key_discoveries;
        }

    unfoldable pub path_1 : ChunkTransaction → Text → Found → Found
    unfolding store_call
    path_1 tx hash f =
        if in_set fast_auth_contract_set (normalized_id tx.receiver_id)
        then elim (normalized_id tx.receiver_id) [
          | none ↦ f
          | some receiver ↦ store_call tx hash receiver f
        ]
        else f

    -- Path 3 (a): the row of a transaction that a FastAuth account signed.
    unfoldable pub direct_row : ChunkTransaction → Text → Text → UserTxRow
    direct_row tx signer receiver = record {
      block_height = print block_height;
      block_timestamp = to_date_from_near_ns now block_timestamp;
      signer_account_id = signer;
      signer_public_key = normalize_near_public_key tx.public_key;
      receiver_id = receiver;
      method_name = (parse_action_metadata tx.actions).method_name;
      action_types = action_types (actions_of tx);
      meta_wrapped = false;
      relayer_account_id = none;
      computed = compute_actions_value (actions_of tx) receiver;
      execution = parse_execution_status rt tx.status;
      gas_burnt = option_print (to_nullable_big_int tx.gas_burnt);
    }

    -- Path 3 (b): the row of a meta-transaction.
    unfoldable pub meta_row : ChunkTransaction → DelegateActionInfo → UserTxRow
    meta_row tx info =
        let receiver = to_lower_case info.inner_receiver_id in
        record {
          block_height = print block_height;
          block_timestamp = to_date_from_near_ns now block_timestamp;
          signer_account_id = to_lower_case info.inner_signer_id;
          signer_public_key = some info.inner_public_key;
          receiver_id = receiver;
          method_name = info.inner_method_name;
          action_types = info.inner_action_types;
          meta_wrapped = true;
          relayer_account_id = normalized_id tx.signer_id;
          computed = compute_actions_value info.inner_actions receiver;
          execution = parse_execution_status rt tx.status;
          gas_burnt = option_print (to_nullable_big_int tx.gas_burnt);
        }

    module _ (fast_auth_account_set : List Text) where
      unfoldable pub is_user_delegate : DelegateActionInfo → Bool
      is_user_delegate info =
          not (is_empty (to_lower_case info.inner_signer_id))
          && has fast_auth_account_set (to_lower_case info.inner_signer_id)

      -- The row of a transaction on path 3, if it has one.
      unfoldable pub direct_user_row : ChunkTransaction → Option UserTxRow
      unfolding direct_row option_trim
      direct_user_row tx = do
        signer ← normalized_id tx.signer_id
        receiver ← non_empty (or_else (normalized_id tx.receiver_id) (option_trim tx.receiver_id))
        some (direct_row tx signer receiver)

      unfoldable pub meta_user_row : ChunkTransaction → Option UserTxRow
      unfolding meta_row is_user_delegate
      meta_user_row tx = do
        info ← extract_delegate_action_info tx.actions
        if is_user_delegate info then some (meta_row tx info) else none

      unfoldable pub put_direct : Text → Option UserTxRow → Found → Found
      put_direct hash none f = f
      put_direct hash (some row) f = record f { unique_user_txs = put hash row f.unique_user_txs }

      -- A meta-transaction does not replace a row.
      unfoldable pub put_meta : Text → Option UserTxRow → Found → Found
      unfolding put_direct
      put_meta hash row f = if contains f.unique_user_txs hash then f else put_direct hash row f

      unfoldable pub path_3 : ChunkTransaction → Text → Found → Found
      unfolding put_meta put_direct direct_user_row meta_user_row known
      path_3 tx hash f =
          if known fast_auth_contract_set (normalized_id tx.receiver_id)
          then f
          else if in_set fast_auth_account_set (normalized_id tx.signer_id)
          then put_direct hash (direct_user_row tx) f
          else put_meta hash (meta_user_row tx) f

      -- `classifyTransaction`
      unfoldable pub classify_transaction : ChunkTransaction → Found → Found
      unfolding path_1 path_3
      classify_transaction tx f = elim (non_empty tx.hash) [
        | none ↦ f
        | some hash ↦ path_3 tx hash (path_1 tx hash f)
      ]

      unfoldable pub classify_transactions : List ChunkTransaction → Found → Found
      unfolding classify_transaction
      classify_transactions [] f = f
      classify_transactions (tx ∷ txs) f = classify_transactions txs (classify_transaction tx f)

      -- The loop over the chunks of the block.
      unfoldable pub classify_chunks : List (List ChunkTransaction) → Found → Found
      unfolding classify_transactions
      classify_chunks [] f = f
      classify_chunks (txs ∷ chunks) f = classify_chunks chunks (classify_transactions txs f)
