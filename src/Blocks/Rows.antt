-- ===== src/Blocks/Rows.antt =====
-- The rows that near-ingest.service.ts makes of a block, and the maps that it gathers them in.
use fast_auth_indexer_api.Prelude.{ℕ, Bool, Option, List, [], ◌∷◌, ◌++◌, Text, codes, add, print}
use fast_auth_indexer_api.Conversion.{Execution}
use fast_auth_indexer_api.SignEvents.{SignEvent}
use fast_auth_indexer_api.Tables.{put}

-- Amounts in US dollars as they are printed.
pub record TokenMovement : Type 0 where
  pub symbol : Text
  pub decimals : ℕ
  pub raw_amount : Text
  pub value_usd : Text

pub record ComputedTxValue : Type 0 where
  pub total_usd : Option Text
  pub tokens : List TokenMovement

pub record NearTxRow : Type 0 where
  pub block_height : Text
  pub block_timestamp : ℕ
  pub signer_account_id : Option Text
  pub signer_public_key : Option Text
  pub receiver_id : Text
  pub method_name : Option Text
  pub execution : Execution
  pub gas_burnt : Option Text
  pub attached_deposit_yocto : Option Text

pub record UserTxRow : Type 0 where
  pub block_height : Text
  pub block_timestamp : ℕ
  pub signer_account_id : Text
  pub signer_public_key : Option Text
  pub receiver_id : Text
  pub method_name : Option Text
  pub action_types : List Text
  pub meta_wrapped : Bool
  pub relayer_account_id : Option Text
  pub computed : ComputedTxValue
  pub execution : Execution
  pub gas_burnt : Option Text

-- The maps and the sets that the classification of a block fills; a row's key is its hash, for a sign
-- event its hash and its index.
pub record Found : Type 0 where
  pub unique_transactions : List (Text × NearTxRow)
  pub unique_sign_events : List (Text × SignEvent)
  pub unique_user_txs : List (Text × UserTxRow)
  pub fast_auth_pub_key_set : List Text
  pub inline_pub_key_discoveries : List Text

-- `${seed.txHash}:${seed.actionIndex}`
unfoldable pub event_key : Text → ℕ → Text
event_key hash index = hash ++ codes ":" ++ print index

unfoldable pub put_events : List SignEvent → List (Text × SignEvent) → List (Text × SignEvent)
unfolding event_key put
put_events [] events = events
put_events (seed ∷ seeds) events =
    put_events seeds (put (event_key seed.tx_hash seed.action_index) seed events)

unfoldable pub add_all : List Text → List Text → List Text
unfolding add
add_all [] set = set
add_all (key ∷ keys) set = add_all keys (add key set)
