-- ===== src/Blocks/Tests.antt =====
-- Tests of the work on a block of near-ingest.service.ts, and the concrete cases of its theorems.
use fast_auth_indexer_api.Prelude.{
  ℕ, ◌-◌, ◌/◌, ◌≡◌, refl, ◌⊎◌, true, false, Option, none, some, List, [], ◌∷◌, if◌then◌else◌, Text,
  codes, eq_text, to_lower_case, trim,
}
use fast_auth_indexer_api.Prelude.{get_elem?}
use fast_auth_indexer_api.Json.{Json, null, string, object, Fields, end, field}
use fast_auth_indexer_api.NearBlock.{Block, ChunkTransaction, chunk_hashes_with_transactions}
use fast_auth_indexer_api.Conversion.{Runtime}
use fast_auth_indexer_api.Health.{in_set}
use fast_auth_indexer_api.Ingest.{
  returned, Counts, Node, Walk, no_stats, has_height, walk_heights, run_heights, retry_holes,
  process_block_height, fetch_payload, index_payload, fetch_chunks, store_block, after_index,
  complete_height, note_failure,
}
use fast_auth_indexer_api.Ingest.Lasting.{IsKept}
use fast_auth_indexer_api.SignEvents.{
  SignEvent, CallContext, normalized_id, sign_event, derive_from, seed,
}
use fast_auth_indexer_api.SignEvents.Calls.{sign_call}
use fast_auth_indexer_api.SignEvents.Laws.{called}
use fast_auth_indexer_api.Tables.{find}
use fast_auth_indexer_api.Blocks.Rows.{ComputedTxValue, Found, event_key, put_events}
use fast_auth_indexer_api.Blocks.Store.{
  Store, index_block, found_in, nothing_found, height_of, probe, block_candidates, no_candidates,
}
use fast_auth_indexer_api.Blocks.Probing.{Agrees, AllNormal}
use fast_auth_indexer_api.Blocks.Indexing.{HasRows, index_block-HasRows}
use fast_auth_indexer_api.Blocks.Answered.{index_block-IsExact}
use fast_auth_indexer_api.Blocks.EndToEnd.{collector_indexer, rows_promised, walk_heights-stores}
use fast_auth_indexer_api.Blocks.Events.{put_events-keeps_all}
use fast_auth_indexer_api.Blocks.Routes.{IsUserOnly, classify_transaction-IsRouted}
use fast_auth_indexer_api.Blocks.{classify_transaction, classify_chunks}

abbrev pair : Text → Json → Fields → Fields
pair = field

abbrev sign_args : Json
sign_args = object (
    field (codes "guard_id") (string (codes "jwt#https://acme.auth0.com/"))
      (field (codes "algorithm") (string (codes "eddsa")) end))

-- Base64 is the identity here.
abbrev test_runtime : Runtime
test_runtime = record {
  parse = λ s. if eq_text s (codes "ARGS") then some sign_args else none;
  stringify = λ value. codes "json";
  from_base64 = λ s. s;
  from_utf8 = λ bytes. bytes;
  to_number = λ value. none;
  hostname = λ s. none;
  sha256 = λ s. s;
}

abbrev sign_action : Json
sign_action = object (
    field (codes "FunctionCall")
      (object (
        field (codes "method_name") (string (codes "sign"))
          (field (codes "args") (string (codes "ARGS")) end)))
      end)

abbrev transfer : Json
transfer = object (field (codes "Transfer") (object end) end)

abbrev fa_tx : ChunkTransaction
fa_tx = record {
  hash = some (codes "h1");
  signer_id = some (codes "Relay.near");
  public_key = none;
  receiver_id = some (codes " FA.near");
  actions = some (transfer ∷ sign_action ∷ []);
  gas_burnt = none;
  status = some (object (field (codes "Failure") null end));
}

abbrev user_tx : ChunkTransaction
user_tx = record {
  hash = some (codes "h2");
  signer_id = some (codes "alice.near");
  public_key = none;
  receiver_id = some (codes "shop.near");
  actions = none;
  gas_burnt = none;
  status = none;
}

abbrev chunks : List (List ChunkTransaction)
chunks = (fa_tx ∷ user_tx ∷ []) ∷ []

abbrev contracts : List Text
contracts = codes "fa.near" ∷ []

abbrev no_value : List Json → Text → ComputedTxValue
no_value actions receiver = record { total_usd = none; tokens = [] }

abbrev empty_store : Store
empty_store = record {
  near_transactions = [];
  sign_events = [];
  user_txs = [];
  public_key_accounts = codes "alice.near" ∷ [];
  pub_key_checked = [];
  account_checked = [];
  batch_inline_pub_keys = [];
  statements = 0;
}

abbrev block : Block
block = record {
  height = some 7;
  hash = some (codes "b7");
  timestamp = some 1_700_000_000_000_000_000;
  chunks = record { chunk_hash = some (codes "c1"); height_included = some 7; tx_root = none } ∷ [];
}

alice_normal : AllNormal (codes "alice.near" ∷ [])
unfolding to_lower_case trim
alice_normal = (refl, tt)

-- Every statement is answered.
abbrev no_fault : ℕ → Option Text
no_fault statement = none

abbrev no_identifiers : ℕ → Option ℕ
no_identifiers statement = none

abbrev one_of_each : Counts
one_of_each = record { transactions = 1; sign_events = 1; user_txs = 1 }

indexed :
    (index_block no_fault no_identifiers test_runtime contracts no_value 5 7 block chunks
      empty_store).0
    ≡ returned one_of_each
unfolding fast_auth_indexer_api.Json.member fast_auth_indexer_api.Json.object_like
    fast_auth_indexer_api.Json.as_string fast_auth_indexer_api.Conversion.parse_json_object
    fast_auth_indexer_api.Conversion.Delegate.extract_delegate_action_info
    fast_auth_indexer_api.SignEvents.push fast_auth_indexer_api.SignEvents.sign_event
    fast_auth_indexer_api.SignEvents.derive_fast_auth_sign_events
    fast_auth_indexer_api.SignEvents.Calls.sign_call
    fast_auth_indexer_api.SignEvents.Parsing.present
    fast_auth_indexer_api.SignEvents.Parsing.sign_payload_bytes
    fast_auth_indexer_api.Blocks.Probes.known_of fast_auth_indexer_api.Blocks.Probes.probed
    fast_auth_indexer_api.Blocks.Store.block_candidates fast_auth_indexer_api.Blocks.Store.counts_of
    fast_auth_indexer_api.Blocks.Store.bulk_insert fast_auth_indexer_api.Blocks.Store.index_block
    fast_auth_indexer_api.Blocks.classify_chunks fast_auth_indexer_api.Prelude.to_lower_case
    fast_auth_indexer_api.Prelude.trim fast_auth_indexer_api.Health.in_set
    fast_auth_indexer_api.Decode.or_else
    fast_auth_indexer_api.Decode.decode_sign_delegate_public_key
indexed = refl

-- The call is the second action of its transaction.
abbrev call_context : CallContext
call_context = record {
  tx_hash = codes "h1";
  block_height = 7;
  block_timestamp = 0;
  relayer_account_id = codes "relay.near";
  relayer_public_key = none;
  fast_auth_contract_id = codes "fa.near";
  execution = record { execution_status = none; failure_reason = none };
  gas_burnt = none;
}

abbrev two_actions : List Json
two_actions = transfer ∷ sign_action ∷ []

abbrev sign_fields : Fields
sign_fields =
    field (codes "method_name") (string (codes "sign"))
      (field (codes "args") (string (codes "ARGS")) end)

abbrev sample_event : SignEvent
sample_event = (sign_event test_runtime call_context 1 sign_fields).0

is_called : called test_runtime call_context 1 (get_elem? two_actions 1) ≡ some sample_event
unfolding sign_call fast_auth_indexer_api.Json.lookup eq_text fast_auth_indexer_api.Json.as_string
is_called = refl

put_events-keeps_all_example :
    find
      (put_events (derive_from test_runtime call_context 0 two_actions).seeds [])
      (event_key (codes "h1") 1)
    ≡ some sample_event
put_events-keeps_all_example =
    put_events-keeps_all test_runtime call_context two_actions [] 1 sample_event is_called

abbrev no_found : Found
no_found = record {
  unique_transactions = [];
  unique_sign_events = [];
  unique_user_txs = [];
  fast_auth_pub_key_set = [];
  inline_pub_key_discoveries = [];
}

classify_transaction-IsRouted_example :
    let g =
      classify_transaction test_runtime contracts no_value 5 7 none
        (codes "alice.near" ∷ [])
        user_tx
        no_found in
    ((in_set contracts (normalized_id user_tx.receiver_id) ≡ true) × (g.unique_user_txs ≡ []))
    ⊎ ((in_set contracts (normalized_id user_tx.receiver_id) ≡ false)
        × IsUserOnly test_runtime contracts no_value 5 7 none (codes "alice.near" ∷ []) no_found g)
classify_transaction-IsRouted_example =
    classify_transaction-IsRouted test_runtime contracts no_value 5 7 none (codes "alice.near" ∷ [])
      user_tx no_found

index_block-IsExact_example :
    let c = block_candidates chunks no_candidates in
    let asked = probe no_fault no_identifiers c empty_store in
    (found_in no_fault no_identifiers test_runtime contracts no_value 5 7 block chunks asked
      ≡ classify_chunks test_runtime contracts no_value 5
          (height_of 7 block.height)
          block.timestamp
          empty_store.public_key_accounts
          chunks
          (nothing_found no_fault no_identifiers test_runtime contracts no_value 5 c asked))
    × Agrees empty_store.public_key_accounts
        (index_block no_fault no_identifiers test_runtime contracts no_value 5 7 block chunks
          empty_store).1.account_checked
index_block-IsExact_example =
    index_block-IsExact no_fault no_identifiers test_runtime contracts no_value 5 7 block chunks
      empty_store refl alice_normal tt

abbrev one_block_node : Node (List ChunkTransaction)
one_block_node = record {
  fetch_block_by_height = λ round h. returned block;
  fetch_chunk_by_hash = λ round hash. returned (fa_tx ∷ user_tx ∷ []);
}

abbrev first_walk : Walk Store
first_walk = record {
  stats = no_stats;
  completed_heights = [];
  height_errors = [];
  db = empty_store;
}

completed :
    has_height
      (walk_heights
        (collector_indexer no_fault no_identifiers test_runtime contracts no_value 5)
        one_block_node
        9
        block
        (7 ∷ [])
        first_walk).1.completed_heights
      7
    ≡ true
unfolding walk_heights run_heights retry_holes process_block_height fetch_payload index_payload
    fetch_chunks store_block after_index complete_height note_failure has_height
    chunk_hashes_with_transactions fast_auth_indexer_api.Json.member
    fast_auth_indexer_api.Json.object_like fast_auth_indexer_api.Json.as_string
    fast_auth_indexer_api.Conversion.parse_json_object
    fast_auth_indexer_api.Conversion.Delegate.extract_delegate_action_info
    fast_auth_indexer_api.SignEvents.push fast_auth_indexer_api.SignEvents.sign_event
    fast_auth_indexer_api.SignEvents.derive_fast_auth_sign_events
    fast_auth_indexer_api.SignEvents.Calls.sign_call
    fast_auth_indexer_api.SignEvents.Parsing.present
    fast_auth_indexer_api.SignEvents.Parsing.sign_payload_bytes
    fast_auth_indexer_api.Blocks.Probes.known_of fast_auth_indexer_api.Blocks.Probes.probed
    fast_auth_indexer_api.Blocks.Store.block_candidates fast_auth_indexer_api.Blocks.Store.counts_of
    fast_auth_indexer_api.Blocks.Store.bulk_insert fast_auth_indexer_api.Blocks.Store.index_block
    fast_auth_indexer_api.Blocks.classify_chunks fast_auth_indexer_api.Prelude.to_lower_case
    fast_auth_indexer_api.Prelude.trim fast_auth_indexer_api.Health.in_set
    fast_auth_indexer_api.Decode.or_else
    fast_auth_indexer_api.Decode.decode_sign_delegate_public_key
completed = refl

walk_heights-stores_example :
    let ix = collector_indexer no_fault no_identifiers test_runtime contracts no_value 5 in
    IsKept ix
      (rows_promised no_fault no_identifiers test_runtime contracts no_value 5)
      one_block_node
      9
      block
      7
      (walk_heights ix one_block_node 9 block (7 ∷ []) first_walk).1.db
walk_heights-stores_example =
    walk_heights-stores no_fault no_identifiers test_runtime contracts no_value 5 one_block_node 9
      block (7 ∷ []) first_walk 7 refl completed

index_block-HasRows_example :
    HasRows no_fault no_identifiers test_runtime contracts no_value 5 chunks
      (index_block no_fault no_identifiers test_runtime contracts no_value 5 7 block chunks
        empty_store).1
index_block-HasRows_example =
    index_block-HasRows no_fault no_identifiers test_runtime contracts no_value 5 7 block chunks
      empty_store one_of_each indexed
