-- ===== src/SignEvents.antt =====
-- src/modules/near-ingest/sign-event-derivator.ts: the sign events within a transaction that calls a
-- FastAuth contract.
pub mod Provider
pub mod Calls
pub mod Laws
pub mod Parsing
use fast_auth_indexer_api.Prelude.{
  ℕ, ◌+◌, Bool, true, false, Option, none, some, List, [], ◌∷◌, ◌++◌, if◌then◌else◌, Text, codes,
  to_lower_case, trim, has, print, ◌>>=◌,
}
use fast_auth_indexer_api.Json.{Json, Fields, lookup, as_string}
use fast_auth_indexer_api.NearBlock.{ChunkTransaction, non_empty}
use fast_auth_indexer_api.Conversion.{
  Runtime, Execution, to_date_from_near_ns, is_likely_near_account_id,
}
use fast_auth_indexer_api.Decode.{or_else, decode_sign_action_type, decode_sign_delegate_public_key}
use fast_auth_indexer_api.SignEvents.Provider.{resolve_provider_type, to_mpc_domain_id}
use fast_auth_indexer_api.SignEvents.Parsing.{
  Payload, parse_jwt_sub, parse_sign_payload, sign_payload_bytes, extract_project_dapp_id,
  extract_sponsored_account,
}
use fast_auth_indexer_api.SignEvents.Calls.{sign_call, arg, text_arg, payload_arg, call_args}

-- `FastAuthSignEventSeed`; the derived key is not known yet, so the seed has none.
pub record SignEvent : Type 0 where
  pub tx_hash : Text
  pub action_index : ℕ
  pub block_height : Text
  pub block_timestamp : ℕ
  pub relayer_account_id : Text
  pub relayer_public_key : Option Text
  pub fast_auth_contract_id : Text
  pub guard_id : Option Text
  pub guard_name : Option Text
  pub provider_type : Text
  pub algorithm : Option Text
  pub user_sub : Option Text
  pub user_key_path : Option Text
  pub user_domain_id : Option ℕ
  pub user_derived_public_key : Option Text
  pub sign_action_type : Option Text
  pub project_dapp_id : Option Text
  pub sponsored_account_id : Option Text
  pub sponsored_account_hash : Option Text
  pub verify_payload_hash : Option Text
  pub sign_payload_json : Option Json
  pub execution : Execution
  pub gas_burnt : Option Text
  pub attached_deposit_yocto : Option Text

-- What the events of one transaction share.
pub record CallContext : Type 0 where
  pub tx_hash : Text
  pub block_height : ℕ
  pub block_timestamp : ℕ
  pub relayer_account_id : Text
  pub relayer_public_key : Option Text
  pub fast_auth_contract_id : Text
  pub execution : Execution
  pub gas_burnt : Option ℕ

unfoldable pub key_path : Option Text → Option Text → Option Text
key_path guard_id user_sub = do
  guard ← non_empty guard_id
  sub ← non_empty user_sub
  some (trim guard ++ codes "#" ++ sub)

unfoldable pub sponsored_id : Option Text → Option Text
sponsored_id candidate = do
  id ← non_empty candidate
  if is_likely_near_account_id id then some (to_lower_case (trim id)) else none

unfoldable pub hashed : Runtime → Option Text → Option Text
hashed rt t = do value ← non_empty t; some (rt.sha256 value)

unfoldable pub option_print : Option ℕ → Option Text
option_print n = do value ← n; some (print value)

-- `seeds` and `inlinePublicKeys`
pub record Derived : Type 0 where
  pub seeds : List SignEvent
  pub inline_public_keys : List Text

unfoldable pub push : SignEvent × Option Text → Derived → Derived
push (event, none) later = record later { seeds = event ∷ later.seeds }
push (event, some key) later = record {
  seeds = event ∷ later.seeds;
  inline_public_keys = key ∷ later.inline_public_keys;
}

abbrev pub nothing_derived : Derived
nothing_derived = record { seeds = []; inline_public_keys = [] }

-- What the caller knows of the transaction.
pub record Surroundings : Type 0 where
  pub block_height : ℕ
  pub block_timestamp : ℕ
  pub execution : Execution
  pub gas_burnt : Option ℕ
  pub relayer_public_key : Option Text

-- `id?.trim().toLowerCase() ?? null`
unfoldable pub normalized_id : Option Text → Option Text
normalized_id none = none
normalized_id (some id) = some (to_lower_case (trim id))

module _ (rt : Runtime) where
  -- The seed from the parts of the arguments.
  unfoldable pub seed :
      CallContext → ℕ → Fields → Option Fields → Option Json → Payload → Option Text → SignEvent
  unfolding text_arg arg key_path sponsored_id hashed option_print
  seed ctx action_index call args payload parsed user_sub =
      let guard_id = text_arg (codes "guard_id") (codes "guardId") args in
      let algorithm = as_string (arg (codes "algorithm") args) in
      let provider = resolve_provider_type rt guard_id in
      let candidate = or_else (extract_sponsored_account parsed.payload_object) user_sub in
      record {
        tx_hash = ctx.tx_hash;
        action_index = action_index;
        block_height = print ctx.block_height;
        block_timestamp = ctx.block_timestamp;
        relayer_account_id = ctx.relayer_account_id;
        relayer_public_key = ctx.relayer_public_key;
        fast_auth_contract_id = ctx.fast_auth_contract_id;
        guard_id = guard_id;
        guard_name = provider.guard_name;
        provider_type = provider.provider_type;
        algorithm = algorithm;
        user_sub = user_sub;
        user_key_path = key_path guard_id user_sub;
        user_domain_id = to_mpc_domain_id algorithm;
        user_derived_public_key = none;
        sign_action_type = decode_sign_action_type (sign_payload_bytes rt payload);
        project_dapp_id = extract_project_dapp_id parsed.payload_object;
        sponsored_account_id = sponsored_id candidate;
        sponsored_account_hash = hashed rt candidate;
        verify_payload_hash =
            hashed rt (text_arg (codes "verify_payload") (codes "verifyPayload") args);
        sign_payload_json = parsed.payload_json;
        execution = ctx.execution;
        gas_burnt = option_print ctx.gas_burnt;
        attached_deposit_yocto = as_string (lookup (codes "deposit") call);
      }

  -- The round of the loop for a call of `sign`: the seed, and the key within its payload.
  unfoldable pub sign_event : CallContext → ℕ → Fields → SignEvent × Option Text
  unfolding seed payload_arg call_args text_arg
  sign_event ctx action_index call =
      let args = call_args rt (as_string (lookup (codes "args") call)) in
      let payload = payload_arg args in
      let sub = parse_jwt_sub rt (text_arg (codes "verify_payload") (codes "verifyPayload") args) in
      (
        seed ctx action_index call args payload (parse_sign_payload rt payload) sub,
        decode_sign_delegate_public_key (sign_payload_bytes rt payload),
      )

  -- The loop over the actions, from an index on.
  unfoldable pub derive_from : CallContext → ℕ → List Json → Derived
  derive_from ctx i [] = nothing_derived
  derive_from ctx i (action ∷ actions) =
      let later = derive_from ctx (i + 1) actions in
      elim (sign_call action) [ none ↦ later | some call ↦ push (sign_event ctx i call) later ]

  unfoldable pub derive_known : CallContext → Bool → Option (List Json) → Derived
  unfolding derive_from
  derive_known ctx false actions = nothing_derived
  derive_known ctx true none = nothing_derived
  derive_known ctx true (some actions) = derive_from ctx 0 actions

  -- `deriveFastAuthSignEvents`, from the receiver, the signer and the hash.
  unfoldable pub derive_named :
      List Text
      → Surroundings
      → ChunkTransaction
      → Option Text
      → Option Text
      → Option Text
      → Derived
  unfolding derive_known
  derive_named contracts at tx (some receiver) (some relayer) (some hash) =
      derive_known
        (record {
          tx_hash = hash;
          block_height = at.block_height;
          block_timestamp = at.block_timestamp;
          relayer_account_id = relayer;
          relayer_public_key = at.relayer_public_key;
          fast_auth_contract_id = receiver;
          execution = at.execution;
          gas_burnt = at.gas_burnt;
        })
        (has contracts receiver) tx.actions
  derive_named contracts at tx _ _ _ = nothing_derived

  unfoldable pub derive_fast_auth_sign_events :
      List Text → Surroundings → ChunkTransaction → Derived
  unfolding derive_named normalized_id
  derive_fast_auth_sign_events contracts at tx =
      derive_named contracts at tx (non_empty (normalized_id tx.receiver_id))
        (non_empty (normalized_id tx.signer_id)) (non_empty tx.hash)
