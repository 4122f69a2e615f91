-- ===== src/Checkpoints.antt =====
-- src/modules/common/checkpoints/checkpoints.service.ts: the table `indexer_checkpoints`, a map from
-- keys to texts. The keys are the constants that the services declare. The database calls succeed.
pub mod Laws
use fast_auth_indexer_api.Prelude.{
  ℕ, Text, Option, none, some, List, [], ◌∷◌, ◌==◌, if◌then◌else◌, number, print,
}

pub data Key : Type 0 where
  near_last_final_block_height near_last_final_block_hash near_last_scanned_height : Key
  near_chain_head_height near_chain_head_hash near_backfill_start_origin : Key
  fastauth_contract_state_last_run_at fastauth_orphan_retry_last_run_at : Key

abbrev pub key_id : Key → ℕ
key_id near_last_final_block_height = 0
key_id near_last_final_block_hash = 1
key_id near_last_scanned_height = 2
key_id near_chain_head_height = 3
key_id near_chain_head_hash = 4
key_id near_backfill_start_origin = 5
key_id fastauth_contract_state_last_run_at = 6
key_id fastauth_orphan_retry_last_run_at = 7

abbrev pub Checkpoints : Type 0
Checkpoints = Key → Option Text

pub record Entry : Type 0 where
  pub key : Key
  pub value : Text

abbrev pub empty : Checkpoints
empty key = none

unfoldable pub get : Key → Checkpoints → Option Text
get key s = s key

unfoldable pub get_number : Key → Checkpoints → Option ℕ
unfolding get
get_number key s = elim (get key s) [ none ↦ none | some value ↦ number value ]

unfoldable pub set : Key → Text → Checkpoints → Checkpoints
set key value s k = if key_id key == key_id k then some value else s k

-- One upsert of several rows; an empty list is no call.
unfoldable pub set_many : List Entry → Checkpoints → Checkpoints
unfolding set
set_many [] s = s
set_many (e ∷ entries) s = set_many entries (set e.key e.value s)

unfoldable pub set_number : Key → ℕ → Checkpoints → Checkpoints
unfolding set
set_number key value s = set key (print value) s

unfoldable pub delete : Key → Checkpoints → Checkpoints
delete key s k = if key_id key == key_id k then none else s k
