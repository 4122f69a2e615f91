-- ===== src/NearBlock.antt =====
-- src/modules/near-ingest/near-block.service.ts: the three RPC verbs of the ingest collector, which
-- chunks of a block are fetched, and when a height counts as missing everywhere.
pub mod Agreement
pub mod Tests
use fast_auth_indexer_api.Prelude.{
  ℕ, ◌+◌, ◌-◌, Bool, false, not, ◌&&◌, Option, none, some, List, [], ◌∷◌, ◌++◌, leb, ◌==◌,
  if◌then◌else◌, length, Text, codes, eq_text, includes, print,
}
use fast_auth_indexer_api.Json.{Json}
use fast_auth_indexer_api.Rpc.{Options}
use fast_auth_indexer_api.Rpc.Request.{World, Exhausted, Outcome, Service, request}

-- `result?.header` and `result?.chunks`; a part that is missing is `none`, or no chunks.
pub record ChunkHeader : Type 0 where
  pub chunk_hash : Option Text
  pub height_included : Option ℕ
  pub tx_root : Option Text

pub record Block : Type 0 where
  pub height : Option ℕ
  pub hash : Option Text
  pub timestamp : Option ℕ
  pub chunks : List ChunkHeader

-- A transaction of a chunk, with `outcome?.outcome` taken apart.
pub record ChunkTransaction : Type 0 where
  pub hash : Option Text
  pub signer_id : Option Text
  pub public_key : Option Text
  pub receiver_id : Option Text
  pub actions : Option (List Json)
  pub gas_burnt : Option Json
  pub status : Option Json

abbrev pub near_empty_tx_root : Text
near_empty_tx_root = codes "11111111111111111111111111111111"

abbrev pub is_text : Option Text → Text → Bool
is_text none t = false
is_text (some s) t = eq_text s t

-- Both are known, and they differ.
abbrev pub known_to_differ : Option ℕ → Option ℕ → Bool
known_to_differ (some h) (some i) = not (i == h)
known_to_differ _ _ = false

-- `!chunk.chunk_hash`, or the hash.
abbrev pub non_empty : Option Text → Option Text
non_empty none = none
non_empty (some []) = none
non_empty (some (c ∷ s)) = some (c ∷ s)

abbrev pub prepend_some : Option Text → List Text → List Text
prepend_some none hashes = hashes
prepend_some (some h) hashes = h ∷ hashes

wanted : Option ℕ → ChunkHeader → Option Text
wanted height chunk =
    if is_text chunk.tx_root near_empty_tx_root
    then none
    else if known_to_differ height chunk.height_included
    then none
    else non_empty chunk.chunk_hash

hashes_from : Option ℕ → List ChunkHeader → List Text
hashes_from height [] = []
hashes_from height (c ∷ chunks) = prepend_some (wanted height c) (hashes_from height chunks)

unfoldable pub chunk_hashes_with_transactions : Block → List Text
unfolding hashes_from wanted
chunk_hashes_with_transactions b = hashes_from b.height b.chunks

-- What a fetch throws: the error of an exhausted request, or any other.
pub data Failure : Type 0 where
  exhausted : Exhausted → Failure
  other : Text → Failure

unfoldable pub is_reported_missing_everywhere : Exhausted → Bool
is_reported_missing_everywhere e =
    let missing = length e.unknown_block_endpoints in
    leb 2 missing && leb e.contacted_endpoint_count (missing + 1)

unfoldable pub is_skippable_missing_height_error : Failure → Bool
unfolding is_reported_missing_everywhere
is_skippable_missing_height_error (other message) = false
is_skippable_missing_height_error (exhausted e) =
    includes e.message (codes "block-by-height") && is_reported_missing_everywhere e

unfoldable pub is_unfetchable_everywhere_error : Failure → Bool
unfolding is_reported_missing_everywhere
is_unfetchable_everywhere_error (other message) = false
is_unfetchable_everywhere_error (exhausted e) = is_reported_missing_everywhere e

module _ {ℓ} {A : Type ℓ} (o : Options) (timeout_message : Text) where
  unfoldable pub fetch_final_block : World A → Service → Outcome A × Service
  fetch_final_block = request o (codes "final-block") timeout_message

  unfoldable pub fetch_block_by_height : ℕ → World A → Service → Outcome A × Service
  fetch_block_by_height height =
      request o (codes "block-by-height " ++ print height) timeout_message

  unfoldable pub fetch_chunk_by_hash : Text → World A → Service → Outcome A × Service
  fetch_chunk_by_hash hash = request o (codes "chunk-by-hash " ++ hash) timeout_message
