-- ===== src/Blocks/Accounts.antt =====
-- The accounts that a transaction names, by which near-ingest.service.ts asks the database, and that its
-- classification looks at no others.
use fast_auth_indexer_api.Prelude.{
  ◌≡◌, inl, inr, ◌||◌, Option, none, some, List, [], ◌∷◌, ◌++◌, arith, Option-cases, Text, codes,
  has-add, has-append, trim, trim-trim, has, bind-some,
}
use fast_auth_indexer_api.Json.{Json, as_string, member, object_like}
use fast_auth_indexer_api.NearBlock.{ChunkTransaction, non_empty}
use fast_auth_indexer_api.Conversion.Delegate.{
  DelegateActionInfo, info_of, array_items, delegate_info, first_delegate,
  extract_delegate_action_info,
}
use fast_auth_indexer_api.SignEvents.{normalized_id}
use fast_auth_indexer_api.Blocks.Stored.{keys_of, block_keys}
use fast_auth_indexer_api.Blocks.Store.{
  Candidates, add_some, note_delegate, note_candidates, candidates_of, block_candidates,
}

abbrev pub as_list : Option Text → List Text
as_list none = []
as_list (some id) = id ∷ []

abbrev pub delegate_id : Option DelegateActionInfo → Option Text
delegate_id none = none
delegate_id (some info) = normalized_id (non_empty (some info.inner_signer_id))

-- The signer, and the sender of a delegate action.
unfoldable pub account_ids : ChunkTransaction → List Text
account_ids tx =
    as_list (normalized_id (non_empty tx.signer_id))
    ++ as_list (delegate_id (extract_delegate_action_info tx.actions))

has-add_some :
    (id : Option Text) (set : List Text) (x : Text)
    → has (add_some id set) x ≡ (has set x || has (as_list id) x)
unfolding add_some has
has-add_some none set x = ground arith
has-add_some (some id) set x = ground (arith, has-add id x set)

has-note_delegate :
    (info : Option DelegateActionInfo) (c : Candidates) (x : Text)
    → has (note_delegate info c).accounts x
      ≡ (has c.accounts x || has (as_list (delegate_id info)) x)
unfolding note_delegate has
has-note_delegate none c x = ground arith
has-note_delegate (some info) c x =
    has-add_some (normalized_id (non_empty (some info.inner_signer_id))) c.accounts x

has-note_candidates :
    (tx : ChunkTransaction) (c : Candidates) (x : Text)
    → has (note_candidates tx c).accounts x ≡ (has c.accounts x || has (account_ids tx) x)
unfolding note_candidates account_ids
has-note_candidates tx c x =
    let signer = normalized_id (non_empty tx.signer_id) in
    let info = extract_delegate_action_info tx.actions in
    ground (
      arith,
      has-note_delegate info (record c { accounts = add_some signer c.accounts }) x,
      has-add_some signer c.accounts x,
      has-append (as_list signer) (as_list (delegate_id info)) x,
    )

has-candidates_of :
    (txs : List ChunkTransaction) (c : Candidates) (x : Text)
    → has (candidates_of txs c).accounts x ≡ (has c.accounts x || has (keys_of account_ids txs) x)
unfolding candidates_of keys_of has
has-candidates_of [] c x = ground arith
has-candidates_of (tx ∷ txs) c x = ground (
  arith,
  has-candidates_of txs (note_candidates tx c) x,
  has-note_candidates tx c x,
  has-append (account_ids tx) (keys_of account_ids txs) x,
)

-- The candidates of a block are the accounts that its transactions name.
pub has-block_candidates :
    (chunks : List (List ChunkTransaction)) (c : Candidates) (x : Text)
    → has (block_candidates chunks c).accounts x
      ≡ (has c.accounts x || has (block_keys account_ids chunks) x)
unfolding block_candidates block_keys has
has-block_candidates [] c x = ground arith
has-block_candidates (txs ∷ chunks) c x = ground (
  arith,
  has-block_candidates chunks (candidates_of txs c) x,
  has-candidates_of txs c x,
  has-append (keys_of account_ids txs) (block_keys account_ids chunks) x,
)

delegate_info-trims :
    (action : Json) (info : DelegateActionInfo)
    → delegate_info action ≡ some info
    → trim info.inner_signer_id ≡ info.inner_signer_id
unfolding delegate_info info_of
delegate_info-trims action info p =
    let (delegate, (_, q)) = bind-some (object_like (member (codes "Delegate") action)) _ info p in
    let (da, (_, r)) =
      bind-some (object_like (member (codes "delegate_action") delegate)) _ info q in
    let (sender, (_, s)) = bind-some (as_string (member (codes "sender_id") da)) _ info r in
    let (receiver, (_, t)) = bind-some (as_string (member (codes "receiver_id") da)) _ info s in
    let (key, (_, u)) = bind-some (as_string (member (codes "public_key") da)) _ info t in
    let (inner, (_, v)) = bind-some (array_items (member (codes "actions") da)) _ info u in
    ground (arith, trim-trim sender, v)

first_delegate-trims :
    (actions : List Json) (info : DelegateActionInfo)
    → first_delegate actions ≡ some info
    → trim info.inner_signer_id ≡ info.inner_signer_id
unfolding first_delegate
first_delegate-trims [] info p = cc
first_delegate-trims (action ∷ actions) info p = elim (Option-cases (delegate_info action)) [
  | inl other ↦ first_delegate-trims actions info (ground (arith, p, other))
  | inr (found, e) ↦ delegate_info-trims action info (ground (arith, p, e))
]

-- The sender of a delegate action has no white space around it.
pub extract_delegate_action_info-trims :
    (actions : Option (List Json)) (info : DelegateActionInfo)
    → extract_delegate_action_info actions ≡ some info
    → trim info.inner_signer_id ≡ info.inner_signer_id
unfolding extract_delegate_action_info
extract_delegate_action_info-trims none info p = cc
extract_delegate_action_info-trims (some actions) info p = first_delegate-trims actions info p
