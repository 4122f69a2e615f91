-- ===== src/Conversion/Delegate.antt =====
-- src/modules/near-ingest/delegate.helpers.ts: the delegate action within a meta-transaction.
use fast_auth_indexer_api.Prelude.{Option, none, some, List, [], ◌∷◌, Text, codes, trim, ◌>>=◌}
use fast_auth_indexer_api.Json.{Json, array, member, object_like, as_string, first_key, items_of}
use fast_auth_indexer_api.NearBlock.{non_empty}
use fast_auth_indexer_api.Conversion.{function_call}

pub record DelegateActionInfo : Type 0 where
  pub inner_signer_id : Text
  pub inner_receiver_id : Text
  pub inner_public_key : Text
  pub inner_action_types : List Text
  pub inner_method_name : Option Text
  pub inner_actions : List Json

-- The names of the actions that have one.
unfoldable pub action_types : List Json → List Text
action_types [] = []
action_types (action ∷ actions) = elim (non_empty (first_key action)) [
  | none ↦ action_types actions
  | some name ↦ name ∷ action_types actions
]

-- The method name of one action, if it is a call that has one.
unfoldable pub method_of : Json → Option Text
unfolding function_call
method_of action = do
  name ← first_key action
  call ← function_call name action
  as_string (member (codes "method_name") call)

unfoldable pub first_method : List Json → Option Text
unfolding method_of
first_method [] = none
first_method (action ∷ actions) = elim (method_of action) [
  | none ↦ first_method actions
  | some method ↦ some method
]

abbrev pub array_items : Option Json → Option (List Json)
array_items (some (array items)) = some (items_of items)
array_items _ = none

unfoldable pub info_of : Text → Text → Text → List Json → DelegateActionInfo
unfolding action_types first_method
info_of sender receiver key inner = record {
  inner_signer_id = trim sender;
  inner_receiver_id = trim receiver;
  inner_public_key = trim key;
  inner_action_types = action_types inner;
  inner_method_name = first_method inner;
  inner_actions = inner;
}

-- One round of the loop: `none` goes on to the next action.
unfoldable pub delegate_info : Json → Option DelegateActionInfo
unfolding info_of
delegate_info action = do
  delegate ← object_like (member (codes "Delegate") action)
  da ← object_like (member (codes "delegate_action") delegate)
  sender ← as_string (member (codes "sender_id") da)
  receiver ← as_string (member (codes "receiver_id") da)
  key ← as_string (member (codes "public_key") da)
  inner ← array_items (member (codes "actions") da)
  some (info_of sender receiver key inner)

unfoldable pub first_delegate : List Json → Option DelegateActionInfo
unfolding delegate_info
first_delegate [] = none
first_delegate (action ∷ actions) = elim (delegate_info action) [
  | none ↦ first_delegate actions
  | some info ↦ some info
]

-- `extractDelegateActionInfo`
unfoldable pub extract_delegate_action_info : Option (List Json) → Option DelegateActionInfo
unfolding first_delegate
extract_delegate_action_info none = none
extract_delegate_action_info (some actions) = first_delegate actions
