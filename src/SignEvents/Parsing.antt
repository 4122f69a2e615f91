-- ===== src/SignEvents/Parsing.antt =====
-- How src/modules/near-ingest/sign-event-derivator.ts reads the payloads of a sign call: the token that
-- is verified and the bytes that are signed.
use fast_auth_indexer_api.Prelude.{
  ℕ, ◌%◌, Bool, true, false, ◌&&◌, Option, none, some, List, [], ◌∷◌, map, if◌then◌else◌, Text,
  codes, to_lower_case, trim, number, ◌>>=◌,
}
use fast_auth_indexer_api.Json.{
  Json, null, boolean, numeral, string, array, object, Fields, lookup, as_string, items_of,
}
use fast_auth_indexer_api.NearBlock.{non_empty}
use fast_auth_indexer_api.Conversion.{Runtime, parse_json_object, decode_base64_url_to_utf8}
use fast_auth_indexer_api.SignEvents.Provider.{split}

-- A value that `??` does not pass over.
unfoldable pub present : Option Json → Option Json
present none = none
present (some null) = none
present (some value) = some value

-- `typeof value === "string" && value.trim() ? value.trim() : null`
unfoldable pub trimmed_text : Option Json → Option Text
trimmed_text value = do s ← as_string value; non_empty (some (trim s))

-- `getNestedValue`
unfoldable pub get_nested_value : List Text → Json → Option Json
get_nested_value [] value = some value
get_nested_value (key ∷ path) (object fields) = elim (lookup key fields) [
  | none ↦ none
  | some value ↦ get_nested_value path value
]
get_nested_value (key ∷ path) _ = none

-- The loop over the candidate paths.
unfoldable pub first_text_at : List (List Text) → Json → Option Text
unfolding trimmed_text get_nested_value
first_text_at [] payload = none
first_text_at (path ∷ paths) payload = elim (trimmed_text (get_nested_value path payload)) [
  | none ↦ first_text_at paths payload
  | some text ↦ some text
]

abbrev pub nested : Text → Text → List Text
nested outer inner = outer ∷ inner ∷ []

abbrev pub dapp_paths : List (List Text)
dapp_paths =
    nested (codes "transaction") (codes "receiver_id")
    ∷ nested (codes "transaction") (codes "receiverId")
    ∷ nested (codes "delegate_action") (codes "receiver_id")
    ∷ nested (codes "delegateAction") (codes "receiverId")
    ∷ (codes "receiver_id" ∷ [])
    ∷ (codes "receiverId" ∷ [])
    ∷ (codes "receiver" ∷ [])
    ∷ []

abbrev pub account_paths : List (List Text)
account_paths =
    nested (codes "transaction") (codes "signer_id")
    ∷ nested (codes "transaction") (codes "signerId")
    ∷ nested (codes "delegate_action") (codes "sender_id")
    ∷ nested (codes "delegateAction") (codes "senderId")
    ∷ (codes "account_id" ∷ [])
    ∷ (codes "accountId" ∷ [])
    ∷ (codes "signer_id" ∷ [])
    ∷ (codes "signerId" ∷ [])
    ∷ (codes "sender_id" ∷ [])
    ∷ (codes "senderId" ∷ [])
    ∷ (codes "user_id" ∷ [])
    ∷ (codes "userId" ∷ [])
    ∷ []

-- `extractProjectDappId`
unfoldable pub extract_project_dapp_id : Option Fields → Option Text
unfolding first_text_at
extract_project_dapp_id payload = do
  fields ← payload
  id ← first_text_at dapp_paths (object fields)
  some (to_lower_case id)

-- `extractSponsoredAccount`
unfoldable pub extract_sponsored_account : Option Fields → Option Text
unfolding first_text_at
extract_sponsored_account payload = do fields ← payload; first_text_at account_paths (object fields)

-- `payloadObject` and `payloadJson`
pub record Payload : Type 0 where
  pub payload_object : Option Fields
  pub payload_json : Option Json

abbrev pub object_payload : Option Fields → Payload
object_payload none = record { payload_object = none; payload_json = none }
object_payload (some fields) = record {
  payload_object = some fields;
  payload_json = some (object fields);
}

abbrev is_number : Json → Bool
is_number (numeral n) = true
is_number _ = false

unfoldable pub all_numbers : List Json → Bool
all_numbers [] = true
all_numbers (item ∷ items) = is_number item && all_numbers items

abbrev second : List Text → Option Text
second (first ∷ segment ∷ segments) = some segment
second _ = none

module _ (rt : Runtime) where
  -- `Number(value)`
  unfoldable pub as_number : Json → Option ℕ
  as_number null = some 0
  as_number (boolean true) = some 1
  as_number (boolean false) = some 0
  as_number (numeral n) = some n
  as_number (string s) = number s
  as_number value = rt.to_number value

  -- The byte that a typed array stores for a value.
  unfoldable pub byte_of : Json → ℕ
  unfolding as_number
  byte_of value = elim (as_number value) [ none ↦ 0 | some n ↦ n % 256 ]

  unfoldable pub parse_sign_payload : Option Json → Payload
  unfolding all_numbers byte_of
  parse_sign_payload (some (array items)) =
      if all_numbers (items_of items)
      then object_payload
          (parse_json_object rt (some (rt.from_utf8 (map byte_of (items_of items)))))
      else record { payload_object = none; payload_json = some (array items) }
  parse_sign_payload (some (string s)) = elim (parse_json_object rt (some s)) [
    | some fields ↦ object_payload (some fields)
    | none ↦ object_payload (parse_json_object rt (some (rt.from_base64 s)))
  ]
  parse_sign_payload (some (object fields)) = object_payload (some fields)
  parse_sign_payload _ = object_payload none

  -- `Array.isArray(candidate) ? candidate : null`, as the decoders take it.
  unfoldable pub sign_payload_bytes : Option Json → Option (List ℕ)
  unfolding byte_of
  sign_payload_bytes (some (array items)) = some (map byte_of (items_of items))
  sign_payload_bytes _ = none

  unfoldable pub jwt_payload : Text → Option Fields
  jwt_payload token = do
    segment ← second (split b'.' token)
    parse_json_object rt (some (decode_base64_url_to_utf8 rt segment))

  -- `parseJwtSub`
  unfoldable pub parse_jwt_sub : Option Text → Option Text
  unfolding jwt_payload trimmed_text
  parse_jwt_sub verify_payload = do
    token ← non_empty verify_payload
    payload ← jwt_payload token
    trimmed_text (lookup (codes "sub") payload)
