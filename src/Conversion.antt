-- ===== src/Conversion.antt =====
-- src/modules/near-ingest/conversion.helpers.ts and delegate.helpers.ts: how the fields of a chunk's
-- transactions are read. What Node provides (`JSON.parse`, `JSON.stringify`, `Buffer`, `URL` and the hash)
-- is the interface `Runtime`.
pub mod Delegate
use fast_auth_indexer_api.Prelude.{
  ℕ, zero, suc, ◌+◌, ◌-◌, ◌*◌, ◌/◌, Bool, true, false, not, ◌&&◌, ◌||◌, Option, none, some, List,
  [], ◌∷◌, ◌++◌, map, replicate, leb, ◌==◌, if◌then◌else◌, length, Text, codes, eq_text,
  to_lower_case, trim, starts_with, includes, number,
}
use fast_auth_indexer_api.Json.{
  Json, null, boolean, numeral, string, array, object, Fields, end, field, lookup, is_truthy,
  member, object_like, as_string, first_key, items_of,
}
use mathlib.Core.List.{reverse}
use fast_auth_indexer_api.NearBlock.{non_empty}

-- `JSON.parse` and `new URL(s).hostname` are `none` where they throw. Decoding base64 drops what is not
-- of its alphabet and decoding UTF-8 replaces what is not valid, so both always return a text.
-- `to_number` is what `Number` makes of an array or an object, `none` for a value that is not finite.
pub record Runtime : Type 0 where
  pub parse : Text → Option Json
  pub stringify : Json → Text
  pub from_base64 : Text → Text
  pub from_utf8 : List ℕ → Text
  pub to_number : Json → Option ℕ
  pub hostname : Text → Option Text
  pub sha256 : Text → Text

-- `toDateFromNearNs`, in milliseconds; `now` is what `new Date()` answers.
unfoldable pub to_date_from_near_ns : ℕ → Option ℕ → ℕ
to_date_from_near_ns now none = now
to_date_from_near_ns now (some zero) = now
to_date_from_near_ns now (some (suc n)) = suc n / 1_000_000

abbrev is_digit : ℕ → Bool
is_digit c = leb b'0' c && leb c b'9'

unfoldable pub all_digits : Text → Bool
all_digits [] = true
all_digits (c ∷ s) = is_digit c && all_digits s

-- `toNullableBigInt`; a number is natural here, so it is neither negative nor fractional.
unfoldable pub to_nullable_big_int : Option Json → Option ℕ
unfolding all_digits
to_nullable_big_int (some (numeral n)) = some n
to_nullable_big_int (some (string (c ∷ s))) = if all_digits (c ∷ s) then number (c ∷ s) else none
to_nullable_big_int _ = none

-- `normalizeNearPublicKey`
unfoldable pub normalize_near_public_key : Option Text → Option Text
normalize_near_public_key none = none
normalize_near_public_key (some value) = non_empty (some (trim value))

-- `executionStatus` and `failureReason`
pub record Execution : Type 0 where
  pub execution_status : Option Text
  pub failure_reason : Option Text

abbrev pub included : Execution
included = record { execution_status = some (codes "included"); failure_reason = none }

module _ (rt : Runtime) where
  unfoldable pub payload_reason : Json → Text
  payload_reason (string s) = s
  payload_reason payload = rt.stringify payload

  unfoldable pub variant_status : Text → Json → Execution
  unfolding payload_reason
  variant_status variant payload = record {
    execution_status = some variant;
    failure_reason =
        if includes (to_lower_case variant) (codes "failure")
        then some (payload_reason payload)
        else none;
  }

  -- The status is not falsy.
  unfoldable pub truthy_status : Json → Execution
  unfolding variant_status
  truthy_status (string s) = record { execution_status = some s; failure_reason = none }
  truthy_status (object (field variant payload fields)) = variant_status variant payload
  truthy_status (array (field variant payload fields)) = variant_status variant payload
  truthy_status _ = included

  -- `parseExecutionStatus`
  unfoldable pub parse_execution_status : Option Json → Execution
  unfolding truthy_status
  parse_execution_status none = included
  parse_execution_status (some status) = if is_truthy status then truthy_status status else included

  abbrev as_object : Option Json → Option Fields
  as_object (some (object fields)) = some fields
  as_object _ = none

  -- `parseJsonObject`
  unfoldable pub parse_json_object : Option Text → Option Fields
  parse_json_object none = none
  parse_json_object (some []) = none
  parse_json_object (some (c ∷ s)) = as_object (rt.parse (c ∷ s))

abbrev or_first : Option Text → Text → Text
or_first none name = name
or_first (some first) name = first

-- `methodName` and `attachedDepositYocto`
pub record ActionMetadata : Type 0 where
  pub method_name : Option Text
  pub attached_deposit_yocto : Option Text

-- The call of an action whose first key is `name`.
unfoldable pub function_call : Text → Json → Option Json
function_call name action =
    if eq_text name (codes "FunctionCall")
    then object_like (member (codes "FunctionCall") action)
    else none

unfoldable pub call_metadata : Json → ActionMetadata
call_metadata call = record {
  method_name =
      some (or_first (as_string (member (codes "method_name") call)) (codes "FunctionCall"));
  attached_deposit_yocto = as_string (member (codes "deposit") call);
}

-- The loop over the actions, with the name of the first action that has one.
unfoldable pub metadata_from : Option Text → List Json → ActionMetadata
unfolding function_call call_metadata
metadata_from fallback [] = record { method_name = fallback; attached_deposit_yocto = none }
metadata_from fallback (action ∷ actions) = elim (non_empty (first_key action)) [
  | none ↦ metadata_from fallback actions
  | some name ↦ elim (function_call name action) [
    | some call ↦ call_metadata call
    | none ↦ metadata_from (some (or_first fallback name)) actions
  ]
]

-- `parseActionMetadata`
unfoldable pub parse_action_metadata : Option (List Json) → ActionMetadata
unfolding metadata_from
parse_action_metadata none = record { method_name = none; attached_deposit_yocto = none }
parse_action_metadata (some actions) = metadata_from none actions

-- `[a-z0-9._-]`
abbrev is_account_code : ℕ → Bool
is_account_code c =
    (leb b'a' c && leb c b'z') || (is_digit c || (c == b'.' || (c == b'_' || c == b'-')))

unfoldable pub all_account_codes : Text → Bool
all_account_codes [] = true
all_account_codes (c ∷ s) = is_account_code c && all_account_codes s

-- `s.endsWith(p)`
unfoldable pub ends_with : Text → Text → Bool
ends_with s p = starts_with (reverse s) (reverse p)

abbrev pub is_empty : Text → Bool
is_empty [] = true
is_empty (c ∷ s) = false

-- `isLikelyNearAccountId`
unfoldable pub is_likely_near_account_id : Text → Bool
unfolding all_account_codes ends_with
is_likely_near_account_id value =
    let normalized = to_lower_case (trim value) in
    (not (is_empty normalized) && all_account_codes normalized)
    && (includes normalized (codes ".") || ends_with normalized (codes "near"))

abbrev base64_code : ℕ → ℕ
base64_code c = if c == b'-' then b'+' else if c == b'_' then b'/' else c

-- `s.padEnd(n, "=")`
unfoldable pub pad_end : ℕ → Text → Text
pad_end n s = s ++ replicate (n - length s) b'='

-- `decodeBase64UrlToUtf8`
unfoldable pub decode_base64_url_to_utf8 : Runtime → Text → Text
unfolding pad_end
decode_base64_url_to_utf8 rt raw =
    let normalized = map base64_code raw in
    rt.from_base64 (pad_end ((length normalized + 3) / 4 * 4) normalized)
