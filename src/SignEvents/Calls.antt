-- ===== src/SignEvents/Calls.antt =====
-- The calls of `sign` and their arguments, as src/modules/near-ingest/sign-event-derivator.ts reads them.
use fast_auth_indexer_api.Prelude.{
  Bool, false, Option, none, some, if◌then◌else◌, Text, codes, eq_text, ◌>>=◌,
}
use fast_auth_indexer_api.Json.{Json, object, Fields, lookup, as_string}
use fast_auth_indexer_api.Conversion.{Runtime, parse_json_object}
use fast_auth_indexer_api.Decode.{or_else}
use fast_auth_indexer_api.SignEvents.Parsing.{present}

-- `isFunctionCallAction`, with the call.
unfoldable pub function_call_fields : Json → Option Fields
function_call_fields (object action) = elim (lookup (codes "FunctionCall") action) [
  | some (object call) ↦ some call
  | _ ↦ none
]
function_call_fields _ = none

unfoldable pub is_sign : Option Text → Bool
is_sign none = false
is_sign (some method) = eq_text method (codes "sign")

-- The call of an action that the loop does not pass over.
unfoldable pub sign_call : Json → Option Fields
unfolding function_call_fields is_sign
sign_call action = do
  call ← function_call_fields action
  if is_sign (as_string (lookup (codes "method_name") call)) then some call else none

-- `args?.name`
unfoldable pub arg : Text → Option Fields → Option Json
arg name none = none
arg name (some args) = lookup name args

-- `typeof args?.a === "string" ? args.a : typeof args?.b === "string" ? args.b : null`
unfoldable pub text_arg : Text → Text → Option Fields → Option Text
unfolding arg
text_arg a b args = or_else (as_string (arg a args)) (as_string (arg b args))

unfoldable pub or_present : Option Json → Option Json → Option Json
or_present (some value) other = some value
or_present none other = other

unfoldable pub payload_arg : Option Fields → Option Json
unfolding arg or_present
payload_arg args =
    or_present (present (arg (codes "sign_payload") args))
      (present (arg (codes "signPayload") args))

unfoldable pub call_args : Runtime → Option Text → Option Fields
call_args rt none = none
call_args rt (some raw) = parse_json_object rt (some (rt.from_base64 raw))
