-- ===== src/Decode.antt =====
-- src/modules/common/decoders/decode-sign-action.ts: the bytes handed to FastAuth's sign(), a NEP-366
-- delegate action in Borsh. An offset of -1, the code's mark of a failure, is `none`. A buffer is a
-- list of bytes, so the bits that `|` joins in readU32LE are disjoint and the sum is the same.
pub mod Base58
pub mod Bounds
pub mod Encode
pub mod Holds
pub mod Skips
pub mod RoundTrip
pub mod Tests
use fast_auth_indexer_api.Prelude.{
  ◌>>=◌, ℕ, zero, suc, ◌+◌, ◌*◌, Bool, false, Option, none, some, List, [], ◌∷◌, ◌++◌, ltb, ◌==◌,
  if◌then◌else◌, length, Text, codes, print,
}
use fast_auth_indexer_api.Decode.Base58.{base58_encode}

abbrev pub nep_366_delegate_discriminant : ℕ
nep_366_delegate_discriminant = 1_073_742_190

-- `buf[offset]`; the code reads within the buffer only.
unfoldable pub at : List ℕ → ℕ → ℕ
at [] offset = 0
at (b ∷ buf) zero = b
at (b ∷ buf) (suc offset) = at buf offset

unfoldable pub read_u32_le : List ℕ → ℕ → Option ℕ
read_u32_le buf offset =
    if ltb (length buf) (offset + 4)
    then none
    else some (
        at buf offset
        + (at buf (offset + 1) * 256
            + (at buf (offset + 2) * 65536 + at buf (offset + 3) * 16_777_216)))

-- `next`, if it is within the buffer.
unfoldable pub within : List ℕ → ℕ → Option ℕ
within buf next = if ltb (length buf) next then none else some next

unfoldable pub skip_length_prefixed : List ℕ → ℕ → Option ℕ
skip_length_prefixed buf offset = do len ← read_u32_le buf offset; within buf (offset + 4 + len)

-- The length of a key by its variant: ed25519 or secp256k1.
unfoldable pub key_len : ℕ → Option ℕ
key_len variant = if variant == 0 then some 32 else if variant == 1 then some 64 else none

unfoldable pub skip_public_key : List ℕ → ℕ → Option ℕ
skip_public_key buf offset = do
  start ← within buf (offset + 1)
  len ← key_len (at buf offset)
  within buf (start + len)

-- The loop over the method names, which are length-prefixed.
unfoldable pub skip_methods : List ℕ → ℕ → ℕ → Option ℕ
skip_methods buf zero offset = some offset
skip_methods buf (suc count) offset = do
  next ← skip_length_prefixed buf offset
  skip_methods buf count next

unfoldable pub skip_receiver_and_methods : List ℕ → ℕ → Option ℕ
skip_receiver_and_methods buf offset = do
  next ← skip_length_prefixed buf offset
  method_count ← read_u32_le buf next
  skip_methods buf method_count (next + 4)

-- The permission of a function-call key: an allowance, the receiver and the method names.
unfoldable pub skip_function_call_permission : List ℕ → ℕ → Option ℕ
skip_function_call_permission buf offset = do
  start ← within buf (offset + 1)
  skip_receiver_and_methods buf (if at buf offset == 1 then start + 16 else start)

-- What follows the permission's tag: a full-access key has nothing more.
unfoldable pub skip_permission : ℕ → List ℕ → ℕ → Option ℕ
skip_permission permission buf offset =
    if permission == 1
    then some offset
    else if permission == 0
    then skip_function_call_permission buf offset
    else none

unfoldable pub skip_access_key : List ℕ → ℕ → Option ℕ
skip_access_key buf offset = do
  next ← within buf (offset + 8 + 1)
  skip_permission (at buf (offset + 8)) buf next

unfoldable pub skip_function_call : List ℕ → ℕ → Option ℕ
skip_function_call buf offset = do
  args ← skip_length_prefixed buf offset
  gas ← skip_length_prefixed buf args
  within buf (gas + 24)

unfoldable pub skip_add_key : List ℕ → ℕ → Option ℕ
skip_add_key buf offset = do access_key ← skip_public_key buf offset; skip_access_key buf access_key

-- The body of an action by its tag.
unfoldable pub skip_body : ℕ → List ℕ → ℕ → Option ℕ
skip_body tag buf offset =
    if tag == 0
    then some offset
    else if tag == 1
    then skip_length_prefixed buf offset
    else if tag == 2
    then skip_function_call buf offset
    else if tag == 3
    then within buf (offset + 16)
    else if tag == 4
    then skip_public_key buf (offset + 16)
    else if tag == 5
    then skip_add_key buf offset
    else if tag == 6
    then skip_public_key buf offset
    else if tag == 7
    then skip_length_prefixed buf offset
    else none

unfoldable pub skip_action : List ℕ → ℕ → Option ℕ
skip_action buf offset = do body ← within buf (offset + 1); skip_body (at buf offset) buf body

unfoldable pub skip_actions : List ℕ → ℕ → ℕ → Option ℕ
skip_actions buf zero offset = some offset
skip_actions buf (suc count) offset = do next ← skip_action buf offset; skip_actions buf count next

-- `buf.slice(offset, offset + len)`, which is within the buffer where the code takes it.
unfoldable pub slice : List ℕ → ℕ → ℕ → List ℕ
slice buf offset zero = []
slice buf offset (suc len) = at buf offset ∷ slice buf (offset + 1) len

unfoldable pub read_key : List ℕ → ℕ → Option Text
read_key buf offset = do
  start ← within buf (offset + 1)
  len ← key_len (at buf offset)
  _ ← within buf (start + len)
  some (
      (if at buf offset == 0 then codes "ed25519:" else codes "secp256k1:")
      ++ base58_encode (slice buf start len))

unfoldable pub try_decode_delegate_action : List ℕ → ℕ → Option Text
try_decode_delegate_action buf start_offset = do
  receiver ← skip_length_prefixed buf start_offset
  actions ← skip_length_prefixed buf receiver
  actions_count ← read_u32_le buf actions
  nonce ← skip_actions buf actions_count (actions + 4)
  read_key buf (nonce + 16)

-- `decoded`, or the other reading of the buffer.
unfoldable pub or_else : Option Text → Option Text → Option Text
or_else (some decoded) other = some decoded
or_else none other = other

-- `discriminant === NEP_366_DELEGATE_DISCRIMINANT`
unfoldable pub is_delegate : Option ℕ → Bool
is_delegate none = false
is_delegate (some discriminant) = discriminant == nep_366_delegate_discriminant

-- `payload` is a Uint8Array, or an array of numbers that `Uint8Array.from` turned into one.
unfoldable pub decode_sign_delegate_public_key : Option (List ℕ) → Option Text
decode_sign_delegate_public_key none = none
decode_sign_delegate_public_key (some buf) =
    if ltb (length buf) 16
    then none
    else if is_delegate (read_u32_le buf 0)
    then or_else (try_decode_delegate_action buf 4) (try_decode_delegate_action buf 0)
    else try_decode_delegate_action buf 0

unfoldable pub action_name : ℕ → Text
action_name tag =
    if tag == 0
    then codes "CreateAccount"
    else if tag == 1
    then codes "DeployContract"
    else if tag == 2
    then codes "FunctionCall"
    else if tag == 3
    then codes "Transfer"
    else if tag == 4
    then codes "Stake"
    else if tag == 5
    then codes "AddKey"
    else if tag == 6
    then codes "DeleteKey"
    else if tag == 7
    then codes "DeleteAccount"
    else if tag == 8
    then codes "Delegate"
    else codes "Unknown(" ++ (print tag ++ codes ")")

unfoldable pub first_action : List ℕ → ℕ → ℕ → Option Text
first_action buf zero offset = some (codes "Empty")
first_action buf (suc count) offset = do
  _ ← within buf (offset + 1)
  some (action_name (at buf offset))

unfoldable pub first_action_type : List ℕ → Option Text
first_action_type buf = do
  receiver ← skip_length_prefixed buf 4
  actions ← skip_length_prefixed buf receiver
  actions_count ← read_u32_le buf actions
  first_action buf actions_count (actions + 4)

unfoldable pub decode_sign_action_type : Option (List ℕ) → Option Text
decode_sign_action_type none = none
decode_sign_action_type (some buf) =
    if ltb (length buf) 16
    then none
    else if is_delegate (read_u32_le buf 0)
    then first_action_type buf
    else some (codes "Raw")
