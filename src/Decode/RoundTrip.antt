-- ===== src/Decode/RoundTrip.antt =====
-- The decoder of decode-sign-action.ts over what the encoding writes.
use fast_auth_indexer_api.Prelude.{
  ℕ, ◌+◌, ◌≤◌, ◌≡◌, refl, ap, ◌∙◌, some, List, [], ◌∷◌, ◌++◌, arith, length, length-append,
}
use fast_auth_indexer_api.Decode.{
  nep_366_delegate_discriminant, read_u32_le, within, skip_length_prefixed, key_len, skip_body,
  skip_action, skip_actions, slice, read_key, try_decode_delegate_action, or_else,
  decode_sign_delegate_public_key, is_delegate,
}
use mathlib.Core.Path.{subst}
use fast_auth_indexer_api.Decode.Encode.{
  le32, prefixed, Key, ed25519, secp256k1, encode_key, Action, create_account, deploy_contract,
  function_call, transfer, stake, add_key, delete_key, delete_account, encode_action,
  encode_actions, Delegate, encode, KeyFits, ActionFits, ActionsFit, key_text, Fits,
}
use fast_auth_indexer_api.Decode.Holds.{Holds, Holds-fits, Holds-split, Holds-all}
use fast_auth_indexer_api.Decode.Skips.{
  then_some, read_u32_le-le32, skip-prefixed, skip-key, skip-function_call, skip-add_key,
}

skip-action :
    (buf : List ℕ) (offset : ℕ) (action : Action)
    → ActionFits action
    → Holds buf offset (encode_action action)
    → skip_action buf offset ≡ some (offset + length (encode_action action))
unfolding skip_action skip_body encode_action ActionFits Holds within
skip-action buf offset create_account fits (lt, (tag, h)) = ground (arith, tag)
skip-action buf offset (deploy_contract code) fits (lt, (tag, h)) =
    let skipped = skip-prefixed buf (offset + 1) code fits h in ground (arith, tag, skipped)
skip-action buf offset (function_call method args gas_deposit) (m, (a, g)) (lt, (tag, h)) =
    let skipped = skip-function_call buf (offset + 1) method args gas_deposit m a g h in
    ground (arith, tag, skipped)
skip-action buf offset (transfer deposit) fits (lt, (tag, h)) =
    let le = Holds-fits buf (offset + 1) deposit h in ground (arith, tag, le, fits)
skip-action buf offset (stake amount key) (a, k) (lt, (tag, h)) =
    let (_, later) = Holds-split buf (offset + 1) amount (encode_key key) h in
    let moved = subst (λ o. Holds buf (offset + 1 + o) (encode_key key)) a later in
    let skipped = skip-key buf (offset + 1 + 16) key k moved in
    ground (arith, tag, skipped, a, length-append amount (encode_key key))
skip-action buf offset (add_key key nonce permission) (k, (n, fits)) (lt, (tag, h)) =
    let skipped = skip-add_key buf (offset + 1) key nonce permission k n fits h in
    ground (arith, tag, skipped)
skip-action buf offset (delete_key key) fits (lt, (tag, h)) =
    let skipped = skip-key buf (offset + 1) key fits h in ground (arith, tag, skipped)
skip-action buf offset (delete_account beneficiary) fits (lt, (tag, h)) =
    let skipped = skip-prefixed buf (offset + 1) beneficiary fits h in ground (arith, tag, skipped)

skip-actions :
    (buf : List ℕ) (offset : ℕ) (actions : List Action)
    → ActionsFit actions
    → Holds buf offset (encode_actions actions)
    → skip_actions buf (length actions) offset ≡ some (offset + length (encode_actions actions))
unfolding skip_actions encode_actions ActionsFit Holds
skip-actions buf offset [] fits h = ap some (omega arith)
skip-actions buf offset (action ∷ actions) (one, others) h =
    let (first, later) = Holds-split buf offset (encode_action action) (encode_actions actions) h in
    let ih = skip-actions buf (offset + length (encode_action action)) actions others later in
    then_some (skip_action buf offset) _ _ _ (skip-action buf offset action one first)
      (ih ∙ ap some (ground (arith, length-append (encode_action action) (encode_actions actions))))

slice-Holds :
    (buf : List ℕ) (offset : ℕ) (bytes : List ℕ)
    → Holds buf offset bytes
    → slice buf offset (length bytes) ≡ bytes
unfolding slice Holds
slice-Holds buf offset [] h = refl
slice-Holds buf offset (b ∷ bytes) (lt, (same, h)) =
    let ih = slice-Holds buf (offset + 1) bytes h in cc

read-key :
    (buf : List ℕ) (offset : ℕ) (key : Key)
    → KeyFits key
    → Holds buf offset (encode_key key)
    → read_key buf offset ≡ some (key_text key)
unfolding read_key encode_key key_text KeyFits key_len within Holds
read-key buf offset (ed25519 bytes) fits (lt, (tag, h)) =
    let le = Holds-fits buf (offset + 1) bytes h in
    let same =
      subst (λ n. slice buf (offset + 1) n ≡ bytes) fits (slice-Holds buf (offset + 1) bytes h) in
    ground (arith, tag, fits, le, same)
read-key buf offset (secp256k1 bytes) fits (lt, (tag, h)) =
    let le = Holds-fits buf (offset + 1) bytes h in
    let same =
      subst (λ n. slice buf (offset + 1) n ≡ bytes) fits (slice-Holds buf (offset + 1) bytes h) in
    ground (arith, tag, fits, le, same)

decode-encode :
    (buf : List ℕ) (offset : ℕ) (d : Delegate)
    → Fits d
    → Holds buf offset (encode d)
    → try_decode_delegate_action buf offset ≡ some (key_text d.public_key)
unfolding try_decode_delegate_action encode le32
decode-encode buf offset d fits h =
    let (h_sender, t1) = Holds-split buf offset (prefixed d.sender_id) _ h in
    let o1 = offset + length (prefixed d.sender_id) in
    let (h_receiver, t2) = Holds-split buf o1 (prefixed d.receiver_id) _ t1 in
    let o2 = o1 + length (prefixed d.receiver_id) in
    let (h_count, t3) = Holds-split buf o2 (le32 (length d.actions)) _ t2 in
    let (h_actions, t4) = Holds-split buf (o2 + 4) (encode_actions d.actions) _ t3 in
    let o4 = o2 + 4 + length (encode_actions d.actions) in
    let (_, h_key) = Holds-split buf o4 d.nonce_and_height (encode_key d.public_key) t4 in
    let moved = subst (λ o. Holds buf (o4 + o) (encode_key d.public_key)) fits.numbers h_key in
    then_some (skip_length_prefixed buf offset) _ o1 _
      (skip-prefixed buf offset d.sender_id fits.sender h_sender)
      (then_some (skip_length_prefixed buf o1) _ o2 _
        (skip-prefixed buf o1 d.receiver_id fits.receiver h_receiver)
        (then_some (read_u32_le buf o2) _ (length d.actions) _
          (read_u32_le-le32 buf o2 (length d.actions) fits.few h_count)
          (then_some (skip_actions buf (length d.actions) (o2 + 4)) _ o4 _
            (skip-actions buf (o2 + 4) d.actions fits.actions h_actions)
            (read-key buf (o4 + 16) d.public_key fits.key moved))))

encode-long : (d : Delegate) → Fits d → 16 ≤ length (encode d)
unfolding encode
encode-long d fits = ground (
  arith,
  fits.numbers,
  length-append (prefixed d.sender_id) (
      prefixed d.receiver_id
      ++ (le32 (length d.actions)
          ++ (encode_actions d.actions ++ (d.nonce_and_height ++ encode_key d.public_key)))),
  length-append (prefixed d.receiver_id) (
      le32 (length d.actions)
      ++ (encode_actions d.actions ++ (d.nonce_and_height ++ encode_key d.public_key))),
  length-append (le32 (length d.actions))
      (encode_actions d.actions ++ (d.nonce_and_height ++ encode_key d.public_key)),
  length-append (encode_actions d.actions) (d.nonce_and_height ++ encode_key d.public_key),
  length-append d.nonce_and_height (encode_key d.public_key),
)

-- A payload that is the discriminant of NEP-366 and then the encoding of a delegate action whose parts
-- have the lengths of their types is decoded to the text of the action's public key.
pub decode_sign_delegate_public_key-encode :
    (d : Delegate)
    → Fits d
    → decode_sign_delegate_public_key (some (le32 nep_366_delegate_discriminant ++ encode d))
      ≡ some (key_text d.public_key)
unfolding decode_sign_delegate_public_key is_delegate or_else le32
decode_sign_delegate_public_key-encode d fits =
    let buf = le32 nep_366_delegate_discriminant ++ encode d in
    let (head, body) =
      Holds-split buf 0 (le32 nep_366_delegate_discriminant) (encode d) (Holds-all buf) in
    let tag = read_u32_le-le32 buf 0 nep_366_delegate_discriminant (omega arith) head in
    let decoded = decode-encode buf 4 d fits body in
    let long = encode-long d fits in ground (arith, tag, decoded, long)
