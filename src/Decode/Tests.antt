-- ===== src/Decode/Tests.antt =====
-- A delegate action with a transfer and a limited key, and its decoding.
use fast_auth_indexer_api.Prelude.{
  ℕ, ◌+◌, ◌≤◌, ◌<◌, ◌≡◌, refl, some, List, [], ◌∷◌, ◌++◌, arith, length, codes,
}
use fast_auth_indexer_api.Decode.{
  nep_366_delegate_discriminant, skip_actions, decode_sign_delegate_public_key,
  decode_sign_action_type,
}
use fast_auth_indexer_api.Decode.Base58.{
  base58_digits, value58, value256, nth, base58_digits-IsFaithful,
}
use fast_auth_indexer_api.Decode.Bounds.{skip_actions-IsBounded}
use fast_auth_indexer_api.Decode.Encode.{
  le32, Key, ed25519, limited, transfer, add_key, Delegate, encode, key_text, KeyFits, ActionFits,
  ActionsFit, PermissionFits, AllowanceFits, AllPrefixed,
}
use fast_auth_indexer_api.Decode.RoundTrip.{decode_sign_delegate_public_key-encode}

abbrev sample_key : Key
sample_key = ed25519 (
    7 ∷ 8 ∷ 9 ∷ 1 ∷ 2 ∷ 3 ∷ 4 ∷ 5 ∷ 7 ∷ 8 ∷ 9 ∷ 1 ∷ 2 ∷ 3 ∷ 4 ∷ 5 ∷ 7 ∷ 8 ∷ 9 ∷ 1 ∷ 2 ∷ 3 ∷ 4 ∷ 5
    ∷ 7 ∷ 8 ∷ 9 ∷ 1 ∷ 2 ∷ 3 ∷ 4 ∷ 5 ∷ [])

abbrev sixteen : List ℕ
sixteen = 1 ∷ 2 ∷ 3 ∷ 4 ∷ 5 ∷ 6 ∷ 7 ∷ 8 ∷ 9 ∷ 1 ∷ 2 ∷ 3 ∷ 4 ∷ 5 ∷ 6 ∷ 7 ∷ []

abbrev sample_delegate : Delegate
sample_delegate = record {
  sender_id = codes "alice.near";
  receiver_id = codes "bob.near";
  actions =
      transfer sixteen
      ∷ add_key sample_key (1 ∷ 2 ∷ 3 ∷ 4 ∷ 5 ∷ 6 ∷ 7 ∷ 8 ∷ [])
          (limited (some sixteen) (codes "app.near") (codes "move" ∷ []))
      ∷ [];
  nonce_and_height = sixteen;
  public_key = sample_key;
}

decode_sign_delegate_public_key-encode_example :
    decode_sign_delegate_public_key
      (some (le32 nep_366_delegate_discriminant ++ encode sample_delegate))
    ≡ some (key_text sample_key)
unfolding KeyFits ActionFits ActionsFit PermissionFits AllowanceFits AllPrefixed
decode_sign_delegate_public_key-encode_example =
    decode_sign_delegate_public_key-encode sample_delegate (record {
      sender = omega arith;
      receiver = omega arith;
      few = omega arith;
      actions =
          (refl, ((refl, (refl, (refl, (omega arith, (omega arith, (omega arith, tt)))))), tt));
      numbers = refl;
      key = refl;
    })

skip_actions-IsBounded_example : (1 + 2 ≤ 3) × (3 ≤ length {A = ℕ} (9 ∷ 0 ∷ 0 ∷ []))
unfolding skip_actions fast_auth_indexer_api.Decode.skip_action fast_auth_indexer_api.Decode.within
    fast_auth_indexer_api.Decode.skip_body fast_auth_indexer_api.Decode.at
skip_actions-IsBounded_example = skip_actions-IsBounded (9 ∷ 0 ∷ 0 ∷ []) 2 1 3 (omega arith) refl

base58_digits-IsFaithful_example :
    (value58 (base58_digits [] (1 ∷ 44 ∷ [])) ≡ value256 0 (1 ∷ 44 ∷ []))
    × ((i : ℕ) → nth (base58_digits [] (1 ∷ 44 ∷ [])) i < 58)
base58_digits-IsFaithful_example = base58_digits-IsFaithful (1 ∷ 44 ∷ [])
