-- ===== src/Decode/Encode.antt =====
-- The Borsh encoding of a NEP-366 delegate action, as the header of
-- src/modules/common/decoders/decode-sign-action.ts documents it: what the decoder is held against.
use fast_auth_indexer_api.Prelude.{
  ℕ, ◌/◌, ◌%◌, ◌<◌, ◌≡◌, Option, none, some, List, [], ◌∷◌, ◌++◌, length, Text, codes,
}
use fast_auth_indexer_api.Decode.Base58.{base58_encode}

unfoldable pub le32 : ℕ → List ℕ
le32 n = n % 256 ∷ (n / 256) % 256 ∷ (n / 65536) % 256 ∷ (n / 16_777_216) % 256 ∷ []

unfoldable pub prefixed : List ℕ → List ℕ
prefixed bytes = le32 (length bytes) ++ bytes

pub data Key : Type 0 where
  ed25519 : List ℕ → Key
  secp256k1 : List ℕ → Key

unfoldable pub encode_key : Key → List ℕ
encode_key (ed25519 bytes) = 0 ∷ bytes
encode_key (secp256k1 bytes) = 1 ∷ bytes

unfoldable pub encode_all : List (List ℕ) → List ℕ
encode_all [] = []
encode_all (bytes ∷ more) = prefixed bytes ++ encode_all more

pub data Permission : Type 0 where
  -- The allowance, the receiver and the method names.
  limited : Option (List ℕ) → List ℕ → List (List ℕ) → Permission
  full_access : Permission

unfoldable pub encode_allowance : Option (List ℕ) → List ℕ
encode_allowance none = 0 ∷ []
encode_allowance (some allowance) = 1 ∷ allowance

unfoldable pub encode_permission : Permission → List ℕ
encode_permission (limited allowance receiver methods) =
    0
    ∷ (encode_allowance allowance
        ++ (prefixed receiver ++ (le32 (length methods) ++ encode_all methods)))
encode_permission full_access = 1 ∷ []

-- The integers (amounts, gas, nonces) stand as their bytes.
pub data Action : Type 0 where
  create_account : Action
  deploy_contract : List ℕ → Action
  function_call : List ℕ → List ℕ → List ℕ → Action
  transfer : List ℕ → Action
  stake : List ℕ → Key → Action
  add_key : Key → List ℕ → Permission → Action
  delete_key : Key → Action
  delete_account : List ℕ → Action

unfoldable pub encode_action : Action → List ℕ
encode_action create_account = 0 ∷ []
encode_action (deploy_contract code) = 1 ∷ prefixed code
encode_action (function_call method args gas_deposit) =
    2 ∷ (prefixed method ++ (prefixed args ++ gas_deposit))
encode_action (transfer deposit) = 3 ∷ deposit
encode_action (stake amount key) = 4 ∷ (amount ++ encode_key key)
encode_action (add_key key nonce permission) =
    5 ∷ (encode_key key ++ (nonce ++ encode_permission permission))
encode_action (delete_key key) = 6 ∷ encode_key key
encode_action (delete_account beneficiary) = 7 ∷ prefixed beneficiary

unfoldable pub encode_actions : List Action → List ℕ
encode_actions [] = []
encode_actions (action ∷ actions) = encode_action action ++ encode_actions actions

pub record Delegate : Type 0 where
  pub sender_id : List ℕ
  pub receiver_id : List ℕ
  pub actions : List Action
  pub nonce_and_height : List ℕ
  pub public_key : Key

unfoldable pub encode : Delegate → List ℕ
encode d =
    prefixed d.sender_id
    ++ (prefixed d.receiver_id
        ++ (le32 (length d.actions)
            ++ (encode_actions d.actions ++ (d.nonce_and_height ++ encode_key d.public_key))))

-- The lengths that the encoding has room for.
abbrev pub IsPrefixed : List ℕ → Type 0
IsPrefixed bytes = length bytes < 4_294_967_296

unfoldable pub KeyFits : Key → Type 0
KeyFits (ed25519 bytes) = length bytes ≡ 32
KeyFits (secp256k1 bytes) = length bytes ≡ 64

unfoldable pub AllowanceFits : Option (List ℕ) → Type 0
AllowanceFits none = Unit
AllowanceFits (some allowance) = length allowance ≡ 16

unfoldable pub AllPrefixed : List (List ℕ) → Type 0
AllPrefixed [] = Unit
AllPrefixed (bytes ∷ more) = IsPrefixed bytes × AllPrefixed more

unfoldable pub PermissionFits : Permission → Type 0
PermissionFits (limited allowance receiver methods) =
    AllowanceFits allowance
    × (IsPrefixed receiver × ((length methods < 4_294_967_296) × AllPrefixed methods))
PermissionFits full_access = Unit

unfoldable pub ActionFits : Action → Type 0
ActionFits create_account = Unit
ActionFits (deploy_contract code) = IsPrefixed code
ActionFits (function_call method args gas_deposit) =
    IsPrefixed method × (IsPrefixed args × (length gas_deposit ≡ 24))
ActionFits (transfer deposit) = length deposit ≡ 16
ActionFits (stake amount key) = (length amount ≡ 16) × KeyFits key
ActionFits (add_key key nonce permission) =
    KeyFits key × ((length nonce ≡ 8) × PermissionFits permission)
ActionFits (delete_key key) = KeyFits key
ActionFits (delete_account beneficiary) = IsPrefixed beneficiary

unfoldable pub ActionsFit : List Action → Type 0
ActionsFit [] = Unit
ActionsFit (action ∷ actions) = ActionFits action × ActionsFit actions

unfoldable pub key_text : Key → Text
key_text (ed25519 bytes) = codes "ed25519:" ++ base58_encode bytes
key_text (secp256k1 bytes) = codes "secp256k1:" ++ base58_encode bytes

pub record Fits (d : Delegate) : Type 0 where
  pub sender : IsPrefixed d.sender_id
  pub receiver : IsPrefixed d.receiver_id
  pub few : length d.actions < 4_294_967_296
  pub actions : ActionsFit d.actions
  pub numbers : length d.nonce_and_height ≡ 16
  pub key : KeyFits d.public_key
