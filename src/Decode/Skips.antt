-- ===== src/Decode/Skips.antt =====
-- The skips of the decoder of decode-sign-action.ts over what the encoding writes.
use fast_auth_indexer_api.Prelude.{
  ℕ, ◌+◌, ◌*◌, ◌/◌, ◌%◌, ◌≤◌, ◌<◌, ◌≡◌, ap, ◌∙◌, Option, none, some, List, [], ◌∷◌, ◌++◌, arith,
  length, length-append, ◌>>=◌,
}
use fast_auth_indexer_api.Decode.{
  read_u32_le, within, skip_length_prefixed, key_len, skip_public_key, skip_methods,
  skip_function_call_permission, skip_receiver_and_methods, skip_permission, skip_access_key,
  skip_function_call, skip_add_key,
}
use mathlib.Core.Path.{subst}
use fast_auth_indexer_api.Decode.Encode.{
  le32, prefixed, Key, ed25519, secp256k1, encode_key, encode_all, Permission, limited, full_access,
  encode_allowance, encode_permission, IsPrefixed, KeyFits, AllowanceFits, AllPrefixed,
  PermissionFits,
}
use fast_auth_indexer_api.Decode.Holds.{Holds, Holds-fits, Holds-split}

-- A step of a chain that succeeds.
pub then_some {ℓ κ} :
    {A : Type ℓ} {B : Type κ} (m : Option A) (f : A → Option B) (a : A) (r : Option B)
    → m ≡ some a
    → f a ≡ r
    → (m >>= f) ≡ r
then_some m f a r p q = ap (λ o. o >>= f) p ∙ q

pub within-fits :
    (buf : List ℕ) (target : ℕ) → target ≤ length buf → within buf target ≡ some target
unfolding within
within-fits buf target le = ground arith

le32-value :
    (n : ℕ)
    → n < 4_294_967_296
    → n % 256
        + ((n / 256) % 256 * 256
            + ((n / 65536) % 256 * 65536 + (n / 16_777_216) % 256 * 16_777_216))
      ≡ n
le32-value n fits = omega arith

pub read_u32_le-le32 :
    (buf : List ℕ) (offset n : ℕ)
    → n < 4_294_967_296
    → Holds buf offset (le32 n)
    → read_u32_le buf offset ≡ some n
unfolding read_u32_le Holds le32
read_u32_le-le32 buf offset n fits (_, (b0, (_, (b1, (_, (b2, (last, (b3, _)))))))) =
    let value = le32-value n fits in ground (arith, b0, b1, b2, b3, last, value)

-- A length prefix and its bytes are skipped.
pub skip-prefixed :
    (buf : List ℕ) (offset : ℕ) (bytes : List ℕ)
    → IsPrefixed bytes
    → Holds buf offset (prefixed bytes)
    → skip_length_prefixed buf offset ≡ some (offset + length (prefixed bytes))
unfolding skip_length_prefixed prefixed le32
skip-prefixed buf offset bytes fits h =
    let (len, body) = Holds-split buf offset (le32 (length bytes)) bytes h in
    let le = Holds-fits buf (offset + 4) bytes body in
    then_some (read_u32_le buf offset) _ (length bytes) _
      (read_u32_le-le32 buf offset (length bytes) fits len)
      (within-fits buf (offset + 4 + length bytes) le ∙ ap some (omega arith))

pub skip-key :
    (buf : List ℕ) (offset : ℕ) (key : Key)
    → KeyFits key
    → Holds buf offset (encode_key key)
    → skip_public_key buf offset ≡ some (offset + length (encode_key key))
unfolding skip_public_key encode_key KeyFits key_len within Holds
skip-key buf offset (ed25519 bytes) fits (lt, (tag, h)) =
    let le = Holds-fits buf (offset + 1) bytes h in ground (arith, tag, fits, le)
skip-key buf offset (secp256k1 bytes) fits (lt, (tag, h)) =
    let le = Holds-fits buf (offset + 1) bytes h in ground (arith, tag, fits, le)

skip-all :
    (buf : List ℕ) (offset : ℕ) (methods : List (List ℕ))
    → AllPrefixed methods
    → Holds buf offset (encode_all methods)
    → skip_methods buf (length methods) offset ≡ some (offset + length (encode_all methods))
unfolding skip_methods encode_all AllPrefixed Holds
skip-all buf offset [] fits h = ap some (omega arith)
skip-all buf offset (bytes ∷ more) (one, others) h =
    let (first, later) = Holds-split buf offset (prefixed bytes) (encode_all more) h in
    let ih = skip-all buf (offset + length (prefixed bytes)) more others later in
    then_some (skip_length_prefixed buf offset) _ _ _ (skip-prefixed buf offset bytes one first)
      (ih ∙ ap some (ground (arith, length-append (prefixed bytes) (encode_all more))))

-- What a limited permission starts with is read as its allowance.
skip-limited :
    (buf : List ℕ) (offset : ℕ) (receiver : List ℕ) (methods : List (List ℕ))
    → IsPrefixed receiver
    → length methods < 4_294_967_296
    → AllPrefixed methods
    → Holds buf offset (prefixed receiver ++ (le32 (length methods) ++ encode_all methods))
    → skip_receiver_and_methods buf offset
      ≡ some (offset + length (prefixed receiver ++ (le32 (length methods) ++ encode_all methods)))
unfolding skip_receiver_and_methods le32
skip-limited buf offset receiver methods r few all h =
    let (first, tail) = Holds-split buf offset (prefixed receiver) _ h in
    let next = offset + length (prefixed receiver) in
    let (count, later) = Holds-split buf next (le32 (length methods)) (encode_all methods) tail in
    then_some (skip_length_prefixed buf offset) _ next _ (skip-prefixed buf offset receiver r first)
      (then_some (read_u32_le buf next) _ (length methods) _
        (read_u32_le-le32 buf next (length methods) few count)
        (skip-all buf (next + 4) methods all later
          ∙ ap some (
              ground (
                arith,
                length-append (prefixed receiver) (le32 (length methods) ++ encode_all methods),
                length-append (le32 (length methods)) (encode_all methods),
              ))))

skip-function_call_permission :
    (buf : List ℕ) (offset : ℕ) (allowance : Option (List ℕ)) (rest : List ℕ) (r : Option ℕ)
    → AllowanceFits allowance
    → Holds buf offset (encode_allowance allowance ++ rest)
    → skip_receiver_and_methods buf (offset + length (encode_allowance allowance)) ≡ r
    → skip_function_call_permission buf offset ≡ r
unfolding skip_function_call_permission encode_allowance AllowanceFits Holds within
skip-function_call_permission buf offset none rest r fits (lt, (tag, _)) p = ground (arith, tag, p)
skip-function_call_permission buf offset (some allowance) rest r fits (lt, (tag, _)) p =
    ground (arith, tag, fits, p)

skip-permission :
    (buf : List ℕ) (offset : ℕ) (permission : Permission)
    → PermissionFits permission
    → Holds buf (offset + 8) (encode_permission permission)
    → skip_access_key buf offset ≡ some (offset + 8 + length (encode_permission permission))
unfolding skip_access_key skip_permission encode_permission PermissionFits Holds within
skip-permission buf offset full_access fits (lt, (tag, h)) = ground (arith, tag)
skip-permission buf offset (limited allowance receiver methods) (a, (r, (few, all)))
      (lt, (tag, h)) =
    let tail = prefixed receiver ++ (le32 (length methods) ++ encode_all methods) in
    let start = offset + 8 + 1 in
    let (_, later) = Holds-split buf start (encode_allowance allowance) tail h in
    let skipped = skip-function_call_permission buf start allowance tail _ a h (
      skip-limited buf (start + length (encode_allowance allowance)) receiver methods r few all
        later) in
    ground (arith, tag, skipped, length-append (encode_allowance allowance) tail)

pub skip-function_call :
    (buf : List ℕ) (offset : ℕ) (method args gas_deposit : List ℕ)
    → IsPrefixed method
    → IsPrefixed args
    → length gas_deposit ≡ 24
    → Holds buf offset (prefixed method ++ (prefixed args ++ gas_deposit))
    → skip_function_call buf offset
      ≡ some (offset + length (prefixed method ++ (prefixed args ++ gas_deposit)))
unfolding skip_function_call
skip-function_call buf offset method args gas_deposit m a g h =
    let (first, tail) = Holds-split buf offset (prefixed method) (prefixed args ++ gas_deposit) h in
    let next = offset + length (prefixed method) in
    let (second, later) = Holds-split buf next (prefixed args) gas_deposit tail in
    let last = next + length (prefixed args) in
    let le = Holds-fits buf last gas_deposit later in
    then_some (skip_length_prefixed buf offset) _ next _ (skip-prefixed buf offset method m first) (
      then_some (skip_length_prefixed buf next) _ last _ (skip-prefixed buf next args a second) (
        within-fits buf (last + 24) (omega (arith, le, g))
        ∙ ap some (
            ground (
              arith,
              g,
              length-append (prefixed method) (prefixed args ++ gas_deposit),
              length-append (prefixed args) gas_deposit,
            ))))

pub skip-add_key :
    (buf : List ℕ) (offset : ℕ) (key : Key) (nonce : List ℕ) (permission : Permission)
    → KeyFits key
    → length nonce ≡ 8
    → PermissionFits permission
    → Holds buf offset (encode_key key ++ (nonce ++ encode_permission permission))
    → skip_add_key buf offset
      ≡ some (offset + length (encode_key key ++ (nonce ++ encode_permission permission)))
unfolding skip_add_key
skip-add_key buf offset key nonce permission k n fits h =
    let (first, tail) =
      Holds-split buf offset (encode_key key) (nonce ++ encode_permission permission) h in
    let next = offset + length (encode_key key) in
    let (_, later) = Holds-split buf next nonce (encode_permission permission) tail in
    let moved = subst (λ o. Holds buf (next + o) (encode_permission permission)) n later in
    then_some (skip_public_key buf offset) _ next _ (skip-key buf offset key k first) (
      skip-permission buf next permission fits moved
      ∙ ap some (
          ground (
            arith,
            n,
            length-append (encode_key key) (nonce ++ encode_permission permission),
            length-append nonce (encode_permission permission),
          )))
