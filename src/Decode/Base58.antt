-- ===== src/Decode/Base58.antt =====
-- src/modules/common/decoders/decode-sign-action.ts: base58Encode.
use fast_auth_indexer_api.Prelude.{
  ℕ, zero, suc, ◌+◌, ◌*◌, ◌/◌, ◌%◌, ◌≤◌, ◌<◌, ◌≡◌, refl, ap, ◌∙◌, List, [], ◌∷◌, ◌++◌, arith, Text,
  codes,
}

abbrev base58_alphabet : Text
base58_alphabet = codes "123456789ABCDEFGHJKLMNPQRSTUVWXYZabcdefghijkmnopqrstuvwxyz"

-- The loop that pushes what is left of the carry. A carry is divided by 58 in each round, so a fuel
-- that is no less than the carry is enough.
push_carry : ℕ → ℕ → List ℕ
push_carry fuel zero = []
push_carry zero (suc carry) = []
push_carry (suc fuel) (suc carry) =
    let rest = push_carry fuel (suc carry / 58) in suc carry % 58 ∷ rest

-- The round of one byte over the digits, the least one first.
add_byte : ℕ → List ℕ → List ℕ
unfolding push_carry
add_byte carry [] = push_carry carry carry
add_byte carry (digit ∷ digits) =
    let carry' = carry + digit * 256 in carry' % 58 ∷ add_byte (carry' / 58) digits

pub base58_digits : List ℕ → List ℕ → List ℕ
unfolding add_byte
base58_digits digits [] = digits
base58_digits digits (byte ∷ bytes) = base58_digits (add_byte byte digits) bytes

-- The leading zeros, and the bytes after them.
pub leading_zeros : List ℕ → ℕ × List ℕ
leading_zeros [] = (0, [])
leading_zeros (suc byte ∷ bytes) = (0, suc byte ∷ bytes)
leading_zeros (zero ∷ bytes) = let (zeros, rest) = leading_zeros bytes in (zeros + 1, rest)

unfoldable pub nth : Text → ℕ → ℕ
nth [] i = 0
nth (c ∷ cs) zero = c
nth (c ∷ cs) (suc i) = nth cs i

-- The characters of the digits, the greatest one first.
letters : List ℕ → Text
letters [] = []
letters (digit ∷ digits) = letters digits ++ (nth base58_alphabet digit ∷ [])

ones : ℕ → Text
ones zero = []
ones (suc n) = 49 ∷ ones n

pub base58_encode : List ℕ → Text
unfolding leading_zeros letters base58_digits ones
base58_encode bytes =
    let (zeros, rest) = leading_zeros bytes in ones zeros ++ letters (base58_digits [] rest)

-- The numbers that the digits and the bytes stand for.
pub value58 : List ℕ → ℕ
value58 [] = 0
value58 (digit ∷ digits) = digit + value58 digits * 58

pub value256 : ℕ → List ℕ → ℕ
value256 n [] = n
value256 n (byte ∷ bytes) = value256 (n * 256 + byte) bytes

push_carry-value58 : (fuel carry : ℕ) → carry ≤ fuel → value58 (push_carry fuel carry) ≡ carry
unfolding push_carry value58
push_carry-value58 zero zero p = refl
push_carry-value58 (suc fuel) zero p = refl
push_carry-value58 zero (suc carry) p = absurd (omega arith)
push_carry-value58 (suc fuel) (suc carry) p =
    let ih = push_carry-value58 fuel (suc carry / 58) (omega arith) in omega (arith, ih)

add_byte-value58 :
    (carry : ℕ) (digits : List ℕ) → value58 (add_byte carry digits) ≡ value58 digits * 256 + carry
unfolding add_byte value58
add_byte-value58 carry [] =
    let pushed = push_carry-value58 carry carry (omega arith) in omega (arith, pushed)
add_byte-value58 carry (digit ∷ digits) =
    let ih = add_byte-value58 ((carry + digit * 256) / 58) digits in omega (arith, ih)

base58_digits-value58 :
    (digits bytes : List ℕ) → value58 (base58_digits digits bytes) ≡ value256 (value58 digits) bytes
unfolding base58_digits value256
base58_digits-value58 digits [] = refl
base58_digits-value58 digits (byte ∷ bytes) =
    base58_digits-value58 (add_byte byte digits) bytes
    ∙ ap (λ n. value256 n bytes) (add_byte-value58 byte digits)

-- Each digit is less than 58.
abbrev pub AllDigits : List ℕ → Type 0
AllDigits digits = (i : ℕ) → nth digits i < 58

push_carry-AllDigits : (fuel carry : ℕ) → AllDigits (push_carry fuel carry)
unfolding push_carry nth
push_carry-AllDigits zero zero i = omega arith
push_carry-AllDigits (suc fuel) zero i = omega arith
push_carry-AllDigits zero (suc carry) i = omega arith
push_carry-AllDigits (suc fuel) (suc carry) zero = omega arith
push_carry-AllDigits (suc fuel) (suc carry) (suc i) = push_carry-AllDigits fuel (suc carry / 58) i

add_byte-AllDigits : (carry : ℕ) (digits : List ℕ) → AllDigits (add_byte carry digits)
unfolding add_byte nth
add_byte-AllDigits carry [] i = push_carry-AllDigits carry carry i
add_byte-AllDigits carry (digit ∷ digits) zero = omega arith
add_byte-AllDigits carry (digit ∷ digits) (suc i) =
    add_byte-AllDigits ((carry + digit * 256) / 58) digits i

digits-AllDigits :
    (digits bytes : List ℕ) → AllDigits digits → AllDigits (base58_digits digits bytes)
unfolding base58_digits
digits-AllDigits digits [] d = d
digits-AllDigits digits (byte ∷ bytes) d =
    digits-AllDigits (add_byte byte digits) bytes (add_byte-AllDigits byte digits)

-- The digits that base58Encode computes for any bytes are all less than 58, and read in base 58,
-- the least one first, they are the number that the bytes are in base 256, the greatest one first.
pub base58_digits-IsFaithful :
    (bytes : List ℕ)
    → (value58 (base58_digits [] bytes) ≡ value256 0 bytes)
      × ((i : ℕ) → nth (base58_digits [] bytes) i < 58)
unfolding value58 nth
base58_digits-IsFaithful bytes =
    (base58_digits-value58 [] bytes, digits-AllDigits [] bytes (λ i. omega arith))
