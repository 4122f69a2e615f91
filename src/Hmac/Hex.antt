-- ===== src/Hmac/Hex.antt =====
-- `digest("hex")` and `Buffer.from(s, "hex")` of Node.
use fast_auth_indexer_api.Prelude.{
  ℕ, ◌+◌, ◌-◌, ◌*◌, ◌/◌, ◌%◌, ◌<◌, ◌≡◌, ◌&&◌, Option, none, some, List, [], ◌∷◌, ◌++◌, arith, ltb,
  leb, if◌then◌else◌, Text,
}

-- The digit that a character is, in lower or upper case.
unfoldable pub hex_digit : ℕ → Option ℕ
hex_digit c =
    if leb 48 c && leb c 57
    then some (c - 48)
    else if leb 97 c && leb c 102
    then some (c - 87)
    else if leb 65 c && leb c 70
    then some (c - 55)
    else none

abbrev pub prepend_byte : Option ℕ → Option ℕ → List ℕ → List ℕ
prepend_byte (some hi) (some lo) bytes = (hi * 16 + lo) ∷ bytes
prepend_byte _ _ bytes = []

-- Up to the first pair that is not two digits; a last character alone is dropped.
unfoldable pub from_hex : Text → List ℕ
unfolding hex_digit
from_hex [] = []
from_hex (c ∷ []) = []
from_hex (c ∷ d ∷ s) = prepend_byte (hex_digit c) (hex_digit d) (from_hex s)

unfoldable pub hex_char : ℕ → ℕ
hex_char n = if ltb n 10 then 48 + n else 87 + n

unfoldable pub to_hex : List ℕ → Text
unfolding hex_char
to_hex [] = []
to_hex (b ∷ bytes) = hex_char (b / 16) ∷ hex_char (b % 16) ∷ to_hex bytes

unfoldable pub AllBytes : List ℕ → Type 0
AllBytes [] = Unit
AllBytes (b ∷ bytes) = (b < 256) × AllBytes bytes

hex_digit-hex_char : (n : ℕ) → n < 16 → hex_digit (hex_char n) ≡ some n
unfolding hex_digit hex_char
hex_digit-hex_char n lt = ground arith

-- Bytes that were written as digits are read back, and what follows them from the first pair that is
-- not two digits is not read at all.
pub from_hex-to_hex :
    (bytes : List ℕ) (tail : Text)
    → AllBytes bytes
    → from_hex tail ≡ []
    → from_hex (to_hex bytes ++ tail) ≡ bytes
unfolding from_hex to_hex AllBytes
from_hex-to_hex [] tail all stops = stops
from_hex-to_hex (b ∷ bytes) tail (lt, all) stops =
    let ih = from_hex-to_hex bytes tail all stops in
    let hi = hex_digit-hex_char (b / 16) (omega arith) in
    let lo = hex_digit-hex_char (b % 16) (omega arith) in
    let whole : (b / 16) * 16 + b % 16 ≡ b = omega arith in ground (arith, ih, hi, lo, whole)
