-- ===== src/Prelude/Decimal.antt =====
-- `String(n)` and `Number(s)` on the natural numbers. `Number` also reads signs, fractions,
-- exponents, hexadecimals and `Infinity`; no text of that kind is ever stored, and here they are
-- read as not finite.
use fast_auth_indexer_api.Prelude.Tests.{leb, ltb, if◌then◌else◌, Bool-cases}
use fast_auth_indexer_api.Prelude.Texts.{Text, trim, trim-eq_of_NoSpace, NoSpace, NoSpace-append}
use Prim.Native.Nat.{ℕ, zero, suc, ◌+◌, ◌-◌, ◌*◌, ◌/◌, ◌%◌, ◌<◌}
use mathlib.Core.Path.{◌≡◌, refl, ap, ◌∙◌}
use mathlib.Core.Logic.{◌≢◌, inl, inr}
use mathlib.Core.Bool.{Bool, ◌&&◌}
use mathlib.Core.Option.{Option, none, some}
use mathlib.Core.List.{[], ◌∷◌, ◌++◌}
use native.Mathlib.Omega.{arith}

-- The decimal digits of `n`, the most significant first.
print_digits : ℕ → ℕ → Text
print_digits zero n = []
print_digits (suc fuel) n =
    let higher = print_digits fuel (n / 10) in
    if ltb n 10 then (48 + n) ∷ [] else higher ++ (48 + n % 10) ∷ []

-- `String(n)`
unfoldable pub print : ℕ → Text
unfolding print_digits
print n = print_digits (suc n) n

is_digit : ℕ → Bool
is_digit c = leb b'0' c && leb c b'9'

digits_value : ℕ → Text → Option ℕ
digits_value acc [] = some acc
digits_value acc (c ∷ s) =
    let rest = digits_value (10 * acc + (c - 48)) s in if is_digit c then rest else none

-- `Number(s)`; `none` stands for a value that is not finite. The empty text is 0.
unfoldable pub number : Text → Option ℕ
unfolding digits_value is_digit
number s = digits_value 0 (trim s)

digits_value-append :
    (acc : ℕ) (s : Text) (v d : ℕ)
    → digits_value acc s ≡ some v
    → d < 10
    → digits_value acc (s ++ (48 + d) ∷ []) ≡ some (10 * v + d)
unfolding digits_value is_digit
digits_value-append acc [] v d e h = ground arith
digits_value-append acc (c ∷ s) v d e h =
    ground (arith, digits_value-append (10 * acc + (c - 48)) s v d)

print_digits-value : (fuel n : ℕ) → n < fuel → digits_value 0 (print_digits fuel n) ≡ some n
unfolding print_digits digits_value
print_digits-value zero n h = elim h [ ]
print_digits-value (suc fuel) n h = elim (Bool-cases (ltb n 10)) [
  | inl small ↦ rw small (digits_value-append 0 [] 0 n refl (ground arith) ∙ ap some (omega arith))
  | inr large ↦ rw large (
      digits_value-append 0 _ (n / 10) (n % 10) (print_digits-value fuel (n / 10) (ground arith))
        (omega arith)
      ∙ ap some (omega arith))
]

print_digits-NoSpace : (fuel n : ℕ) → NoSpace (print_digits fuel n)
unfolding print_digits
print_digits-NoSpace zero n = tt
print_digits-NoSpace (suc fuel) n = elim (Bool-cases (ltb n 10)) [
  | inl small ↦ rw small (omega arith, tt)
  | inr large ↦ rw large (NoSpace-append _ _ (print_digits-NoSpace fuel (n / 10)) (omega arith, tt))
]

-- Reading back what was printed gives the number.
pub number-print : (n : ℕ) → number (print n) ≡ some n
unfolding print number
number-print n =
    ap (digits_value 0) (trim-eq_of_NoSpace _ (print_digits-NoSpace (suc n) n))
    ∙ print_digits-value (suc n) n (omega arith)

-- An absent checkpoint is read through `Number("")`, which is 0.
pub number-nil : number [] ≡ some 0
unfolding number trim
number-nil = refl

-- No number is printed as the empty text.
pub print-ne-nil : (n : ℕ) → print n ≢ []
unfolding print
print-ne-nil n e = elim (Bool-cases (ltb n 10)) [
  | inl small ↦ ground arith
  | inr large ↦ ground (arith, append-ne-nil (print_digits n (n / 10)) (48 + n % 10))
]
  where
    append-ne-nil : (s : Text) (c : ℕ) → s ++ c ∷ [] ≢ []
    append-ne-nil [] c e = cc
    append-ne-nil (x ∷ s) c e = cc
