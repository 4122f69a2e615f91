-- ===== src/Prelude/Texts.antt =====
-- Texts as lists of code units, with the string operations that the source uses on them. Case and
-- white space are those of ASCII, in which account ids, keys and RPC messages are written.
use Prim.Native.Nat.{ℕ, ◌+◌, ◌<◌}
use Prim.Native.Char.{code}
use Prim.Native.String.{String}
use mathlib.Core.Path.{◌≡◌, refl, sym, ap, ◌∙◌, subst}
use mathlib.Core.Logic.{◌↔◌, inl, inr}
use mathlib.Core.Bool.{Bool, true, false, ◌&&◌, ◌||◌}
use mathlib.Core.List.{
  List, [], ◌∷◌, ◌++◌, map, reverse, reverse-cons, reverse-append, reverse-reverse,
}
use native.Mathlib.Omega.{arith}
use fast_auth_indexer_api.Prelude.Tests.{leb, ◌==◌, if◌then◌else◌, Bool-cases}

abbrev pub Text : Type 0
Text = List ℕ

-- A literal.
abbrev pub codes : String → Text
codes String.[] = []
codes (String.◌∷◌ c s) = code c ∷ codes s

-- `a === b`
unfoldable pub eq_text : Text → Text → Bool
eq_text [] [] = true
eq_text [] (_ ∷ _) = false
eq_text (_ ∷ _) [] = false
eq_text (x ∷ xs) (y ∷ ys) = x == y && eq_text xs ys

pub eq_text_iff : (s t : Text) → (eq_text s t ≡ true) ↔ (s ≡ t)
unfolding eq_text
eq_text_iff [] [] = ground arith
eq_text_iff [] (_ ∷ _) = ground arith
eq_text_iff (_ ∷ _) [] = ground arith
eq_text_iff (x ∷ xs) (y ∷ ys) = ground (arith, eq_text_iff xs ys)

pub eq_text_refl : (s : Text) → eq_text s s ≡ true
eq_text_refl s = (eq_text_iff s s).1 refl

lower_code : ℕ → ℕ
lower_code c = if leb b'A' c && leb c b'Z' then c + 32 else c

-- `s.toLowerCase()`
unfoldable pub to_lower_case : Text → Text
unfolding lower_code
to_lower_case = map lower_code

is_space : ℕ → Bool
is_space c = (leb 9 c && leb c 13) || c == 32

trim_start : Text → Text
trim_start [] = []
trim_start (c ∷ s) = let rest = trim_start s in if is_space c then rest else c ∷ s

-- `s.trim()`
unfoldable pub trim : Text → Text
unfolding trim_start is_space
trim s = reverse (trim_start (reverse (trim_start s)))

-- `s.startsWith(p)`
unfoldable pub starts_with : Text → Text → Bool
starts_with s [] = true
starts_with [] (_ ∷ _) = false
starts_with (x ∷ xs) (y ∷ ys) = x == y && starts_with xs ys

-- `s.includes(p)`
unfoldable pub includes : Text → Text → Bool
unfolding starts_with
includes [] p = starts_with [] p
includes (c ∷ s) p = starts_with (c ∷ s) p || includes s p

-- `xs.includes(s)`, and membership in a `Set<string>`
unfoldable pub has : List Text → Text → Bool
unfolding eq_text
has [] s = false
has (t ∷ ts) s = eq_text t s || has ts s

-- Every code unit lies above the white space.
abbrev pub NoSpace : Text → Type 0
NoSpace [] = Unit {0}
NoSpace (c ∷ s) = (32 < c) × NoSpace s

pub NoSpace-append : (s t : Text) → NoSpace s → NoSpace t → NoSpace (s ++ t)
NoSpace-append [] t h k = k
NoSpace-append (c ∷ s) t h k = (h.0, NoSpace-append s t h.1 k)

NoSpace-reverse : (s : Text) → NoSpace s → NoSpace (reverse s)
NoSpace-reverse [] h = tt
NoSpace-reverse (c ∷ s) h =
    rw (reverse-cons c s) (NoSpace-append (reverse s) (c ∷ []) (NoSpace-reverse s h.1) (h.0, tt))

trim_start-eq_of_NoSpace : (s : Text) → NoSpace s → trim_start s ≡ s
unfolding trim_start is_space
trim_start-eq_of_NoSpace [] h = refl
trim_start-eq_of_NoSpace (c ∷ s) h = ground arith

pub trim-eq_of_NoSpace : (s : Text) → NoSpace s → trim s ≡ s
unfolding trim
trim-eq_of_NoSpace s h =
    rw (trim_start-eq_of_NoSpace s h, trim_start-eq_of_NoSpace (reverse s) (NoSpace-reverse s h))
      (reverse-reverse s)

-- No white space at the start.
abbrev IsClean : Text → Type 0
IsClean [] = Unit {0}
IsClean (c ∷ s) = is_space c ≡ false

trim_start-IsClean : (s : Text) → IsClean (trim_start s)
unfolding trim_start
trim_start-IsClean [] = tt
trim_start-IsClean (c ∷ s) = elim (Bool-cases (is_space c)) [
  | inl space ↦ rw space (trim_start-IsClean s)
  | inr mark ↦ rw mark mark
]

trim_start-eq_of_IsClean : (s : Text) → IsClean s → trim_start s ≡ s
unfolding trim_start
trim_start-eq_of_IsClean [] h = refl
trim_start-eq_of_IsClean (c ∷ s) h = rw h refl

-- What is left has lost a prefix.
trim_start-prefix : (s : Text) → (p : Text) × (s ≡ p ++ trim_start s)
unfolding trim_start
trim_start-prefix [] = ([], refl)
trim_start-prefix (c ∷ s) = elim (Bool-cases (is_space c)) [
  | inl space ↦ let (p, e) = trim_start-prefix s in (c ∷ p, rw space (ap (λ t. c ∷ t) e))
  | inr mark ↦ ([], rw mark refl)
]

IsClean-prefix : (a b : Text) → IsClean (a ++ b) → IsClean a
IsClean-prefix [] b h = tt
IsClean-prefix (c ∷ a) b h = h

-- Trimming twice is trimming once.
pub trim-trim : (s : Text) → trim (trim s) ≡ trim s
unfolding trim
trim-trim s =
    let u = trim_start s in
    let v = trim_start (reverse u) in
    let (p, e) = trim_start-prefix (reverse u) in
    let clean : IsClean (reverse v) = IsClean-prefix (reverse v) (reverse p) (
      subst IsClean (sym (reverse-reverse u) ∙ ap reverse e ∙ reverse-append p v)
        (trim_start-IsClean s)) in
    rw
      (
        trim_start-eq_of_IsClean (reverse v) clean,
        reverse-reverse v,
        trim_start-eq_of_IsClean v (trim_start-IsClean (reverse u)),
      )
      refl

lower_code-lower_code : (c : ℕ) → lower_code (lower_code c) ≡ lower_code c
unfolding lower_code
lower_code-lower_code c = ground arith

to_lower_case-to_lower_case : (s : Text) → to_lower_case (to_lower_case s) ≡ to_lower_case s
unfolding to_lower_case
to_lower_case-to_lower_case [] = refl
to_lower_case-to_lower_case (c ∷ s) = cc (lower_code-lower_code c, to_lower_case-to_lower_case s)

is_space-lower_code : (c : ℕ) → is_space (lower_code c) ≡ is_space c
unfolding is_space lower_code
is_space-lower_code c = ground arith

trim_start-to_lower_case : (s : Text) → trim_start (to_lower_case s) ≡ to_lower_case (trim_start s)
unfolding trim_start to_lower_case
trim_start-to_lower_case [] = refl
trim_start-to_lower_case (c ∷ s) = elim (Bool-cases (is_space c)) [
  | inl space ↦ rw (is_space-lower_code c, space) (trim_start-to_lower_case s)
  | inr mark ↦ rw (is_space-lower_code c, mark) refl
]

to_lower_case-append : (s t : Text) → to_lower_case (s ++ t) ≡ to_lower_case s ++ to_lower_case t
unfolding to_lower_case
to_lower_case-append [] t = refl
to_lower_case-append (c ∷ s) t = ap (λ u. lower_code c ∷ u) (to_lower_case-append s t)

reverse-to_lower_case : (s : Text) → reverse (to_lower_case s) ≡ to_lower_case (reverse s)
unfolding to_lower_case
reverse-to_lower_case [] = refl
reverse-to_lower_case (c ∷ s) =
    rw (reverse-cons c s, reverse-cons (lower_code c) (map lower_code s))
      (ap (λ t. t ++ (lower_code c ∷ [])) (reverse-to_lower_case s)
        ∙ sym (to_lower_case-append (reverse s) (c ∷ [])))

trim-to_lower_case : (s : Text) → trim (to_lower_case s) ≡ to_lower_case (trim s)
unfolding trim
trim-to_lower_case s =
    let t = trim_start s in
    ap (λ u. reverse (trim_start (reverse u))) (trim_start-to_lower_case s)
    ∙ ap (λ u. reverse (trim_start u)) (reverse-to_lower_case t)
    ∙ ap reverse (trim_start-to_lower_case (reverse t))
    ∙ reverse-to_lower_case (trim_start (reverse t))

-- Trimming and lower-casing twice is doing it once.
pub normal_form-idempotent :
    (s : Text) → to_lower_case (trim (to_lower_case (trim s))) ≡ to_lower_case (trim s)
normal_form-idempotent s =
    ap to_lower_case (trim-to_lower_case (trim s) ∙ ap to_lower_case (trim-trim s))
    ∙ to_lower_case-to_lower_case (trim s)

-- `set.add(s)`: a `Set<string>` as a list without repetition, in the order of insertion.
unfoldable pub add : Text → List Text → List Text
unfolding has
add s ts = if has ts s then ts else ts ++ s ∷ []

pub has-append : (xs ys : List Text) (s : Text) → has (xs ++ ys) s ≡ (has xs s || has ys s)
unfolding has
has-append [] ys s = refl
has-append (x ∷ xs) ys s = ground (arith, has-append xs ys s)

pub has-add : (s t : Text) (ts : List Text) → has (add s ts) t ≡ (has ts t || eq_text s t)
unfolding add
has-add s t ts = ground (arith, has-append ts (s ∷ []) t, eq_text_iff s t)

starts_with-append : (p s : Text) → starts_with (p ++ s) p ≡ true
unfolding starts_with
starts_with-append [] [] = refl
starts_with-append [] (c ∷ s) = refl
starts_with-append (c ∷ p) s = ground (arith, starts_with-append p s)

includes-starts_with : (s p : Text) → starts_with s p ≡ true → includes s p ≡ true
unfolding includes
includes-starts_with [] p h = h
includes-starts_with (c ∷ s) p h = ground arith

-- What stands within a text is found, whatever surrounds it.
pub includes-append : (a p s : Text) → includes (a ++ p ++ s) p ≡ true
unfolding includes
includes-append [] p s = includes-starts_with (p ++ s) p (starts_with-append p s)
includes-append (c ∷ a) p s = ground (arith, includes-append a p s)
