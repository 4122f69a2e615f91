-- ===== src/Prelude/Sets.antt =====
-- Sets of texts, held as lists without repetition.
use Prim.Native.Nat.{suc, ◌+◌, ◌≤◌}
use mathlib.Core.Path.{◌≡◌, refl, sym}
use mathlib.Core.Logic.{◌⊎◌, inl, inr}
use mathlib.Core.Bool.{true, false, ◌||◌}
use mathlib.Core.List.{List, [], ◌∷◌, ◌++◌}
use native.Mathlib.Omega.{arith}
use fast_auth_indexer_api.Prelude.Tests.{Bool-cases}
use fast_auth_indexer_api.Prelude.Lists.{length}
use fast_auth_indexer_api.Prelude.Texts.{
  Text, eq_text, eq_text_iff, eq_text_refl, has, add, has-append, has-add,
}

abbrev pub IsDistinct : List Text → Type 0
IsDistinct [] = Unit
IsDistinct (t ∷ ts) = (has ts t ≡ false) × IsDistinct ts

abbrev pub IsSubset : List Text → List Text → Type 0
IsSubset xs ys = (t : Text) → has xs t ≡ true → has ys t ≡ true

IsDistinct-append_one :
    (ts : List Text) (s : Text) → has ts s ≡ false → IsDistinct ts → IsDistinct (ts ++ s ∷ [])
unfolding has
IsDistinct-append_one [] s h d = (refl, tt)
IsDistinct-append_one (t ∷ ts) s h d = (
  ground (arith, has-append ts (s ∷ []) t, eq_text_iff s t, eq_text_iff t s),
  IsDistinct-append_one ts s (ground arith) d.1,
)

pub add-IsDistinct : (s : Text) (ts : List Text) → IsDistinct ts → IsDistinct (add s ts)
unfolding add
add-IsDistinct s ts d = elim (Bool-cases (has ts s)) [
  | inl old ↦ rw old d
  | inr new ↦ rw new (IsDistinct-append_one ts s new d)
]

-- `new Set(xs)`, in the order of insertion, behind what is in it.
unfoldable pub set_of : List Text → List Text → List Text
unfolding add
set_of [] seen = seen
set_of (x ∷ xs) seen = set_of xs (add x seen)

pub set_of-IsDistinct : (xs seen : List Text) → IsDistinct seen → IsDistinct (set_of xs seen)
unfolding set_of
set_of-IsDistinct [] seen d = d
set_of-IsDistinct (x ∷ xs) seen d = set_of-IsDistinct xs (add x seen) (add-IsDistinct x seen d)

pub has-set_of :
    (xs seen : List Text) (t : Text) → has (set_of xs seen) t ≡ (has seen t || has xs t)
unfolding set_of has
has-set_of [] seen t = ground arith
has-set_of (x ∷ xs) seen t = ground (arith, has-set_of xs (add x seen) t, has-add x t seen)

remove : Text → List Text → List Text
remove s [] = []
remove s (t ∷ ts) = elim (eq_text t s) [ true ↦ ts | false ↦ t ∷ remove s ts ]

length-remove :
    (s : Text) (ts : List Text) → has ts s ≡ true → suc (length (remove s ts)) ≤ length ts
unfolding remove has
length-remove s [] h = cc
length-remove s (t ∷ ts) h = ground (arith, length-remove s ts)

has-remove :
    (s u : Text) (ts : List Text)
    → eq_text s u ≡ false
    → has ts u ≡ true
    → has (remove s ts) u ≡ true
unfolding remove has
has-remove s u [] n h = cc
has-remove s u (t ∷ ts) n h = elim (Bool-cases (eq_text t s)) [
  | inl same ↦ rw (same, remove) (ground (arith, eq_text_iff t s))
  | inr other ↦ rw (other, remove) (ground (arith, has-remove s u ts n))
]

-- A set has at most as many members as one that includes it.
pub length_mono : (xs ys : List Text) → IsDistinct xs → IsSubset xs ys → length xs ≤ length ys
unfolding has
length_mono [] ys d sub = omega arith
length_mono (x ∷ xs) ys d sub = omega (
  arith,
  length_mono xs (remove x ys) d.1 (λ t h. has-remove x t ys (differs t h) (sub t (ground arith))),
  length-remove x ys (sub x (ground (arith, eq_text_iff x x))),
)
  where
    differs : (t : Text) → has xs t ≡ true → eq_text x t ≡ false
    differs t h = elim (Bool-cases (eq_text x t)) [
      | inl same ↦ ground (arith, eq_text_iff x t)
      | inr other ↦ other
    ]

-- A member of one list that another does not have, if there is one.
pub member_outside :
    (xs ys : List Text) → IsSubset xs ys ⊎ ((t : Text) × ((has xs t ≡ true) × (has ys t ≡ false)))
unfolding has
member_outside [] ys = inl (λ t h. cc)
member_outside (x ∷ xs) ys = elim (Bool-cases (has ys x)) [
  | inl there ↦ elim (member_outside xs ys) [
    | inl rest ↦ inl (λ t h. ground (arith, there, rest t, eq_text_iff x t))
    | inr (t, (h, n)) ↦ inr (t, (ground (arith, h), n))
  ]
  | inr missing ↦ inr (x, (ground (arith, eq_text_refl x), missing))
]

-- A set that has at most one member more than a set within it has all its members in that one, but one.
pub all_but_one :
    (xs ys : List Text)
    → IsDistinct ys
    → IsSubset ys xs
    → length xs ≤ length ys + 1
    → (other : Text) × ((t : Text) → has xs t ≡ true → (has ys t ≡ true) ⊎ (t ≡ other))
unfolding has
all_but_one xs ys d sub le = elim (member_outside xs ys) [
  | inl all ↦ ([], λ t h. inl (all t h))
  | inr (other, (there, outside)) ↦ (
    other,
    λ t h. elim (Bool-cases (has ys t)) [
      | inl inside ↦ inl inside
      | inr missing ↦ elim (Bool-cases (eq_text other t)) [
        | inl same ↦ inr (sym ((eq_text_iff other t).0 same))
        | inr differs ↦
            let wider : IsSubset (other ∷ t ∷ ys) xs =
              λ u k. ground (arith, k, sub u, there, h, eq_text_iff other u, eq_text_iff t u) in
            let count =
              length_mono (other ∷ t ∷ ys) xs
                ((
                  ground (arith, outside, differs, eq_text_iff t other, eq_text_iff other t),
                  (missing, d),
                ))
                wider in
            absurd (omega (arith, count, le))
      ]
    ],
  )
]
