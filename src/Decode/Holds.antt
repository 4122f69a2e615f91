-- ===== src/Decode/Holds.antt =====
-- What a buffer holds at an offset.
use fast_auth_indexer_api.Prelude.{
  ℕ, suc, ◌+◌, ◌≤◌, ◌<◌, ◌≡◌, refl, List, [], ◌∷◌, ◌++◌, arith, length,
}
use mathlib.Core.Path.{subst}
use fast_auth_indexer_api.Decode.{at}

-- The buffer has these bytes at the offset.
unfoldable pub Holds : List ℕ → ℕ → List ℕ → Type 0
Holds buf offset [] = offset ≤ length buf
Holds buf offset (b ∷ bytes) =
    (offset < length buf) × ((at buf offset ≡ b) × Holds buf (offset + 1) bytes)

pub Holds-fits :
    (buf : List ℕ) (offset : ℕ) (bytes : List ℕ)
    → Holds buf offset bytes
    → offset + length bytes ≤ length buf
unfolding Holds
Holds-fits buf offset [] h = ground arith
Holds-fits buf offset (b ∷ bytes) (_, (_, h)) =
    let ih = Holds-fits buf (offset + 1) bytes h in omega (arith, ih)

pub Holds-split :
    (buf : List ℕ) (offset : ℕ) (xs ys : List ℕ)
    → Holds buf offset (xs ++ ys)
    → Holds buf offset xs × Holds buf (offset + length xs) ys
unfolding Holds
Holds-split buf offset [] ys h =
    (ground (arith, Holds-fits buf offset ys h), subst (λ o. Holds buf o ys) (omega arith) h)
Holds-split buf offset (x ∷ xs) ys (lt, (same, h)) =
    let (first, later) = Holds-split buf (offset + 1) xs ys h in
    ((lt, (same, first)), subst (λ o. Holds buf o ys) (omega arith) later)

Holds-next :
    (b : ℕ) (buf : List ℕ) (offset : ℕ) (bytes : List ℕ)
    → Holds buf offset bytes
    → Holds (b ∷ buf) (suc offset) bytes
unfolding Holds at
Holds-next b buf offset [] h = omega arith
Holds-next b buf offset (x ∷ bytes) (lt, (same, h)) = (
  omega arith,
  (
    same,
    subst (λ o. Holds (b ∷ buf) o bytes) (omega arith) (Holds-next b buf (offset + 1) bytes h),
  ),
)

pub Holds-all : (buf : List ℕ) → Holds buf 0 buf
unfolding Holds at
Holds-all [] = omega arith
Holds-all (b ∷ buf) = (omega arith, (refl, Holds-next b buf 0 buf (Holds-all buf)))
