-- ===== src/HttpPool/Availability.antt =====
-- The endpoint of http-endpoint-pool.ts that an attempt goes to.
use fast_auth_indexer_api.Prelude.{
  ℕ, zero, suc, ◌+◌, ◌-◌, ◌≤◌, ◌<◌, ◌≡◌, refl, sym, ap, inl, inr, true, false, some, List, [], ◌∷◌,
  arith, ltb, leb, if◌then◌else◌, Bool-cases, length,
}
use mathlib.Core.Path.{subst}
use fast_auth_indexer_api.Prelude.{get_elem?}
use fast_auth_indexer_api.HttpPool.{
  HttpEndpoint, HttpPool, clear_expired, restore_all, positions, nth, get_available, get_current,
}

-- The position holds an endpoint that is not blacklisted; positions count from `i`.
abbrev pub IsOpen : ℕ → ℕ → List HttpEndpoint → Type 0
IsOpen i j es =
    (i ≤ j) × ((e : HttpEndpoint) × ((get_elem? es (j - i) ≡ some e) × (e.is_blacklisted ≡ false)))

IsOpen-next :
    (i j : ℕ) (e : HttpEndpoint) (es : List HttpEndpoint)
    → IsOpen (i + 1) j es
    → IsOpen i j (e ∷ es)
IsOpen-next i j e es (le, (found, (here, fine))) =
    let step : suc (j - (i + 1)) ≡ j - i = omega (arith, le) in
    (omega (arith, le), (found, (subst (λ n. get_elem? (e ∷ es) n ≡ some found) step here, fine)))

IsOpen-here :
    (i : ℕ) (e : HttpEndpoint) (es : List HttpEndpoint)
    → e.is_blacklisted ≡ false
    → IsOpen i i (e ∷ es)
IsOpen-here i e es fine =
    let none_off : 0 ≡ i - i = omega arith in
    (omega arith, (e, (subst (λ n. get_elem? (e ∷ es) n ≡ some e) none_off refl, fine)))

positions-closed :
    (i : ℕ) (e : HttpEndpoint) (es : List HttpEndpoint)
    → e.is_blacklisted ≡ true
    → positions (i + 1) es ≡ positions i (e ∷ es)
unfolding positions
positions-closed i e es closed = ground (arith, closed)

positions-open :
    (i : ℕ) (e : HttpEndpoint) (es : List HttpEndpoint)
    → e.is_blacklisted ≡ false
    → i ∷ positions (i + 1) es ≡ positions i (e ∷ es)
unfolding positions
positions-open i e es fine = ground (arith, fine)

positions-IsOpen :
    (i k : ℕ) (es : List HttpEndpoint)
    → k < length (positions i es)
    → IsOpen i (nth (positions i es) k) es
unfolding positions nth
positions-IsOpen i k [] lt = absurd (omega arith)
positions-IsOpen i zero (e ∷ es) lt = elim (Bool-cases e.is_blacklisted) [
  | inl closed ↦
      subst (λ js. IsOpen i (nth js zero) (e ∷ es)) (positions-closed i e es closed)
        (IsOpen-next i _ e es (
          positions-IsOpen (i + 1) zero es
            (ground (arith, ap length (positions-closed i e es closed), lt))))
  | inr fine ↦
      subst (λ js. IsOpen i (nth js zero) (e ∷ es)) (positions-open i e es fine)
        (IsOpen-here i e es fine)
]
positions-IsOpen i (suc k) (e ∷ es) lt = elim (Bool-cases e.is_blacklisted) [
  | inl closed ↦
      subst (λ js. IsOpen i (nth js (suc k)) (e ∷ es)) (positions-closed i e es closed)
        (IsOpen-next i _ e es (
          positions-IsOpen (i + 1) (suc k) es
            (ground (arith, ap length (positions-closed i e es closed), lt))))
  | inr fine ↦
      subst (λ js. IsOpen i (nth js (suc k)) (e ∷ es)) (positions-open i e es fine)
        (IsOpen-next i _ e es (
          positions-IsOpen (i + 1) k es
            (ground (arith, ap length (positions-open i e es fine), lt))))
]

length-restored :
    (i : ℕ) (es : List HttpEndpoint) → length (positions i (restore_all es)) ≡ length es
unfolding positions restore_all
length-restored i [] = refl
length-restored i (e ∷ es) = ground (arith, length-restored (i + 1) es)

length-clear_expired :
    (duration now : ℕ) (es : List HttpEndpoint) → length (clear_expired duration now es) ≡ length es
unfolding clear_expired
length-clear_expired duration now [] = refl
length-clear_expired duration now (e ∷ es) = ground (arith, length-clear_expired duration now es)

-- What `getAvailable` leaves: its positions are those of the pool, and there is one.
record IsRefreshed (r : List ℕ × HttpPool) : Type 0 where
  same : r.0 ≡ positions 0 r.1.endpoints
  some_left : 0 < length r.0

get_available-IsRefreshed :
    (duration now : ℕ) (p : HttpPool)
    → 0 < length p.endpoints
    → IsRefreshed (get_available duration now p)
unfolding get_available
get_available-IsRefreshed duration now p full =
    let cleared = clear_expired duration now p.endpoints in
    elim (Bool-cases (ltb 0 (length (positions 0 cleared)))) [
      | inl left ↦ rw (left, get_available) (record { same = refl; some_left = ground arith })
      | inr none_left ↦
          rw (none_left, get_available)
            (record {
              same = refl;
              some_left =
                  omega (
                    arith,
                    length-restored 0 cleared,
                    length-clear_expired duration now p.endpoints,
                  );
            })
    ]

in_range : (n k : ℕ) → 0 < n → (if leb n k then 0 else k) < n
in_range n k pos = ground arith

open_at :
    (es : List HttpEndpoint) (available : List ℕ) (index : ℕ)
    → available ≡ positions 0 es
    → index < length available
    → (e : HttpEndpoint) × ((get_elem? es (nth available index) ≡ some e)
        × (e.is_blacklisted ≡ false))
open_at es available index same lt =
    let (_, (e, (here, fine))) =
      positions-IsOpen 0 index es (subst (λ js. index < length js) same lt) in
    (
      e,
      (
        subst (λ js. get_elem? es (nth js index) ≡ some e) (sym same)
            (subst (λ n. get_elem? es n ≡ some e) (omega arith) here),
        fine,
      ),
    )

-- In a pool that is not empty, the endpoint that `getCurrent` gives is an endpoint of the pool that is
-- not blacklisted, whatever the index was that earlier failures left behind.
pub get_current-IsOpen :
    (duration now : ℕ) (p : HttpPool)
    → 0 < length p.endpoints
    → let (i, p') = get_current duration now p in
      (e : HttpEndpoint) × ((get_elem? p'.endpoints i ≡ some e) × (e.is_blacklisted ≡ false))
unfolding get_current
get_current-IsOpen duration now p full =
    let r = get_available duration now p in
    let refreshed = get_available-IsRefreshed duration now p full in
    let index = if leb (length r.0) r.1.current_index then 0 else r.1.current_index in
    let inside = in_range (length r.0) r.1.current_index refreshed.some_left in
    open_at r.1.endpoints r.0 index refreshed.same inside
