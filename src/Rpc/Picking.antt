-- ===== src/Rpc/Picking.antt =====
-- The smooth weighted round robin of `pickNextEndpoint`, in near-rpc.service.ts: which endpoint it picks.
use fast_auth_indexer_api.Prelude.Int.{ℤ, ◌≤ℤ◌}
use fast_auth_indexer_api.Prelude.{
  ℕ, zero, suc, ◌+◌, ◌<◌, ◌≡◌, refl, ap, ◌∙◌, ◌⊎◌, inl, inr, true, false, not, ◌&&◌, Option, none,
  some, List, [], ◌∷◌, arith, Bool-cases, length,
}
use fast_auth_indexer_api.Prelude.{get_elem?, length-map}
use native.Mathlib.Nat.{zero-add}
use fast_auth_indexer_api.Rpc.{
  Endpoint, clear_expired_blacklists, reset_all_endpoints, any_available, get_available_endpoints,
  add_weights, best_from, pick_next_endpoint, improves, position,
}

-- No available endpoint scores more than `w`.
abbrev pub AtMost : ℤ → List Endpoint → Type 0
AtMost w [] = Unit
AtMost w (e ∷ es) = (e.is_blacklisted ≡ false → e.current_weight ≤ℤ w) × AtMost w es

abbrev Bounded : Option (ℕ × ℤ) → List Endpoint → Type 0
Bounded none es = any_available es ≡ false
Bounded (some (i, w)) es = AtMost w es

abbrev Below : Option (ℕ × ℤ) → ℤ → Type 0
Below none w = Unit
Below (some (i, v)) w = v ≤ℤ w

-- The loop keeps what it had, or finds a better endpoint at a distance `k`.
abbrev Found : Option (ℕ × ℤ) → ℕ → List Endpoint → Type 0
Found best i es =
    ((best_from best i es ≡ best) × Bounded best es)
    ⊎ ((k : ℕ) × (e : Endpoint) × (best_from best i es ≡ some (i + k, e.current_weight))
        × (get_elem? es k ≡ some e)
        × (e.is_blacklisted ≡ false)
        × AtMost e.current_weight es
        × Below best e.current_weight)

AtMost-mono : (v w : ℤ) (es : List Endpoint) → v ≤ℤ w → AtMost v es → AtMost w es
AtMost-mono v w [] h a = tt
AtMost-mono v w (e ∷ es) h a = (λ p. omega (arith, a.0 p), AtMost-mono v w es h a.1)

improves-Below : (best : Option (ℕ × ℤ)) (w : ℤ) → improves best w ≡ true → Below best w
improves-Below none w h = tt
improves-Below (some (i, v)) w h = ground arith

Below-mono : (best : Option (ℕ × ℤ)) (v w : ℤ) → v ≤ℤ w → Below best v → Below best w
Below-mono none v w h b = tt
Below-mono (some (i, u)) v w h b = omega arith

module _ (e : Endpoint) where
  abbrev Skipped : Option (ℕ × ℤ) → Type 0
  Skipped best = (not e.is_blacklisted && improves best e.current_weight) ≡ false

  Bounded-cons :
      (best : Option (ℕ × ℤ)) (es : List Endpoint)
      → Skipped best
      → Bounded best es
      → Bounded best (e ∷ es)
  unfolding any_available
  Bounded-cons none es h b = ground arith
  Bounded-cons (some (i, w)) es h b = (λ p. ground arith, b)

  Skipped-le :
      (best : Option (ℕ × ℤ)) (w : ℤ)
      → Skipped best
      → Below best w
      → e.is_blacklisted ≡ false
      → e.current_weight ≤ℤ w
  Skipped-le none w h b p = ground arith
  Skipped-le (some (i, v)) w h b p = ground arith

best_from-Found : (best : Option (ℕ × ℤ)) (i : ℕ) (es : List Endpoint) → Found best i es
unfolding best_from any_available
best_from-Found none i [] = inl (refl, refl)
best_from-Found (some b) i [] = inl (refl, tt)
best_from-Found best i (e ∷ es) =
    elim (Bool-cases (not e.is_blacklisted && improves best e.current_weight)) [
      | inl better ↦ inr (raise better (best_from-Found (some (i, e.current_weight)) (i + 1) es))
      | inr worse ↦ keep worse (best_from-Found best (i + 1) es)
    ]
  where
    raise :
        (not e.is_blacklisted && improves best e.current_weight) ≡ true
        → Found (some (i, e.current_weight)) (i + 1) es
        → (k : ℕ) × (f : Endpoint) × (best_from best i (e ∷ es) ≡ some (i + k, f.current_weight))
          × (get_elem? (e ∷ es) k ≡ some f)
          × (f.is_blacklisted ≡ false)
          × AtMost f.current_weight (e ∷ es)
          × Below best f.current_weight
    raise better (inl (same, a)) = (
      zero,
      e,
      rw better (same ∙ ap (λ n. some (n, e.current_weight)) (omega arith)),
      refl,
      ground arith,
      (λ p. omega arith, a),
      improves-Below best _ (ground arith),
    )
    raise better (inr (k, f, found, at, avail, a, b)) = (
      suc k,
      f,
      rw better (found ∙ ap (λ n. some (n, f.current_weight)) (omega arith)),
      at,
      avail,
      (λ p. b, a),
      Below-mono best _ _ b (improves-Below best _ (ground arith)),
    )

    keep :
        (not e.is_blacklisted && improves best e.current_weight) ≡ false
        → Found best (i + 1) es
        → Found best i (e ∷ es)
    keep worse (inl (same, a)) = inl (rw worse same, Bounded-cons e best es worse a)
    keep worse (inr (k, f, found, at, avail, a, b)) = inr (
      suc k,
      f,
      rw worse (found ∙ ap (λ n. some (n, f.current_weight)) (omega arith)),
      at,
      avail,
      (Skipped-le e best _ worse b, a),
      b,
    )

any_available-reset :
    (e : Endpoint) (es : List Endpoint) → any_available (reset_all_endpoints (e ∷ es)) ≡ true
unfolding any_available reset_all_endpoints
any_available-reset e es = refl

length-clear :
    (d now : ℕ) (es : List Endpoint) → length (clear_expired_blacklists d now es) ≡ length es
unfolding clear_expired_blacklists
length-clear d now es = length-map es _

-- Some endpoint is always available, whatever failed: a pool with none is reset.
pub get_available_endpoints-any :
    (d now : ℕ) (es : List Endpoint)
    → 0 < length es
    → any_available (get_available_endpoints d now es) ≡ true
unfolding get_available_endpoints
get_available_endpoints-any d now [] h = elim h [ ]
get_available_endpoints-any d now (e ∷ es) h =
    elim (Bool-cases (any_available (clear_expired_blacklists d now (e ∷ es)))) [
      | inl some_left ↦ rw (some_left, some_left) refl
      | inr none_left ↦ rw none_left refl
    ]

any_available-add_weights : (es : List Endpoint) → any_available (add_weights es) ≡ any_available es
unfolding any_available add_weights
any_available-add_weights [] = refl
any_available-add_weights (e ∷ es) = ground (arith, any_available-add_weights es)

-- `e` is available in the pool, at the position `i`, and no available endpoint scores more.
pub record IsBest (i : ℕ) (e : Endpoint) (es : List Endpoint) : Type 0 where
  pub placed : get_elem? es i ≡ some e
  pub available : e.is_blacklisted ≡ false
  pub greatest : AtMost e.current_weight es

Found-IsBest :
    (es : List Endpoint)
    → any_available es ≡ true
    → Found none 0 es
    → (e : Endpoint) × IsBest (position (best_from none 0 es)) e es
Found-IsBest es h (inl (same, none_left)) = cc
Found-IsBest es h (inr (k, e, found, at, avail, most, _)) =
    (e, record { placed = rw found (rw zero-add at); available = avail; greatest = most })

-- The pick, for a pool that is not empty: an available endpoint of the raised pool with a highest
-- score.
pub pick_next_endpoint-IsBest :
    (d now : ℕ) (es : List Endpoint)
    → 0 < length es
    → (e : Endpoint) × IsBest
        (pick_next_endpoint d now es).0
        e
        (add_weights (get_available_endpoints d now es))
unfolding pick_next_endpoint
pick_next_endpoint-IsBest d now es h =
    let raised = add_weights (get_available_endpoints d now es) in
    Found-IsBest raised
      (any_available-add_weights (get_available_endpoints d now es)
        ∙ get_available_endpoints-any d now es h)
      (best_from-Found none 0 raised)

pub lt-length :
    (i : ℕ) (es : List Endpoint) (e : Endpoint) → get_elem? es i ≡ some e → i < length es
lt-length i [] e h = cc
lt-length zero (x ∷ es) e h = omega arith
lt-length (suc i) (x ∷ es) e h = omega (arith, lt-length i es e h)
