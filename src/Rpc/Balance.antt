-- ===== src/Rpc/Balance.antt =====
-- The smooth weighted round robin of `pickNextEndpoint`, in near-rpc.service.ts: the sum of the scores.
use fast_auth_indexer_api.Prelude.Int.{ℤ, pos, ◌+ℤ◌, pos_part, neg_part, int_laws, eq_of_parts}
use fast_auth_indexer_api.Prelude.{
  ℕ, zero, suc, ◌+◌, ◌<◌, ◌≡◌, refl, ap, ◌∙◌, inl, inr, List, [], ◌∷◌, arith, Bool-cases, length,
}
use fast_auth_indexer_api.Rpc.{
  Endpoint, clear_expired_blacklists, reset_all_endpoints, any_available, get_available_endpoints,
  add_weights, total_weight, pay, pick_next_endpoint,
}
use fast_auth_indexer_api.Rpc.Picking.{pick_next_endpoint-IsBest, lt-length}

abbrev pub score_sum : List Endpoint → ℤ
score_sum [] = pos 0
score_sum (e ∷ es) = e.current_weight +ℤ score_sum es

abbrev pub IsBalanced : List Endpoint → Type 0
IsBalanced es = score_sum es ≡ pos 0

score_sum-clear :
    (d now : ℕ) (es : List Endpoint) → score_sum (clear_expired_blacklists d now es) ≡ score_sum es
unfolding clear_expired_blacklists
score_sum-clear d now [] = refl
score_sum-clear d now (e ∷ es) = ground (arith, score_sum-clear d now es)

score_sum-reset : (es : List Endpoint) → score_sum (reset_all_endpoints es) ≡ pos 0
unfolding reset_all_endpoints ◌+ℤ◌
score_sum-reset [] = refl
score_sum-reset (e ∷ es) = rw (score_sum-reset es)

get_available_endpoints-IsBalanced :
    (d now : ℕ) (es : List Endpoint) → IsBalanced es → IsBalanced (get_available_endpoints d now es)
unfolding get_available_endpoints
get_available_endpoints-IsBalanced d now es h =
    elim (Bool-cases (any_available (clear_expired_blacklists d now es))) [
      | inl some_left ↦ rw some_left (score_sum-clear d now es ∙ h)
      | inr none_left ↦ rw none_left (score_sum-reset _)
    ]

add_weights-score :
    (es : List Endpoint)
    → pos_part (score_sum (add_weights es)) + neg_part (score_sum es)
      ≡ pos_part (score_sum es) + neg_part (score_sum (add_weights es)) + total_weight es
unfolding add_weights total_weight
add_weights-score [] = omega arith
add_weights-score (e ∷ es) = elim (Bool-cases e.is_blacklisted) [
  | inl out ↦ rw out (omega (int_laws, add_weights-score es))
  | inr avail ↦ rw avail (omega (int_laws, add_weights-score es))
]

pay-score :
    (total i : ℕ) (es : List Endpoint)
    → i < length es
    → pos_part (score_sum (pay total i es)) + neg_part (score_sum es) + total
      ≡ pos_part (score_sum es) + neg_part (score_sum (pay total i es))
unfolding pay
pay-score total i [] h = elim h [ ]
pay-score total zero (e ∷ es) h = omega int_laws
pay-score total (suc i) (e ∷ es) h = omega (int_laws, pay-score total i es)

conserved :
    (available : List Endpoint) (i : ℕ)
    → i < length (add_weights available)
    → IsBalanced available
    → IsBalanced (pay (total_weight available) i (add_weights available))
conserved available i lt zero_sum = eq_of_parts _ _ (
    omega (
      arith,
      pay-score (total_weight available) i (add_weights available) lt,
      add_weights-score available,
      ap pos_part zero_sum,
      ap neg_part zero_sum,
    ))

-- Picking keeps the scores of a pool that is not empty balanced: their sum is 0.
pick_next_endpoint-IsBalanced :
    (d now : ℕ) (es : List Endpoint)
    → 0 < length es
    → IsBalanced es
    → IsBalanced (pick_next_endpoint d now es).1
unfolding pick_next_endpoint
pick_next_endpoint-IsBalanced d now es h b =
    let (e, best) = pick_next_endpoint-IsBest d now es h in
    conserved (get_available_endpoints d now es) (pick_next_endpoint d now es).0
      (lt-length _ _ e best.placed) (get_available_endpoints-IsBalanced d now es b)
