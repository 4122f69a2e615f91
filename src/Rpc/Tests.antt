-- ===== src/Rpc/Tests.antt =====
-- A pool of two endpoints with weights 3 and 1.
use fast_auth_indexer_api.Prelude.{ℕ, ◌+◌, ◌≤◌, false, none, List, [], ◌∷◌, arith, Text, codes}
use fast_auth_indexer_api.Prelude.Int.{pos}
use fast_auth_indexer_api.Rpc.{Endpoint, add_weights, get_available_endpoints, pick_next_endpoint}
use fast_auth_indexer_api.Rpc.Slots.{spent, acquired, acquired-IsCapped}
use fast_auth_indexer_api.Rpc.Picking.{IsBest, pick_next_endpoint-IsBest}

abbrev endpoint : Text → ℕ → Endpoint
endpoint url weight = record {
  url = url;
  failures = 0;
  last_failure = none;
  is_blacklisted = false;
  weight = weight;
  current_weight = pos 0;
}

abbrev two_endpoints : List Endpoint
two_endpoints = endpoint (codes "a") 3 ∷ endpoint (codes "b") 1 ∷ []

pick_next_endpoint-IsBest_example :
    (e : Endpoint) × IsBest
      (pick_next_endpoint 60_000 0 two_endpoints).0
      e
      (add_weights (get_available_endpoints 60_000 0 two_endpoints))
pick_next_endpoint-IsBest_example = pick_next_endpoint-IsBest 60_000 0 two_endpoints (omega arith)

-- Four callers at the times 0, 0, 1 and 50, one slot per 10.
acquired-IsCapped_example : spent 10 0 30 (acquired 10 0 (0 ∷ 0 ∷ 1 ∷ 50 ∷ [])) ≤ 30 + 10
acquired-IsCapped_example = acquired-IsCapped 10 0 30 0 (0 ∷ 0 ∷ 1 ∷ 50 ∷ []) (omega arith)
