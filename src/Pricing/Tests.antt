-- ===== src/Pricing/Tests.antt =====
-- Prices in whole dollars.
use fast_auth_indexer_api.Prelude.{
  ℕ, ◌+◌, ◌*◌, ◌/◌, ◌≡◌, ◌↔◌, true, none, some, List, [], ◌∷◌, ltb, codes, print,
}
use fast_auth_indexer_api.Json.{Json, string, object, end, field}
use fast_auth_indexer_api.Conversion.{Runtime}
use fast_auth_indexer_api.Pricing.{Numbers, ApiToken, build_registry}
use fast_auth_indexer_api.Pricing.Valuation.{compute_actions_value}
use fast_auth_indexer_api.Pricing.Laws.{
  Call, AllPriced, refreshes, refreshes-AllPriced, AllPositive, compute_actions_value-AllPositive,
}

abbrev whole_numbers : Numbers
whole_numbers = record {
  Number = ℕ;
  from_nat = λ n. n;
  plus = λ a b. a + b;
  times = λ a b. a * b;
  divide = λ a b. a / b;
  is_positive = λ a. ltb 0 a;
  is_finite = λ a. true;
  round_4 = λ a. a;
  to_text = print;
}

abbrev silent_runtime : Runtime
silent_runtime = record {
  parse = λ s. none;
  stringify = λ value. [];
  from_base64 = λ s. s;
  from_utf8 = λ bytes. bytes;
  to_number = λ value. none;
  hostname = λ s. none;
  sha256 = λ s. s;
}

abbrev wrapped : ApiToken ℕ
wrapped = record {
  blockchain = some (codes "near");
  contract_address = some (codes " WRAP.near");
  symbol = none;
  decimals = some 24;
  price = some 5;
  price_updated_at = none;
}

-- The second fetch throws after the first registry has become old.
abbrev two_calls : List (Call whole_numbers)
two_calls =
    record { now = 1; built_at = 2; answer = some (wrapped ∷ []) }
    ∷ record { now = 400_000; built_at = 400_001; answer = none }
    ∷ []

refreshes-AllPriced_example : AllPriced whole_numbers (refreshes whole_numbers two_calls none)
refreshes-AllPriced_example = refreshes-AllPriced whole_numbers two_calls

abbrev two_near : Json
two_near = object (
    field (codes "Transfer")
      (object (field (codes "deposit") (string (codes "2000000000000000000000000")) end)) end)

compute_actions_value-AllPositive_example :
    let r =
      compute_actions_value whole_numbers silent_runtime
        (some (build_registry whole_numbers 1 (wrapped ∷ [])))
        (two_near ∷ [])
        (codes "bob.near") in
    AllPositive whole_numbers r.1 × ((r.0 ≡ none) ↔ (r.1 ≡ []))
compute_actions_value-AllPositive_example =
    compute_actions_value-AllPositive whole_numbers silent_runtime
      (some (build_registry whole_numbers 1 (wrapped ∷ []))) (two_near ∷ []) (codes "bob.near")
