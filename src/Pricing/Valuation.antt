-- ===== src/Pricing/Valuation.antt =====
-- `computeActionsValue` of src/modules/common/pricing/pricing.service.ts.
use fast_auth_indexer_api.Prelude.{
  ℕ, ◌-◌, ◌/◌, ◌^◌, min, Bool, ◌||◌, Option, none, some, List, [], ◌∷◌, ◌++◌, map, ltb,
  if◌then◌else◌, Text, codes, eq_text, to_lower_case, trim, number, ◌>>=◌,
}
use fast_auth_indexer_api.Json.{Json, member, object_like, as_string}
use fast_auth_indexer_api.Conversion.{Runtime, all_digits}
use fast_auth_indexer_api.Tables.{find}
use fast_auth_indexer_api.Blocks.Rows
use fast_auth_indexer_api.Blocks.Rows.{ComputedTxValue}
use fast_auth_indexer_api.Pricing.{Numbers, TokenInfo, TokenRegistry}

abbrev pub native_near_decimals : ℕ
native_near_decimals = 24

-- A positive bigint.
unfoldable pub positive_big_int : Text → Option ℕ
unfolding all_digits
positive_big_int s = do
  n ← if all_digits s then number s else none
  if ltb 0 n then some n else none

unfoldable pub decode_ft_transfer_amount : Runtime → Text → Option Text
decode_ft_transfer_amount rt args = do
  parsed ← rt.parse (rt.from_base64 args)
  as_string (member (codes "amount") parsed)

unfoldable pub is_transfer_method : Text → Bool
is_transfer_method method =
    eq_text method (codes "ft_transfer")
    || (eq_text method (codes "ft_transfer_call") || eq_text method (codes "ft_burn"))

pub record TokenMovement (F : Type 0) : Type 0 where
  pub symbol : Text
  pub decimals : ℕ
  pub raw_amount : Text
  pub value_usd : F

module _ (numbers : Numbers) (rt : Runtime) where
  open numbers use {Number, from_nat, plus, times, divide, is_positive, is_finite, round_4, to_text}

  unfoldable pub yocto_near_to_usd : Text → Number → Option Number
  unfolding positive_big_int
  yocto_near_to_usd yocto price = do
    n ← positive_big_int yocto
    some (times (divide (from_nat (n / 10 ^ 18)) (from_nat 1_000_000)) price)

  unfoldable pub raw_amount_to_usd : Text → ℕ → Number → Option Number
  unfolding positive_big_int
  raw_amount_to_usd raw_amount decimals price = do
    n ← positive_big_int raw_amount
    if is_finite (from_nat (n / 10 ^ (decimals - 6)))
        then some (
            times (divide (from_nat (n / 10 ^ (decimals - 6))) (from_nat (10 ^ min decimals 6)))
              price)
        else none

  -- The movement of a value that is known and positive.
  unfoldable pub movement : Text → ℕ → Text → Option Number → List (TokenMovement Number)
  movement symbol decimals raw_amount none = []
  movement symbol decimals raw_amount (some usd) =
      if is_positive usd
      then record { symbol = symbol; decimals = decimals; raw_amount = raw_amount; value_usd = usd }
        ∷ []
      else []

  unfoldable pub near_movement : Option Number → Option Text → List (TokenMovement Number)
  unfolding movement yocto_near_to_usd
  near_movement (some price) (some deposit) =
      movement (codes "NEAR") native_near_decimals deposit (yocto_near_to_usd deposit price)
  near_movement _ _ = []

  unfoldable pub token_movement :
      Option (TokenInfo Number) → Option Text → List (TokenMovement Number)
  unfolding movement raw_amount_to_usd
  token_movement (some token) (some amount) =
      movement token.symbol token.decimals amount
        (raw_amount_to_usd amount token.decimals token.usd_price)
  token_movement _ _ = []

  module _ (receiver_id : Text) (r : TokenRegistry Number) where
    unfoldable pub ft_movement : Option Text → Option Text → List (TokenMovement Number)
    unfolding token_movement is_transfer_method decode_ft_transfer_amount
    ft_movement (some method) (some args) =
        if is_transfer_method method
        then token_movement (find r.by_contract (to_lower_case (trim receiver_id)))
            (decode_ft_transfer_amount rt args)
        else []
    ft_movement _ _ = []

    unfoldable pub call_movements : Option Json → List (TokenMovement Number)
    unfolding near_movement ft_movement
    call_movements none = []
    call_movements (some call) =
        near_movement r.native_near_price (as_string (member (codes "deposit") call))
        ++ ft_movement (as_string (member (codes "method_name") call))
            (as_string (member (codes "args") call))

    -- One round of the loop over the actions.
    unfoldable pub action_movements : Json → List (TokenMovement Number)
    unfolding near_movement call_movements
    action_movements action = elim (object_like (member (codes "Transfer") action)) [
      | some transfer ↦
          near_movement r.native_near_price (as_string (member (codes "deposit") transfer))
      | none ↦ call_movements (object_like (member (codes "FunctionCall") action))
    ]

    unfoldable pub all_movements : List Json → List (TokenMovement Number)
    unfolding action_movements
    all_movements [] = []
    all_movements (action ∷ actions) = action_movements action ++ all_movements actions

  -- `tokens.reduce((sum, t) => sum + t.valueUsd, 0)`
  unfoldable pub sum_usd : Number → List (TokenMovement Number) → Number
  sum_usd sum [] = sum
  sum_usd sum (t ∷ tokens) = sum_usd (plus sum t.value_usd) tokens

  unfoldable pub total_usd : List (TokenMovement Number) → Option Number
  unfolding sum_usd
  total_usd [] = none
  total_usd (t ∷ tokens) = some (round_4 (sum_usd (from_nat 0) (t ∷ tokens)))

  -- `totalUsd` and `tokens`
  unfoldable pub compute_actions_value :
      Option (TokenRegistry Number) → List Json → Text → Option Number × List (TokenMovement Number)
  unfolding total_usd all_movements
  compute_actions_value none actions receiver_id = (none, [])
  compute_actions_value (some r) actions receiver_id =
      let tokens = all_movements receiver_id r actions in (total_usd tokens, tokens)

  abbrev printed : TokenMovement Number → Rows.TokenMovement
  printed t = record {
    symbol = t.symbol;
    decimals = t.decimals;
    raw_amount = t.raw_amount;
    value_usd = to_text t.value_usd;
  }

  -- The value as the rows of a user transaction hold it.
  unfoldable pub row_value : Option (TokenRegistry Number) → List Json → Text → ComputedTxValue
  unfolding compute_actions_value
  row_value registry actions receiver_id =
      let (total, tokens) = compute_actions_value registry actions receiver_id in
      record { total_usd = (do usd ← total; some (to_text usd)); tokens = map printed tokens }
