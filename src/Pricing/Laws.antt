-- ===== src/Pricing/Laws.antt =====
-- The registry and the values of pricing.service.ts.
use fast_auth_indexer_api.Prelude.{
  ℕ, ◌≡◌, refl, ◌≢◌, ◌↔◌, inl, inr, true, Option, none, some, List, [], ◌∷◌, ◌++◌, Bool-cases,
  Option-cases, Text, codes, eq_text, to_lower_case, trim,
}
use fast_auth_indexer_api.Json.{Json, object_like, member, as_string}
use fast_auth_indexer_api.Conversion.{Runtime}
use fast_auth_indexer_api.Tables.{find, find-put}
use fast_auth_indexer_api.Pricing.{
  Numbers, ApiToken, TokenInfo, TokenRegistry, wrap_near, is_near, token_info, add_token, add_known,
  add_parts, add_api_token, add_tokens, build_registry, is_fresh, fetched, refresh,
}
use fast_auth_indexer_api.Pricing.Valuation.{
  TokenMovement, movement, near_movement, token_movement, ft_movement, call_movements,
  action_movements, all_movements, total_usd, compute_actions_value, is_transfer_method,
  decode_ft_transfer_amount,
}

module _ (numbers : Numbers) where
  open numbers use {Number, is_positive, is_finite}

  abbrev price_of : Option (TokenInfo Number) → Option Number
  price_of none = none
  price_of (some token) = some token.usd_price

  -- The native price is that of the entry of wrapped NEAR, and there is none without the entry.
  abbrev pub IsPriced : TokenRegistry Number → Type 0
  IsPriced r = r.native_near_price ≡ price_of (find r.by_contract wrap_near)

  add_token-IsPriced :
      (key : Text) (decimals : ℕ) (price : Number) (t : ApiToken Number) (r : TokenRegistry Number)
      → IsPriced r
      → IsPriced (add_token numbers key decimals price t r)
  unfolding add_token
  add_token-IsPriced key decimals price t r i =
      let found = find-put key wrap_near (token_info numbers key decimals price t) r.by_contract in
      elim (Bool-cases (eq_text key wrap_near)) [
        | inl native ↦ rw (native, found) (rw native refl)
        | inr other ↦ rw (other, found) (rw other i)
      ]

  add_known-IsPriced :
      (key : Text) (decimals : ℕ) (price : Number) (t : ApiToken Number) (r : TokenRegistry Number)
      → IsPriced r
      → IsPriced (add_known numbers key decimals price t r)
  unfolding add_known
  add_known-IsPriced [] decimals price t r i = i
  add_known-IsPriced (c ∷ key) decimals price t r i =
      add_token-IsPriced (c ∷ key) decimals price t r i

  add_parts-IsPriced :
      (address : Option Text) (decimals : Option ℕ) (price : Option Number) (t : ApiToken Number)
      (r : TokenRegistry Number)
      → IsPriced r
      → IsPriced (add_parts numbers address decimals price t r)
  unfolding add_parts
  add_parts-IsPriced none decimals price t r i = i
  add_parts-IsPriced (some a) none price t r i = i
  add_parts-IsPriced (some a) (some d) none t r i = i
  add_parts-IsPriced (some a) (some d) (some price) t r i = elim (Bool-cases (is_finite price)) [
    | inl finite ↦ rw finite (add_known-IsPriced (to_lower_case (trim a)) d price t r i)
    | inr infinite ↦ rw infinite i
  ]

  add_api_token-IsPriced :
      (t : ApiToken Number) (r : TokenRegistry Number)
      → IsPriced r
      → IsPriced (add_api_token numbers t r)
  unfolding add_api_token
  add_api_token-IsPriced t r i = elim (Bool-cases (is_near t.blockchain)) [
    | inl near ↦ rw near (add_parts-IsPriced t.contract_address t.decimals t.price t r i)
    | inr other ↦ rw other i
  ]

  add_tokens-IsPriced :
      (tokens : List (ApiToken Number)) (r : TokenRegistry Number)
      → IsPriced r
      → IsPriced (add_tokens numbers tokens r)
  unfolding add_tokens
  add_tokens-IsPriced [] r i = i
  add_tokens-IsPriced (t ∷ tokens) r i =
      add_tokens-IsPriced tokens (add_api_token numbers t r) (add_api_token-IsPriced t r i)

  -- A call of `refresh`: when it reads the clock, when the registry is built, and what the fetch answers.
  pub record Call : Type 0 where
    pub now : ℕ
    pub built_at : ℕ
    pub answer : Option (List (ApiToken Number))

  abbrev pub AllPriced : Option (TokenRegistry Number) → Type 0
  AllPriced none = Unit
  AllPriced (some r) = IsPriced r

  fetched-AllPriced :
      (now : ℕ) (answer : Option (List (ApiToken Number))) (cached : Option (TokenRegistry Number))
      → AllPriced cached
      → AllPriced (fetched numbers now answer cached)
  unfolding fetched build_registry find
  fetched-AllPriced now none cached i = i
  fetched-AllPriced now (some tokens) cached i = add_tokens-IsPriced tokens _ refl

  unfoldable pub refreshes :
      List Call → Option (TokenRegistry Number) → Option (TokenRegistry Number)
  refreshes [] cached = cached
  refreshes (c ∷ calls) cached = refreshes calls (refresh numbers c.now c.built_at c.answer cached)

  refreshes-keeps :
      (calls : List Call) (cached : Option (TokenRegistry Number))
      → AllPriced cached
      → AllPriced (refreshes calls cached)
  unfolding refreshes refresh
  refreshes-keeps [] cached i = i
  refreshes-keeps (c ∷ calls) cached i = elim (Bool-cases (is_fresh numbers c.now cached)) [
    | inl fresh ↦ rw fresh (refreshes-keeps calls cached i)
    | inr stale ↦
        rw stale (refreshes-keeps calls _ (fetched-AllPriced c.built_at c.answer cached i))
  ]

  -- After any sequence of refreshes from an empty cache, whatever the fetches answer and whenever they
  -- throw, the native price of the registry that is served is the price of its entry of wrapped NEAR,
  -- and there is none without that entry.
  pub refreshes-AllPriced : (calls : List Call) → AllPriced (refreshes calls none)
  refreshes-AllPriced calls = refreshes-keeps calls none tt

  -- The values are positive, so no movement is one of nothing.
  abbrev pub AllPositive : List (TokenMovement Number) → Type 0
  AllPositive [] = Unit
  AllPositive (t ∷ tokens) = (is_positive t.value_usd ≡ true) × AllPositive tokens

  AllPositive-append :
      (xs ys : List (TokenMovement Number))
      → AllPositive xs
      → AllPositive ys
      → AllPositive (xs ++ ys)
  AllPositive-append [] ys p q = q
  AllPositive-append (t ∷ xs) ys p q = (p.0, AllPositive-append xs ys p.1 q)

  module _ (rt : Runtime) where
    movement-AllPositive :
        (symbol : Text) (decimals : ℕ) (raw_amount : Text) (usd : Option Number)
        → AllPositive (movement numbers rt symbol decimals raw_amount usd)
    unfolding movement
    movement-AllPositive symbol decimals raw_amount none = tt
    movement-AllPositive symbol decimals raw_amount (some usd) =
        elim (Bool-cases (is_positive usd)) [
          | inl positive ↦ rw positive (positive, tt)
          | inr nothing ↦ rw nothing tt
        ]

    near_movement-AllPositive :
        (price : Option Number) (deposit : Option Text)
        → AllPositive (near_movement numbers rt price deposit)
    unfolding near_movement
    near_movement-AllPositive none deposit = tt
    near_movement-AllPositive (some price) none = tt
    near_movement-AllPositive (some price) (some deposit) = movement-AllPositive _ _ deposit _

    token_movement-AllPositive :
        (token : Option (TokenInfo Number)) (amount : Option Text)
        → AllPositive (token_movement numbers rt token amount)
    unfolding token_movement
    token_movement-AllPositive none amount = tt
    token_movement-AllPositive (some token) none = tt
    token_movement-AllPositive (some token) (some amount) =
        movement-AllPositive token.symbol token.decimals amount _

    module _ (receiver_id : Text) (r : TokenRegistry Number) where
      ft_movement-AllPositive :
          (method args : Option Text)
          → AllPositive (ft_movement numbers rt receiver_id r method args)
      unfolding ft_movement
      ft_movement-AllPositive none args = tt
      ft_movement-AllPositive (some method) none = tt
      ft_movement-AllPositive (some method) (some args) =
          elim (Bool-cases (is_transfer_method method)) [
            | inl moves ↦ rw moves (
                token_movement-AllPositive (find r.by_contract (to_lower_case (trim receiver_id)))
                  (decode_ft_transfer_amount rt args))
            | inr other ↦ rw other tt
          ]

      call_movements-AllPositive :
          (call : Option Json) → AllPositive (call_movements numbers rt receiver_id r call)
      unfolding call_movements
      call_movements-AllPositive none = tt
      call_movements-AllPositive (some call) =
          let deposit = as_string (member (codes "deposit") call) in
          let method = as_string (member (codes "method_name") call) in
          let args = as_string (member (codes "args") call) in
          AllPositive-append (near_movement numbers rt r.native_near_price deposit)
            (ft_movement numbers rt receiver_id r method args)
            (near_movement-AllPositive r.native_near_price deposit)
            (ft_movement-AllPositive method args)

      action_movements-AllPositive :
          (action : Json) → AllPositive (action_movements numbers rt receiver_id r action)
      unfolding action_movements
      action_movements-AllPositive action =
          elim (Option-cases (object_like (member (codes "Transfer") action))) [
            | inl other ↦
                rw (other, action_movements)
                  (call_movements-AllPositive (object_like (member (codes "FunctionCall") action)))
            | inr (transfer, moves) ↦
                rw (moves, action_movements)
                  (near_movement-AllPositive r.native_near_price
                    (as_string (member (codes "deposit") transfer)))
          ]

      all_movements-AllPositive :
          (actions : List Json) → AllPositive (all_movements numbers rt receiver_id r actions)
      unfolding all_movements
      all_movements-AllPositive [] = tt
      all_movements-AllPositive (action ∷ actions) =
          AllPositive-append (action_movements numbers rt receiver_id r action)
            (all_movements numbers rt receiver_id r actions) (action_movements-AllPositive action)
            (all_movements-AllPositive actions)

    total_usd_iff :
        (tokens : List (TokenMovement Number))
        → (total_usd numbers rt tokens ≡ none) ↔ (tokens ≡ [])
    unfolding total_usd
    total_usd_iff [] = (λ e. refl, λ e. refl)
    total_usd_iff (t ∷ tokens) = (λ e. absurd (some-ne-none e), λ e. absurd (cons-ne-nil e))
      where
        some-ne-none : {n : Number} → some n ≢ none
        some-ne-none e = cc

        cons-ne-nil : {t : TokenMovement Number} {ts : List (TokenMovement Number)} → t ∷ ts ≢ []
        cons-ne-nil e = cc

    -- Whatever the actions hold, each movement that is valued has a positive value, and the total is
    -- missing exactly when there is no movement.
    pub compute_actions_value-AllPositive :
        (registry : Option (TokenRegistry Number)) (actions : List Json) (receiver_id : Text)
        → let r = compute_actions_value numbers rt registry actions receiver_id in
          AllPositive r.1 × ((r.0 ≡ none) ↔ (r.1 ≡ []))
    unfolding compute_actions_value
    compute_actions_value-AllPositive none actions receiver_id = (tt, (λ e. refl, λ e. refl))
    compute_actions_value-AllPositive (some r) actions receiver_id = (
      all_movements-AllPositive receiver_id r actions,
      total_usd_iff (all_movements numbers rt receiver_id r actions),
    )
