-- ===== src/Pricing.antt =====
-- src/modules/common/pricing/pricing.service.ts: the registry of the token prices, and the value that the
-- actions of a transaction move. The numbers of JavaScript are the interface `Numbers`. `BigInt` is read
-- on decimal digits; a text that is not of that kind is malformed or negative, or in a notation that no
-- amount on the chain has.
pub mod Valuation
pub mod Laws
pub mod Tests
use fast_auth_indexer_api.Prelude.{
  ℕ, ◌+◌, ◌*◌, Bool, false, Option, none, some, List, [], ◌∷◌, ltb, if◌then◌else◌, Text, codes,
  eq_text, to_lower_case, trim,
}
use fast_auth_indexer_api.Tables.{put}

abbrev pub refresh_ttl_ms : ℕ
refresh_ttl_ms = 5 * 60 * 1000

-- `round_4` is `Math.round(x * 10000) / 10000`, and `from_nat` is `Number` of a bigint.
pub record Numbers : Type 1 where
  pub Number : Type 0
  pub from_nat : ℕ → Number
  pub plus : Number → Number → Number
  pub times : Number → Number → Number
  pub divide : Number → Number → Number
  pub is_positive : Number → Bool
  pub is_finite : Number → Bool
  pub round_4 : Number → Number
  pub to_text : Number → Text

-- A field of another type than the code tests for is `none`; the date is `none` if it is missing.
pub record ApiToken (F : Type 0) : Type 0 where
  pub blockchain : Option Text
  pub contract_address : Option Text
  pub symbol : Option Text
  pub decimals : Option ℕ
  pub price : Option F
  pub price_updated_at : Option ℕ

pub record TokenInfo (F : Type 0) : Type 0 where
  pub contract_address : Text
  pub symbol : Text
  pub decimals : ℕ
  pub usd_price : F
  pub price_updated_at : Option ℕ

pub record TokenRegistry (F : Type 0) : Type 0 where
  pub by_contract : List (Text × TokenInfo F)
  pub native_near_price : Option F
  pub fetched_at : ℕ

abbrev pub wrap_near : Text
wrap_near = codes "wrap.near"

abbrev is_near : Option Text → Bool
is_near none = false
is_near (some blockchain) = eq_text blockchain (codes "near")

abbrev symbol_or : Text → Option Text → Text
symbol_or key none = key
symbol_or key (some symbol) = symbol

module _ (numbers : Numbers) where
  open numbers use {Number, is_finite}

  abbrev pub token_info : Text → ℕ → Number → ApiToken Number → TokenInfo Number
  token_info key decimals price t = record {
    contract_address = key;
    symbol = symbol_or key t.symbol;
    decimals = decimals;
    usd_price = price;
    price_updated_at = t.price_updated_at;
  }

  -- A token that has a key.
  unfoldable pub add_token :
      Text → ℕ → Number → ApiToken Number → TokenRegistry Number → TokenRegistry Number
  unfolding put
  add_token key decimals price t r = record r {
    by_contract = put key (token_info key decimals price t) r.by_contract;
    native_near_price = if eq_text key wrap_near then some price else r.native_near_price;
  }

  -- A token whose fields are all there; the empty key is passed over.
  unfoldable pub add_known :
      Text → ℕ → Number → ApiToken Number → TokenRegistry Number → TokenRegistry Number
  unfolding add_token
  add_known [] decimals price t r = r
  add_known (c ∷ key) decimals price t r = add_token (c ∷ key) decimals price t r

  unfoldable pub add_parts :
      Option Text
      → Option ℕ
      → Option Number
      → ApiToken Number
      → TokenRegistry Number
      → TokenRegistry Number
  unfolding add_known
  add_parts (some address) (some decimals) (some price) t r =
      if is_finite price then add_known (to_lower_case (trim address)) decimals price t r else r
  add_parts _ _ _ t r = r

  -- One round of the loop of `buildRegistry`.
  unfoldable pub add_api_token : ApiToken Number → TokenRegistry Number → TokenRegistry Number
  unfolding add_parts
  add_api_token t r =
      if is_near t.blockchain then add_parts t.contract_address t.decimals t.price t r else r

  unfoldable pub add_tokens : List (ApiToken Number) → TokenRegistry Number → TokenRegistry Number
  unfolding add_api_token
  add_tokens [] r = r
  add_tokens (t ∷ tokens) r = add_tokens tokens (add_api_token t r)

  unfoldable pub build_registry : ℕ → List (ApiToken Number) → TokenRegistry Number
  unfolding add_tokens
  build_registry now tokens =
      add_tokens tokens (record { by_contract = []; native_near_price = none; fetched_at = now })

  -- `this.cached && Date.now() - this.cached.fetchedAt.getTime() < REFRESH_TTL_MS`
  unfoldable pub is_fresh : ℕ → Option (TokenRegistry Number) → Bool
  is_fresh now none = false
  is_fresh now (some r) = ltb now (r.fetched_at + refresh_ttl_ms)

  unfoldable pub fetched :
      ℕ
      → Option (List (ApiToken Number))
      → Option (TokenRegistry Number)
      → Option (TokenRegistry Number)
  unfolding build_registry
  fetched now none cached = cached
  fetched now (some tokens) cached = some (build_registry now tokens)

  -- `refresh`: what it caches, which is also what it returns. The fetch is `none` where it throws.
  unfoldable pub refresh :
      ℕ
      → ℕ
      → Option (List (ApiToken Number))
      → Option (TokenRegistry Number)
      → Option (TokenRegistry Number)
  unfolding is_fresh fetched
  refresh now built_at answer cached =
      if is_fresh now cached then cached else fetched built_at answer cached
