-- ===== src/Rpc.antt =====
-- src/modules/common/near-rpc/near-rpc.service.ts: the pool of RPC endpoints. Times are milliseconds,
-- and each step takes the clock's reading. `available` is a view of the pool: the endpoints of the
-- list that are not blacklisted, so a change to one is a change to the list.
pub mod Picking
pub mod Balance
pub mod Request
pub mod Slots
pub mod Tests
use mathlib.Core.List.{filter_map}
use fast_auth_indexer_api.Prelude.Int.{ltb_ℤ, ℤ, pos, ◌+ℤ◌, ◌-ℤ◌, pos_part, neg_part}
use fast_auth_indexer_api.Prelude.{
  ℕ, zero, suc, ◌+◌, ◌-◌, ◌*◌, max, Bool, true, false, not, ◌&&◌, ◌||◌, Option, none, some, List,
  [], ◌∷◌, map, ltb, leb, ◌==◌, if◌then◌else◌, Text, codes, eq_text, add, to_lower_case, trim,
  includes,
}

pub record Endpoint : Type 0 where
  pub url : Text
  pub failures : ℕ
  pub last_failure : Option ℕ
  pub is_blacklisted : Bool
  pub weight : ℕ
  pub current_weight : ℤ

pub record Options : Type 0 where
  pub max_failures : ℕ
  pub blacklist_duration_ms : ℕ
  pub max_attempts : ℕ
  pub base_delay_ms : ℕ

abbrev pub default_retry_count : ℕ
default_retry_count = 3

-- The defaults of the constructor, for a pool of `n` endpoints.
abbrev pub default_options : ℕ → Options
default_options n = record {
  max_failures = 3;
  blacklist_duration_ms = 60 * 1000;
  max_attempts = max (n * 2) default_retry_count;
  base_delay_ms = 300;
}

-- `new Set(...)` over trimmed, non-empty texts, in order of first occurrence.
unique_from : List Text → List Text → List Text
unique_from seen [] = seen
unique_from seen (url ∷ urls) =
    unique_from (if eq_text (trim url) [] then seen else add (trim url) seen) urls

unfoldable pub unique_urls : List Text → List Text
unfolding unique_from
unique_urls = unique_from []

weight_of : List (Text × ℕ) → Text → ℕ
weight_of [] url = 1
weight_of ((u, w) ∷ weights) url = if eq_text u url then w else weight_of weights url

unfoldable pub create : List Text → List (Text × ℕ) → List Endpoint
unfolding weight_of
create urls weights =
    map
      (λ url. record {
        url = url;
        failures = 0;
        last_failure = none;
        is_blacklisted = false;
        weight = weight_of weights url;
        current_weight = pos 0;
      })
      (unique_urls urls)

abbrev restored : Endpoint → Endpoint
restored e = record e { failures = 0; is_blacklisted = false; last_failure = none }

-- `!endpoint.lastFailure`: unset or 0.
abbrev falsy : Option ℕ → Bool
falsy none = true
falsy (some t) = t == 0

abbrev since : ℕ → Option ℕ → ℕ
since now none = 0
since now (some t) = now - t

clear_expired : ℕ → ℕ → Endpoint → Endpoint
clear_expired duration now e =
    if not e.is_blacklisted || falsy e.last_failure
    then e
    else if ltb duration (since now e.last_failure)
    then restored e
    else e

-- `clearExpiredBlacklists`
unfoldable pub clear_expired_blacklists : ℕ → ℕ → List Endpoint → List Endpoint
unfolding clear_expired
clear_expired_blacklists duration now = map (clear_expired duration now)

-- `resetAllEndpoints`
unfoldable pub reset_all_endpoints : List Endpoint → List Endpoint
reset_all_endpoints = map λ e. record (restored e) { current_weight = pos 0 }

unfoldable pub any_available : List Endpoint → Bool
any_available [] = false
any_available (e ∷ es) = not e.is_blacklisted || any_available es

-- `getAvailableEndpoints`
unfoldable pub get_available_endpoints : ℕ → ℕ → List Endpoint → List Endpoint
unfolding clear_expired_blacklists reset_all_endpoints any_available
get_available_endpoints duration now es =
    let cleared = clear_expired_blacklists duration now es in
    if any_available cleared then cleared else reset_all_endpoints cleared

-- The loop of `pickNextEndpoint`, its three variables apart.
unfoldable pub add_weights : List Endpoint → List Endpoint
add_weights = map λ e.
    if e.is_blacklisted then e else record e { current_weight = e.current_weight +ℤ pos e.weight }

total_weight : List Endpoint → ℕ
total_weight [] = 0
total_weight (e ∷ es) =
    let rest = total_weight es in if e.is_blacklisted then rest else e.weight + rest

abbrev improves : Option (ℕ × ℤ) → ℤ → Bool
improves none w = true
improves (some (i, best)) w = ltb_ℤ best w

-- The position of the best endpoint and its score; `i` is the position of the list's head.
best_from : Option (ℕ × ℤ) → ℕ → List Endpoint → Option (ℕ × ℤ)
best_from best i [] = best
best_from best i (e ∷ es) =
    best_from
      (if not e.is_blacklisted && improves best e.current_weight
        then some (i, e.current_weight)
        else best)
      (i + 1) es

pay : ℕ → ℕ → List Endpoint → List Endpoint
pay total i [] = []
pay total zero (e ∷ es) = record e { current_weight = e.current_weight -ℤ pos total } ∷ es
pay total (suc i) (e ∷ es) = e ∷ pay total i es

abbrev position : Option (ℕ × ℤ) → ℕ
position none = 0
position (some (i, _)) = i

-- `pickNextEndpoint`: the position of the endpoint that was picked, and the pool.
unfoldable pub pick_next_endpoint : ℕ → ℕ → List Endpoint → ℕ × List Endpoint
unfolding get_available_endpoints add_weights total_weight best_from pay
pick_next_endpoint duration now es =
    let available = get_available_endpoints duration now es in
    let raised = add_weights available in
    let picked = position (best_from none 0 raised) in
    (picked, pay (total_weight available) picked raised)

abbrev any_of : List Text → Text → Bool
any_of [] message = false
any_of (p ∷ ps) message = includes message p || any_of ps message

unfoldable pub is_unknown_block_message : Text → Bool
is_unknown_block_message = any_of (
    codes "UNKNOWN_BLOCK"
    ∷ codes "Unknown block"
    ∷ codes "DB Not Found"
    ∷ codes "UNKNOWN_CHUNK"
    ∷ [])

unfoldable pub is_rate_limit : ℕ → Text → Bool
is_rate_limit status message =
    status == 429
    || any_of
        (codes "rate"
          ∷ codes "throttle"
          ∷ codes "usage limit"
          ∷ codes "quota"
          ∷ codes "too many requests"
          ∷ codes "upgrade"
          ∷ [])
        message

unfoldable pub is_server_error : ℕ → Bool
is_server_error status = leb 500 status

unfoldable pub is_connection_error : Text → Bool
is_connection_error = any_of (
    codes "econnreset"
    ∷ codes "econnrefused"
    ∷ codes "etimedout"
    ∷ codes "enotfound"
    ∷ codes "timeout"
    ∷ codes "network"
    ∷ codes "fetch failed"
    ∷ [])

-- `status ?? 0`
abbrev status_or_0 : Option ℕ → ℕ
status_or_0 none = 0
status_or_0 (some s) = s

blacklist_now : Option ℕ → Text → Bool
blacklist_now status message =
    is_rate_limit (status_or_0 status) (to_lower_case message)
    || is_server_error (status_or_0 status)
    || is_connection_error (to_lower_case message)

-- `handleFailure`
unfoldable pub handle_failure : Options → ℕ → Option ℕ → Text → Endpoint → Endpoint
unfolding blacklist_now
handle_failure o now status message e = record e {
  failures = e.failures + 1;
  last_failure = some now;
  is_blacklisted =
      blacklist_now status message || leb o.max_failures (e.failures + 1) || e.is_blacklisted;
}

-- What a successful reply does to its endpoint.
unfoldable pub handle_success : Endpoint → Endpoint
handle_success = restored
