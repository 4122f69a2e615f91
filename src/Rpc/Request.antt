-- ===== src/Rpc/Request.antt =====
-- `request` of near-rpc.service.ts: the retry loop, and what its error says about the endpoints.
pub mod Laws
pub mod Trail
pub mod Failures
use fast_auth_indexer_api.Prelude.{
  ℕ, zero, suc, ◌+◌, ◌⊎◌, inl, inr, Bool, true, false, ◌&&◌, ◌||◌, Option, none, some, List, [],
  ◌∷◌, ◌++◌, leb, ◌==◌, if◌then◌else◌, length, Text, codes, eq_text, add, trim, starts_with, print,
}
use fast_auth_indexer_api.Prelude.{take, get_elem?}
use fast_auth_indexer_api.Rpc.{
  Endpoint, Options, pick_next_endpoint, handle_failure, handle_success, is_unknown_block_message,
}

-- What one `fetch` gives: an HTTP error with its body, a JSON-RPC error with its serialized text, a
-- payload, an exception (`timeout` for an `AbortError`), or a thrown value that is no `Error`.
pub data Reply {ℓ} (A : Type ℓ) : Type ℓ where
  http_error : ℕ → Text → Reply A
  rpc_error : ℕ → Text → Reply A
  payload : A → Reply A
  timeout : Reply A
  thrown : Text → Reply A
  not_an_error : Reply A

-- The outside of one request, by attempt: what the network answers, and the clock when an endpoint
-- is picked and when a failure is recorded.
pub record World {ℓ} (A : Type ℓ) : Type ℓ where
  pub reply : ℕ → Text → Reply A
  pub pick_time : ℕ → ℕ
  pub fail_time : ℕ → ℕ

-- near-rpc-exhausted.error.ts
pub record Exhausted : Type 0 where
  pub message : Text
  pub unknown_block_endpoints : List Text
  pub healthy_endpoint_count : ℕ
  pub total_attempts : ℕ
  pub contacted_endpoint_count : ℕ

pub data Outcome {ℓ} (A : Type ℓ) : Type ℓ where
  served : A → Outcome A
  exhausted : Exhausted → Outcome A

-- The counters of `recordOutcome`.
pub data Label : Type 0 where
  status : ℕ → Label
  unknown_block other_rpc_error ok timed_out network : Label

abbrev pub label_id : Label → ℕ
label_id unknown_block = 0
label_id other_rpc_error = 1
label_id ok = 2
label_id timed_out = 3
label_id network = 4
label_id (status n) = 5 + n

abbrev pub Outcomes : Type 0
Outcomes = List (Text × Label × ℕ)

unfoldable pub record_outcome : Text → Label → Outcomes → Outcomes
record_outcome url label [] = (url, label, 1) ∷ []
record_outcome url label ((u, l, n) ∷ counts) =
    let rest = record_outcome url label counts in
    if eq_text u url && label_id l == label_id label
    then (u, l, n + 1) ∷ counts
    else (u, l, n) ∷ rest

pub record Service : Type 0 where
  pub endpoints : List Endpoint
  pub outcomes : Outcomes

-- `drainOutcomeSummary`: the counts, and the service with its counters reset.
unfoldable pub drain_outcome_summary : Service → Outcomes × Service
drain_outcome_summary s = (s.outcomes, record s { outcomes = [] })

-- The variables of one call.
pub record Progress : Type 0 where
  pub service : Service
  pub unknown_block_endpoints : List Text
  pub contacted_endpoints : List Text
  pub last_error : Option Text

abbrev pub start : Service → Progress
start s = record {
  service = s;
  unknown_block_endpoints = [];
  contacted_endpoints = [];
  last_error = none;
}

unfoldable pub url_at : ℕ → List Endpoint → Text
url_at i [] = []
url_at zero (e ∷ es) = e.url
url_at (suc i) (e ∷ es) = url_at i es

unfoldable pub update_at : ℕ → (Endpoint → Endpoint) → List Endpoint → List Endpoint
update_at i f [] = []
update_at zero f (e ∷ es) = f e ∷ es
update_at (suc i) f (e ∷ es) = e ∷ update_at i f es

-- `.replace(/\s+/g, " ")`
is_white : ℕ → Bool
is_white c = (leb 9 c && leb c 13) || c == 32

collapse : Bool → Text → Text
collapse within [] = []
collapse within (c ∷ s) =
    let rest = collapse (is_white c) s in
    if is_white c then (if within then rest else 32 ∷ rest) else c ∷ rest

unfoldable pub snippet : Text → Text
unfolding collapse is_white
snippet body = trim (collapse false (take 220 body))

unfoldable pub rpc_snippet : Text → Text
unfolding collapse is_white
rpc_snippet error = collapse false (take 220 error)

abbrev suffix : Text → Text
suffix [] = codes "."
suffix s = codes ": " ++ s

abbrev or_else : Text → Text → Text
or_else [] message = message
or_else s message = s

unfoldable pub http_message : Text → ℕ → Text → Text → Text
http_message label code url snip =
    codes "NEAR "
    ++ label
    ++ (codes " request failed (" ++ print code ++ codes ") via " ++ url ++ suffix snip)

unfoldable pub rpc_message : Text → Text → Text → Text
rpc_message label url snip =
    codes "NEAR " ++ label ++ (codes " RPC error via " ++ url ++ suffix snip)

unfoldable pub unknown_failure : Text → Text → Text
unknown_failure label url =
    codes "Unknown NEAR " ++ label ++ (codes " request failure via " ++ url ++ codes ".")

unfoldable pub thrown_message : Text → Text → Text → Text
thrown_message label url message =
    codes "NEAR " ++ label ++ (codes " request failed via " ++ url ++ codes ": " ++ message)

abbrev pub add_if : Bool → Text → List Text → List Text
add_if true url urls = add url urls
add_if false url urls = urls

module _ (o : Options) (label : Text) (timeout_message : Text) where
  -- What an attempt that failed records: the label of the counter, the error message, whether the
  -- endpoint said that the block is unknown, and the status and text that `handleFailure` reads.
  pub record Failed : Type 0 where
    pub outcome : Label
    pub message : Text
    pub unknown : Bool
    pub code : Option ℕ
    pub cause : Text

  unfoldable pub describe {ℓ} : {A : Type ℓ} → Text → Reply A → A ⊎ Failed
  describe url (http_error code body) = inr (record {
    outcome = status code;
    message = http_message label code url (snippet body);
    unknown = is_unknown_block_message (snippet body);
    code = some code;
    cause = or_else (snippet body) (http_message label code url (snippet body));
  })
  describe url (rpc_error code error) = inr (record {
    outcome =
        if is_unknown_block_message (rpc_snippet error) then unknown_block else other_rpc_error;
    message = rpc_message label url (rpc_snippet error);
    unknown = is_unknown_block_message (rpc_snippet error);
    code = some code;
    cause = or_else (rpc_snippet error) (rpc_message label url (rpc_snippet error));
  })
  describe url (payload a) = inl a
  describe url timeout = inr (record {
    outcome = timed_out;
    message = thrown_message label url timeout_message;
    unknown = false;
    code = none;
    cause = timeout_message;
  })
  describe url (thrown message) = inr (record {
    outcome = if starts_with message (codes "timeout") then timed_out else network;
    message = thrown_message label url message;
    unknown = false;
    code = none;
    cause = message;
  })
  describe url not_an_error = inr (record {
    outcome = network;
    message = thrown_message label url (unknown_failure label url);
    unknown = false;
    code = none;
    cause = unknown_failure label url;
  })

  -- The endpoint is picked and counted as contacted.
  unfoldable pub pick : ℕ → Progress → ℕ × Progress
  pick now p =
      let (i, es) = pick_next_endpoint o.blacklist_duration_ms now p.service.endpoints in
      (
        i,
        record p {
          service = record p.service { endpoints = es };
          contacted_endpoints = add (url_at i es) p.contacted_endpoints;
        },
      )

  unfoldable pub fail : ℕ → ℕ → Text → Failed → Progress → Progress
  fail now i url f p = record p {
    service = record {
      endpoints = update_at i (handle_failure o now f.code f.cause) p.service.endpoints;
      outcomes = record_outcome url f.outcome p.service.outcomes;
    };
    unknown_block_endpoints = add_if f.unknown url p.unknown_block_endpoints;
    last_error = some f.message;
  }

  unfoldable pub succeed : ℕ → Text → Service → Service
  succeed i url s = record {
    endpoints = update_at i handle_success s.endpoints;
    outcomes = record_outcome url ok s.outcomes;
  }

  unfoldable pub message_of : Option Text → Text
  message_of none = codes "NEAR " ++ label ++ codes " request failed."
  message_of (some message) = message

  unfoldable pub give_up : Progress → Exhausted
  give_up p = record {
    message = message_of p.last_error;
    unknown_block_endpoints = p.unknown_block_endpoints;
    healthy_endpoint_count = length p.service.endpoints;
    total_attempts = o.max_attempts;
    contacted_endpoint_count = length p.contacted_endpoints;
  }

  -- The loop, with the attempts that are left; `attempt` counts them from 1.
  unfoldable pub attempts {ℓ} : {A : Type ℓ} → World A → ℕ → ℕ → Progress → Outcome A × Service
  attempts w zero attempt p = (exhausted (give_up p), p.service)
  attempts w (suc left) attempt p =
      let picked = pick (w.pick_time attempt) p in
      let url = url_at picked.0 picked.1.service.endpoints in
      elim (describe url (w.reply attempt url)) [
        | inl a ↦ (served a, succeed picked.0 url picked.1.service)
        | inr f ↦ attempts w left (attempt + 1) (fail (w.fail_time attempt) picked.0 url f picked.1)
      ]

  unfoldable pub request {ℓ} : {A : Type ℓ} → World A → Service → Outcome A × Service
  request w s = attempts w o.max_attempts 1 (start s)
