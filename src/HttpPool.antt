-- ===== src/HttpPool.antt =====
-- src/modules/common/http-pool/http-endpoint-pool.ts: the pool of REST providers, which are taken in
-- turn. `available` is a view of the pool, so an endpoint is named by its position in the pool. The
-- url that is made of a template and the value is left to the network.
pub mod Availability
pub mod Tests
use fast_auth_indexer_api.Prelude.{
  ℕ, zero, suc, ◌+◌, ◌-◌, ◌%◌, ◌⊎◌, inl, inr, Bool, true, false, not, ◌&&◌, ◌||◌, Option, none,
  some, List, [], ◌∷◌, ◌++◌, ltb, leb, ◌==◌, if◌then◌else◌, length, Text, codes, to_lower_case,
  includes, print,
}
use fast_auth_indexer_api.Rpc.Request.{snippet}

pub record HttpEndpoint : Type 0 where
  pub url_template : Text
  pub failures : ℕ
  pub last_failure : Option ℕ
  pub is_blacklisted : Bool

pub record PoolOptions : Type 0 where
  pub max_failures : ℕ
  pub blacklist_duration_ms : ℕ
  pub max_attempts : ℕ

pub record HttpPool : Type 0 where
  pub endpoints : List HttpEndpoint
  pub current_index : ℕ

abbrev pub restored : HttpEndpoint → HttpEndpoint
restored e = record e { failures = 0; is_blacklisted = false; last_failure = none }

-- `endpoint.lastFailure && now - endpoint.lastFailure > duration`
abbrev pub is_expired : ℕ → ℕ → Option ℕ → Bool
is_expired duration now none = false
is_expired duration now (some at) = not (at == 0) && ltb duration (now - at)

unfoldable pub clear_expired : ℕ → ℕ → List HttpEndpoint → List HttpEndpoint
clear_expired duration now [] = []
clear_expired duration now (e ∷ es) =
    (if e.is_blacklisted && is_expired duration now e.last_failure then restored e else e)
    ∷ clear_expired duration now es

unfoldable pub restore_all : List HttpEndpoint → List HttpEndpoint
restore_all [] = []
restore_all (e ∷ es) = restored e ∷ restore_all es

-- The positions of the endpoints that are not blacklisted.
unfoldable pub positions : ℕ → List HttpEndpoint → List ℕ
positions i [] = []
positions i (e ∷ es) = if e.is_blacklisted then positions (i + 1) es else i ∷ positions (i + 1) es

unfoldable pub nth : List ℕ → ℕ → ℕ
nth [] i = 0
nth (j ∷ js) zero = j
nth (j ∷ js) (suc i) = nth js i

-- `getAvailable`
unfoldable pub get_available : ℕ → ℕ → HttpPool → List ℕ × HttpPool
unfolding clear_expired restore_all positions
get_available duration now p =
    let cleared = clear_expired duration now p.endpoints in
    if ltb 0 (length (positions 0 cleared))
    then (positions 0 cleared, record p { endpoints = cleared })
    else (
      positions 0 (restore_all cleared),
      record { endpoints = restore_all cleared; current_index = 0 },
    )

-- `getCurrent`: the position of the endpoint, and the pool.
unfoldable pub get_current : ℕ → ℕ → HttpPool → ℕ × HttpPool
unfolding get_available nth
get_current duration now p =
    let (available, p') = get_available duration now p in
    let index = if leb (length available) p'.current_index then 0 else p'.current_index in
    (nth available index, record p' { current_index = index })

unfoldable pub switch_next : ℕ → ℕ → HttpPool → HttpPool
unfolding get_available
switch_next duration now p =
    let (available, p') = get_available duration now p in
    if leb (length available) 1
    then record p' { current_index = 0 }
    else record p' { current_index = (p'.current_index + 1) % length available }

unfoldable pub should_blacklist : ℕ → Text → Bool
should_blacklist status message =
    let normalized = to_lower_case message in
    status == 429
    || (leb 500 status
        || (includes normalized (codes "rate")
            || (includes normalized (codes "throttle")
                || (includes normalized (codes "econnreset")
                    || (includes normalized (codes "econnrefused")
                        || (includes normalized (codes "etimedout")
                            || (includes normalized (codes "enotfound")
                                || (includes normalized (codes "timeout")
                                    || (includes normalized (codes "network")
                                        || includes normalized (codes "fetch failed"))))))))))

abbrev pub status_or_0 : Option ℕ → ℕ
status_or_0 none = 0
status_or_0 (some status) = status

unfoldable pub mark : PoolOptions → ℕ → Option ℕ → Text → HttpEndpoint → HttpEndpoint
unfolding should_blacklist
mark o now status message e = record e {
  failures = e.failures + 1;
  last_failure = some now;
  is_blacklisted =
      if should_blacklist (status_or_0 status) message || leb o.max_failures (e.failures + 1)
      then true
      else e.is_blacklisted;
}

unfoldable pub update_at : ℕ → (HttpEndpoint → HttpEndpoint) → List HttpEndpoint → List HttpEndpoint
update_at i f [] = []
update_at zero f (e ∷ es) = f e ∷ es
update_at (suc i) f (e ∷ es) = e ∷ update_at i f es

-- `handleFailure`, at the position of the endpoint.
unfoldable pub handle_failure : PoolOptions → ℕ → ℕ → Option ℕ → Text → HttpPool → HttpPool
unfolding mark update_at switch_next
handle_failure o now i status message p =
    switch_next o.blacklist_duration_ms now
      (record p { endpoints = update_at i (mark o now status message) p.endpoints })

unfoldable pub template_at : ℕ → List HttpEndpoint → Text
template_at i [] = []
template_at zero (e ∷ es) = e.url_template
template_at (suc i) (e ∷ es) = template_at i es

-- What one `fetch` gives.
pub data HttpReply {ℓ} (A : Type ℓ) : Type ℓ where
  http_error : ℕ → Text → HttpReply A
  payload : A → HttpReply A
  timeout : HttpReply A
  thrown : Text → HttpReply A
  not_an_error : HttpReply A

-- A failed attempt: the status and the text that `handleFailure` reads, and the error.
pub record Failed : Type 0 where
  pub status : Option ℕ
  pub cause : Text
  pub message : Text

abbrev or_text : Text → Text → Text
or_text [] message = message
or_text (c ∷ s) message = c ∷ s

abbrev suffix : Text → Text
suffix [] = codes "."
suffix (c ∷ s) = codes ": " ++ (c ∷ s)

module _ (o : PoolOptions) (label timeout_message : Text) where
  unfoldable pub http_message : ℕ → Text → Text → Text
  http_message status body template =
      codes "HTTP "
      ++ (label
          ++ (codes " failed ("
              ++ (print status ++ (codes ") via " ++ (template ++ suffix (snippet body))))))

  unfoldable pub exception_message : Text → Text → Text
  exception_message template message =
      codes "HTTP "
      ++ (label ++ (codes " request failed via " ++ (template ++ (codes ": " ++ message))))

  unfoldable pub unknown_message : Text → Text
  unknown_message template =
      codes "Unknown HTTP " ++ (label ++ (codes " failure via " ++ (template ++ codes ".")))

  unfoldable pub read_reply {ℓ} : {A : Type ℓ} → Text → HttpReply A → A ⊎ Failed
  unfolding http_message exception_message unknown_message
  read_reply template (http_error status body) = inr (record {
    status = some status;
    cause = or_text (snippet body) (http_message status body template);
    message = http_message status body template;
  })
  read_reply template (payload a) = inl a
  read_reply template timeout = inr (record {
    status = none;
    cause = timeout_message;
    message = exception_message template timeout_message;
  })
  read_reply template (thrown message) =
      inr (record { status = none; cause = message; message = exception_message template message })
  read_reply template not_an_error = inr (record {
    status = none;
    cause = unknown_message template;
    message = exception_message template (unknown_message template);
  })

  unfoldable pub last_message : Option Text → Text
  last_message none = codes "HTTP " ++ (label ++ codes " request failed.")
  last_message (some message) = message

  -- The loop of `get`, with the attempts that are left; `reply` and the clocks go by attempt.
  unfoldable pub attempts {ℓ} :
      {A : Type ℓ}
      → (ℕ → Text → HttpReply A)
      → (ℕ → ℕ)
      → (ℕ → ℕ)
      → ℕ
      → ℕ
      → Option Text
      → HttpPool
      → (Text ⊎ A) × HttpPool
  unfolding read_reply last_message
  attempts reply pick_time fail_time zero attempt last_error p = (inl (last_message last_error), p)
  attempts reply pick_time fail_time (suc left) attempt last_error p =
      let (i, picked) = get_current o.blacklist_duration_ms (pick_time attempt) p in
      let template = template_at i picked.endpoints in
      elim (read_reply template (reply attempt template)) [
        | inl a ↦ (inr a, record picked { endpoints = update_at i restored picked.endpoints })
        | inr f ↦
            attempts reply pick_time fail_time left (attempt + 1) (some f.message)
              (handle_failure o (fail_time attempt) i f.status f.cause picked)
      ]

  unfoldable pub get {ℓ} :
      {A : Type ℓ} → (ℕ → Text → HttpReply A) → (ℕ → ℕ) → (ℕ → ℕ) → HttpPool → (Text ⊎ A) × HttpPool
  unfolding attempts
  get reply pick_time fail_time p = attempts reply pick_time fail_time o.max_attempts 1 none p
