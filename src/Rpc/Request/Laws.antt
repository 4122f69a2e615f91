-- ===== src/Rpc/Request/Laws.antt =====
-- What the retry loop keeps: the endpoints of the pool, and the evidence behind its error.
use fast_auth_indexer_api.Prelude.{
  ℕ, zero, suc, ◌<◌, ◌≡◌, refl, ap, ◌∙◌, inr, true, Option, List, [], ◌∷◌, map, arith, length, Text,
  codes, eq_text_refl, includes-append, includes, has,
}
use fast_auth_indexer_api.Prelude.{length-map}
use mathlib.Core.Path.{subst}
use fast_auth_indexer_api.Rpc.{
  Endpoint, Options, clear_expired_blacklists, reset_all_endpoints, get_available_endpoints,
  add_weights, pay, pick_next_endpoint, handle_failure, handle_success,
}
use fast_auth_indexer_api.Rpc.Picking.{pick_next_endpoint-IsBest, lt-length}
use fast_auth_indexer_api.Rpc.Request.{
  Reply, url_at, update_at, Failed, describe, http_message, rpc_message, thrown_message, snippet,
  rpc_snippet, unknown_failure, http_error, rpc_error, payload, timeout, thrown, not_an_error,
}

abbrev pub urls : List Endpoint → List Text
urls = map λ e. e.url

urls-clear : (d now : ℕ) (es : List Endpoint) → urls (clear_expired_blacklists d now es) ≡ urls es
unfolding clear_expired_blacklists
urls-clear d now [] = refl
urls-clear d now (e ∷ es) = ground (arith, urls-clear d now es)

urls-reset : (es : List Endpoint) → urls (reset_all_endpoints es) ≡ urls es
unfolding reset_all_endpoints
urls-reset [] = refl
urls-reset (e ∷ es) = ground (arith, urls-reset es)

urls-get_available_endpoints :
    (d now : ℕ) (es : List Endpoint) → urls (get_available_endpoints d now es) ≡ urls es
unfolding get_available_endpoints
urls-get_available_endpoints d now es =
    ground (arith, urls-reset (clear_expired_blacklists d now es), urls-clear d now es)

urls-add_weights : (es : List Endpoint) → urls (add_weights es) ≡ urls es
unfolding add_weights
urls-add_weights [] = refl
urls-add_weights (e ∷ es) = ground (arith, urls-add_weights es)

urls-pay : (total i : ℕ) (es : List Endpoint) → urls (pay total i es) ≡ urls es
unfolding pay
urls-pay total i [] = refl
urls-pay total zero (e ∷ es) = refl
urls-pay total (suc i) (e ∷ es) = ground (arith, urls-pay total i es)

pub urls-pick : (d now : ℕ) (es : List Endpoint) → urls (pick_next_endpoint d now es).1 ≡ urls es
unfolding pick_next_endpoint
urls-pick d now es =
    urls-pay _ _ _
    ∙ urls-add_weights (get_available_endpoints d now es)
    ∙ urls-get_available_endpoints d now es

pub urls-update_at :
    (i : ℕ) (f : Endpoint → Endpoint) (es : List Endpoint)
    → ((e : Endpoint) → (f e).url ≡ e.url)
    → urls (update_at i f es) ≡ urls es
unfolding update_at
urls-update_at i f [] same = refl
urls-update_at zero f (e ∷ es) same = rw (same e)
urls-update_at (suc i) f (e ∷ es) same = ground (arith, urls-update_at i f es same)

pub handle_failure-url :
    (o : Options) (now : ℕ) (code : Option ℕ) (cause : Text) (e : Endpoint)
    → (handle_failure o now code cause e).url ≡ e.url
unfolding handle_failure
handle_failure-url o now code cause e = refl

pub handle_success-url : (e : Endpoint) → (handle_success e).url ≡ e.url
unfolding handle_success
handle_success-url e = refl

has-url_at : (i : ℕ) (es : List Endpoint) → i < length es → has (urls es) (url_at i es) ≡ true
unfolding has url_at
has-url_at i [] h = elim h [ ]
has-url_at zero (e ∷ es) h = ground (arith, eq_text_refl e.url)
has-url_at (suc i) (e ∷ es) h = ground (arith, has-url_at i es)

pub length-urls : (es : List Endpoint) → length (urls es) ≡ length es
length-urls es = length-map es _

raised_urls :
    (d now : ℕ) (es : List Endpoint)
    → urls (add_weights (get_available_endpoints d now es)) ≡ urls es
raised_urls d now es =
    urls-add_weights (get_available_endpoints d now es) ∙ urls-get_available_endpoints d now es

pick_position :
    (d now : ℕ) (es : List Endpoint)
    → 0 < length es
    → (pick_next_endpoint d now es).0 < length (pick_next_endpoint d now es).1
pick_position d now es h =
    let (e, best) = pick_next_endpoint-IsBest d now es h in
    let raised = add_weights (get_available_endpoints d now es) in
    omega (
      arith,
      lt-length (pick_next_endpoint d now es).0 raised e best.placed,
      length-urls raised,
      length-urls (pick_next_endpoint d now es).1,
      ap length (raised_urls d now es),
      ap length (urls-pick d now es),
    )

-- What is picked has a url of the pool.
pub has-pick :
    (d now : ℕ) (es : List Endpoint)
    → 0 < length es
    → has (urls es) (url_at (pick_next_endpoint d now es).0 (pick_next_endpoint d now es).1) ≡ true
has-pick d now es h =
    subst
      (λ us. has us (url_at (pick_next_endpoint d now es).0 (pick_next_endpoint d now es).1) ≡ true)
      (urls-pick d now es) (has-url_at _ _ (pick_position d now es h))

module _ (label url : Text) where
  includes-http :
      (code : ℕ) (snip : Text) → includes (http_message label code url snip) label ≡ true
  unfolding http_message
  includes-http code snip = includes-append (codes "NEAR ") label _

  includes-rpc : (snip : Text) → includes (rpc_message label url snip) label ≡ true
  unfolding rpc_message
  includes-rpc snip = includes-append (codes "NEAR ") label _

  includes-thrown : (message : Text) → includes (thrown_message label url message) label ≡ true
  unfolding thrown_message
  includes-thrown message = includes-append (codes "NEAR ") label _

module _ (o : Options) (label timeout_message : Text) where
  abbrev pub Describes {ℓ} : {A : Type ℓ} → Text → Reply A → Failed o label timeout_message → Type ℓ
  Describes url r f = describe o label timeout_message url r ≡ inr f

  -- Every message of a failed attempt names the call's label.
  pub message-label {ℓ} :
      {A : Type ℓ} (url : Text) (r : Reply A) (f : Failed o label timeout_message)
      → Describes url r f
      → includes f.message label ≡ true
  unfolding describe
  message-label url (http_error code body) f e =
      ground (arith, includes-http label url code (snippet body))
  message-label url (rpc_error code error) f e =
      ground (arith, includes-rpc label url (rpc_snippet error))
  message-label url (payload a) f e = ground arith
  message-label url timeout f e = ground (arith, includes-thrown label url timeout_message)
  message-label url (thrown message) f e = ground (arith, includes-thrown label url message)
  message-label url not_an_error f e =
      ground (arith, includes-thrown label url (unknown_failure label url))
