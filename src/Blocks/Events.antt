-- ===== src/Blocks/Events.antt =====
-- The map of the sign events of near-ingest.service.ts: the keys of the seeds of one transaction differ.
use fast_auth_indexer_api.Prelude.{
  ℕ, suc, ◌+◌, ◌<◌, ◌≡◌, refl, ap, ◌∙◌, ◌≢◌, inl, inr, false, some, List, [], ◌∷◌, ◌++◌, arith,
  ◌==◌, Bool-cases, Option-cases, Text, codes, eq_text, eq_text_iff, eq_text_refl, number, print,
  number-print,
}
use fast_auth_indexer_api.Prelude.{get_elem?}
use fast_auth_indexer_api.Json.{Json}
use fast_auth_indexer_api.Conversion.{Runtime}
use fast_auth_indexer_api.SignEvents.{SignEvent, CallContext, derive_from}
use fast_auth_indexer_api.SignEvents.Calls.{sign_call}
use fast_auth_indexer_api.SignEvents.Laws.{
  seed_at, Ascends, seeds-skipped, seeds-called, sign_event-hash, derive_from-Ascends, called,
  seed_at-derive_from,
}
use fast_auth_indexer_api.Tables.{find, find-put}
use fast_auth_indexer_api.Blocks.Rows.{event_key, put_events}

eq_text-append : (s a b : Text) → eq_text (s ++ a) (s ++ b) ≡ eq_text a b
unfolding eq_text
eq_text-append [] a b = refl
eq_text-append (c ∷ s) a b = ground (arith, eq_text-append s a b)

print-injective : (i j : ℕ) → print i ≡ print j → i ≡ j
print-injective i j e = ground (arith, number-print i, number-print j, ap number e)

event_key-ne :
    (hash : Text) (i j : ℕ) → i ≢ j → eq_text (event_key hash i) (event_key hash j) ≡ false
unfolding event_key eq_text
event_key-ne hash i j ne = elim (Bool-cases (eq_text (event_key hash i) (event_key hash j))) [
  | inr differ ↦ differ
  | inl same ↦ absurd (
      ne (
        print-injective i j (
          ground (
            arith,
            same,
            eq_text-append (hash ++ codes ":") (print i) (print j),
            eq_text_iff (print i) (print j),
          ))))
]

abbrev HaveHash : Text → List SignEvent → Type 0
HaveHash hash [] = Unit
HaveHash hash (seed ∷ seeds) = (seed.tx_hash ≡ hash) × HaveHash hash seeds

put_events-misses :
    (hash : Text) (low i : ℕ) (seeds : List SignEvent) (events : List (Text × SignEvent))
    → Ascends low seeds
    → HaveHash hash seeds
    → i < low
    → find (put_events seeds events) (event_key hash i) ≡ find events (event_key hash i)
unfolding put_events
put_events-misses hash low i [] events a h lt = refl
put_events-misses hash low i (seed ∷ seeds) events a h lt =
    put_events-misses hash (suc seed.action_index) i seeds _ a.1 h.1 (omega (arith, a.0))
    ∙ find-put (event_key seed.tx_hash seed.action_index) (event_key hash i) seed events
    ∙ ground (arith, h.0, event_key-ne hash seed.action_index i (λ e. omega (arith, a.0, e)))

put_events-finds :
    (hash : Text) (low i : ℕ) (seeds : List SignEvent) (events : List (Text × SignEvent))
    (event : SignEvent)
    → Ascends low seeds
    → HaveHash hash seeds
    → seed_at seeds i ≡ some event
    → find (put_events seeds events) (event_key hash i) ≡ some event
unfolding put_events
put_events-finds hash low i [] events event a h e = cc
put_events-finds hash low i (seed ∷ seeds) events event a h e =
    elim (Bool-cases (seed.action_index == i)) [
      | inl here ↦
          put_events-misses hash (suc seed.action_index) i seeds _ a.1 h.1 (ground arith)
          ∙ find-put (event_key seed.tx_hash seed.action_index) (event_key hash i) seed events
          ∙ ground (arith, h.0, e, eq_text_refl (event_key hash i))
      | inr later ↦
          put_events-finds hash (suc seed.action_index) i seeds _ event a.1 h.1 (ground (arith, e))
    ]

module _ (rt : Runtime) (ctx : CallContext) where
  derive_from-HaveHash :
      (i : ℕ) (actions : List Json) → HaveHash ctx.tx_hash (derive_from rt ctx i actions).seeds
  unfolding derive_from
  derive_from-HaveHash i [] = tt
  derive_from-HaveHash i (action ∷ actions) = elim (Option-cases (sign_call action)) [
    | inl skipped ↦
        rw (seeds-skipped rt ctx i action actions skipped) (derive_from-HaveHash (i + 1) actions)
    | inr (call, calls) ↦
        rw (seeds-called rt ctx i action actions call calls)
          (sign_event-hash rt ctx i call, derive_from-HaveHash (i + 1) actions)
  ]

  -- After the seeds of a transaction are put into the map of a block, the key of each action that
  -- calls `sign` finds the event of that very call, whatever the map had before.
  pub put_events-keeps_all :
      (actions : List Json) (events : List (Text × SignEvent)) (i : ℕ) (event : SignEvent)
      → called rt ctx i (get_elem? actions i) ≡ some event
      → find (put_events (derive_from rt ctx 0 actions).seeds events) (event_key ctx.tx_hash i)
        ≡ some event
  put_events-keeps_all actions events i event e =
      put_events-finds ctx.tx_hash 0 i _ events event (derive_from-Ascends rt ctx 0 actions)
        (derive_from-HaveHash 0 actions)
        (seed_at-derive_from rt ctx 0 actions i i (omega arith) ∙ e)
