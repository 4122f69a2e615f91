-- ===== src/Blocks/Keys.antt =====
-- The keys of the rows that near-ingest.service.ts makes of a transaction.
use fast_auth_indexer_api.Prelude.{
  ℕ, ◌+◌, ◌≡◌, refl, inl, inr, Bool, true, false, ◌&&◌, Option, none, some, List, [], ◌∷◌, ◌++◌,
  arith, if◌then◌else◌, Bool-cases, Option-cases, Text, eq_text_refl, has,
}
use fast_auth_indexer_api.Json.{Json, Fields}
use fast_auth_indexer_api.NearBlock.{ChunkTransaction, non_empty}
use fast_auth_indexer_api.Conversion.{Runtime}
use fast_auth_indexer_api.Health.{in_set}
use fast_auth_indexer_api.SignEvents.{
  SignEvent, CallContext, Surroundings, normalized_id, sign_event, derive_from, derive_named,
  derive_known, derive_fast_auth_sign_events,
}
use fast_auth_indexer_api.SignEvents.Calls.{sign_call}
use fast_auth_indexer_api.SignEvents.Laws.{
  seeds-skipped, seeds-called, sign_event-index, sign_event-hash,
}
use fast_auth_indexer_api.Tables.{contains, put, contains-put}
use fast_auth_indexer_api.Blocks.Rows.{event_key, put_events}
use fast_auth_indexer_api.Blocks.{listed, actions_of}

-- Every key has a row.
unfoldable pub contains_all {ℓ} : {A : Type ℓ} → List (Text × A) → List Text → Bool
unfolding contains
contains_all rows [] = true
contains_all rows (k ∷ keys) = contains rows k && contains_all rows keys

-- The keys of a table that another has too.
abbrev pub Includes {ℓ} : {A : Type ℓ} → List (Text × A) → List (Text × A) → Type 0
Includes old new = (k : Text) → contains old k ≡ true → contains new k ≡ true

pub contains_all_mono {ℓ} :
    {A : Type ℓ} (old new : List (Text × A)) (keys : List Text)
    → Includes old new
    → contains_all old keys ≡ true
    → contains_all new keys ≡ true
unfolding contains_all
contains_all_mono old new [] i c = refl
contains_all_mono old new (k ∷ keys) i c = ground (arith, contains_all_mono old new keys i, i k)

contains_all-append {ℓ} :
    {A : Type ℓ} (rows : List (Text × A)) (xs ys : List Text)
    → contains_all rows (xs ++ ys) ≡ (contains_all rows xs && contains_all rows ys)
unfolding contains_all
contains_all-append rows [] ys = refl
contains_all-append rows (x ∷ xs) ys = ground (arith, contains_all-append rows xs ys)

-- Keys that are in the rows of two steps, one after the other, are in the later rows.
pub contains_all-grown {ℓ} :
    {A : Type ℓ} (old new : List (Text × A)) (xs ys : List Text)
    → Includes old new
    → contains_all old xs ≡ true
    → contains_all new ys ≡ true
    → contains_all new (xs ++ ys) ≡ true
contains_all-grown old new xs ys i first later =
    ground (arith, contains_all-append new xs ys, contains_all_mono old new xs i first)

-- The keys that the calls of `sign` among the actions stand for, from an index on.
unfoldable pub call_keys : Text → ℕ → List Json → List Text
call_keys hash i [] = []
call_keys hash i (action ∷ actions) = elim (sign_call action) [
  | none ↦ call_keys hash (i + 1) actions
  | some call ↦ event_key hash i ∷ call_keys hash (i + 1) actions
]

call_keys-skipped :
    (hash : Text) (i : ℕ) (action : Json) (actions : List Json)
    → sign_call action ≡ none
    → call_keys hash i (action ∷ actions) ≡ call_keys hash (i + 1) actions
unfolding call_keys
call_keys-skipped hash i action actions skipped = rw (skipped, call_keys) refl

call_keys-called :
    (hash : Text) (i : ℕ) (action : Json) (actions : List Json) (call : Fields)
    → sign_call action ≡ some call
    → call_keys hash i (action ∷ actions) ≡ event_key hash i ∷ call_keys hash (i + 1) actions
unfolding call_keys
call_keys-called hash i action actions call calls = rw (calls, call_keys) refl

pub put_events-Includes :
    (seeds : List SignEvent) (events : List (Text × SignEvent))
    → Includes events (put_events seeds events)
unfolding put_events
put_events-Includes [] events k c = c
put_events-Includes (s ∷ seeds) events k c =
    put_events-Includes seeds _ k
      (ground (arith, contains-put (event_key s.tx_hash s.action_index) k s events))

put_events-first :
    (seed : SignEvent) (seeds : List SignEvent) (events : List (Text × SignEvent))
    → contains (put_events (seed ∷ seeds) events) (event_key seed.tx_hash seed.action_index) ≡ true
unfolding put_events
put_events-first seed seeds events =
    let key = event_key seed.tx_hash seed.action_index in
    put_events-Includes seeds _ key
      (ground (arith, contains-put key key seed events, eq_text_refl key))

module _ (rt : Runtime) (ctx : CallContext) where
  -- Each call has its seed in the map.
  pub put_events-derive_from :
      (i : ℕ) (actions : List Json) (events : List (Text × SignEvent))
      → contains_all
          (put_events (derive_from rt ctx i actions).seeds events)
          (call_keys ctx.tx_hash i actions)
        ≡ true
  unfolding contains_all call_keys put_events
  put_events-derive_from i [] events = refl
  put_events-derive_from i (action ∷ actions) events = elim (Option-cases (sign_call action)) [
    | inl skipped ↦
        rw
          (
            seeds-skipped rt ctx i action actions skipped,
            call_keys-skipped ctx.tx_hash i action actions skipped,
          )
          (put_events-derive_from (i + 1) actions events)
    | inr (call, calls) ↦
        rw
          (
            seeds-called rt ctx i action actions call calls,
            call_keys-called ctx.tx_hash i action actions call calls,
          )
          (ground (
            arith,
            put_events-first (sign_event rt ctx i call).0 (derive_from rt ctx (i + 1) actions).seeds
                events,
            sign_event-index rt ctx i call,
            sign_event-hash rt ctx i call,
            put_events-derive_from (i + 1) actions
                (put (event_key ctx.tx_hash i) (sign_event rt ctx i call).0 events),
          ))
  ]

-- The keys of the calls, where the signer and the hash are known.
unfoldable pub named_keys : Option Text → Option Text → List Json → List Text
unfolding call_keys
named_keys (some signer) (some hash) actions = call_keys hash 0 actions
named_keys _ _ actions = []

-- The key that a transaction has among those of the FastAuth contracts.
unfoldable pub transaction_keys : List Text → ChunkTransaction → List Text
transaction_keys contracts tx = elim (non_empty tx.hash) [
  | none ↦ []
  | some hash ↦ if in_set contracts (normalized_id tx.receiver_id) then hash ∷ [] else []
]

-- The keys of its sign events.
unfoldable pub sign_keys : List Text → ChunkTransaction → List Text
unfolding named_keys
sign_keys contracts tx =
    if in_set contracts (normalized_id tx.receiver_id)
    then named_keys (non_empty (normalized_id tx.signer_id)) (non_empty tx.hash) (actions_of tx)
    else []

derive_known-keys :
    (rt : Runtime) (ctx : CallContext) (b : Bool) (actions : Option (List Json))
    (events : List (Text × SignEvent))
    → b ≡ true
    → contains_all
        (put_events (derive_known rt ctx b actions).seeds events)
        (call_keys ctx.tx_hash 0 (listed actions))
      ≡ true
unfolding derive_known call_keys contains_all
derive_known-keys rt ctx false actions events m = cc
derive_known-keys rt ctx true none events m = refl
derive_known-keys rt ctx true (some actions) events m =
    put_events-derive_from rt ctx 0 actions events

derive_named-keys :
    (rt : Runtime) (contracts : List Text) (at : Surroundings) (tx : ChunkTransaction)
    (r s h : Option Text) (events : List (Text × SignEvent))
    → in_set contracts r ≡ true
    → contains_all
        (put_events (derive_named rt contracts at tx (non_empty r) s h).seeds events)
        (named_keys s h (actions_of tx))
      ≡ true
unfolding in_set derive_named named_keys contains_all
derive_named-keys rt contracts at tx none s h events m = cc
derive_named-keys rt contracts at tx (some []) s h events m = cc
derive_named-keys rt contracts at tx (some (c ∷ r)) none h events m = refl
derive_named-keys rt contracts at tx (some (c ∷ r)) (some s) none events m = refl
derive_named-keys rt contracts at tx (some (c ∷ r)) (some s) (some h) events m =
    derive_known-keys rt _ (has contracts (c ∷ r)) tx.actions events m

-- Each call of a transaction on a FastAuth contract has its seed in the map.
pub put_events-derive :
    (rt : Runtime) (contracts : List Text) (at : Surroundings) (tx : ChunkTransaction)
    (events : List (Text × SignEvent))
    → in_set contracts (normalized_id tx.receiver_id) ≡ true
    → contains_all
        (put_events (derive_fast_auth_sign_events rt contracts at tx).seeds events)
        (sign_keys contracts tx)
      ≡ true
unfolding derive_fast_auth_sign_events sign_keys
put_events-derive rt contracts at tx events m =
    rw m (derive_named-keys rt contracts at tx (normalized_id tx.receiver_id) _ _ events m)

pub transaction_keys-call :
    (contracts : List Text) (tx : ChunkTransaction) (hash : Text)
    → non_empty tx.hash ≡ some hash
    → in_set contracts (normalized_id tx.receiver_id) ≡ true
    → transaction_keys contracts tx ≡ hash ∷ []
unfolding transaction_keys
transaction_keys-call contracts tx hash named m = rw (named, transaction_keys) (rw m refl)

pub transaction_keys-other :
    (contracts : List Text) (tx : ChunkTransaction)
    → in_set contracts (normalized_id tx.receiver_id) ≡ false
    → transaction_keys contracts tx ≡ []
unfolding transaction_keys
transaction_keys-other contracts tx m = elim (Option-cases (non_empty tx.hash)) [
  | inl nameless ↦ rw (nameless, transaction_keys) refl
  | inr (hash, named) ↦ rw (named, transaction_keys) (rw m refl)
]

pub transaction_keys-nameless :
    (contracts : List Text) (tx : ChunkTransaction)
    → non_empty tx.hash ≡ none
    → transaction_keys contracts tx ≡ []
unfolding transaction_keys
transaction_keys-nameless contracts tx nameless = rw (nameless, transaction_keys) refl

pub sign_keys-other :
    (contracts : List Text) (tx : ChunkTransaction)
    → in_set contracts (normalized_id tx.receiver_id) ≡ false
    → sign_keys contracts tx ≡ []
unfolding sign_keys
sign_keys-other contracts tx m = rw m refl

named_keys-nameless :
    (signer : Option Text) (actions : List Json) → named_keys signer none actions ≡ []
unfolding named_keys
named_keys-nameless none actions = refl
named_keys-nameless (some signer) actions = refl

pub sign_keys-nameless :
    (contracts : List Text) (tx : ChunkTransaction)
    → non_empty tx.hash ≡ none
    → sign_keys contracts tx ≡ []
unfolding sign_keys
sign_keys-nameless contracts tx nameless =
    elim (Bool-cases (in_set contracts (normalized_id tx.receiver_id))) [
      | inl m ↦ rw (m, nameless) (named_keys-nameless _ (actions_of tx))
      | inr m ↦ rw m refl
    ]
