-- ===== src/SignEvents/Laws.antt =====
-- Which seeds sign-event-derivator.ts makes of the actions of a transaction.
use fast_auth_indexer_api.Prelude.{
  ℕ, zero, suc, ◌+◌, ◌≤◌, ◌<◌, ◌≡◌, refl, sym, ◌∙◌, inl, inr, Option, none, some, List, [], ◌∷◌,
  arith, ◌==◌, if◌then◌else◌, Option-cases, Text,
}
use fast_auth_indexer_api.Prelude.{get_elem?}
use mathlib.Core.Path.{subst}
use fast_auth_indexer_api.Json.{Json, Fields}
use fast_auth_indexer_api.Conversion.{Runtime}
use fast_auth_indexer_api.SignEvents.Calls.{sign_call}
use fast_auth_indexer_api.SignEvents.{
  SignEvent, CallContext, Derived, nothing_derived, sign_event, push, derive_from,
}

-- The seed of an index.
abbrev pub seed_at : List SignEvent → ℕ → Option SignEvent
seed_at [] i = none
seed_at (e ∷ es) i = if e.action_index == i then some e else seed_at es i

-- The seeds are in the order of their indices, from `low` on, and no two share one.
abbrev pub Ascends : ℕ → List SignEvent → Type 0
Ascends low [] = Unit
Ascends low (e ∷ es) = (low ≤ e.action_index) × Ascends (suc e.action_index) es

module _ (rt : Runtime) (ctx : CallContext) where
  -- The seed that the action at an index calls for.
  abbrev pub called : ℕ → Option Json → Option SignEvent
  called i none = none
  called i (some action) = elim (sign_call action) [
    | none ↦ none
    | some call ↦ some (sign_event rt ctx i call).0
  ]

  pub sign_event-index : (i : ℕ) (call : Fields) → (sign_event rt ctx i call).0.action_index ≡ i
  unfolding sign_event fast_auth_indexer_api.SignEvents.seed
  sign_event-index i call = refl

  pub sign_event-hash : (i : ℕ) (call : Fields) → (sign_event rt ctx i call).0.tx_hash ≡ ctx.tx_hash
  unfolding sign_event fast_auth_indexer_api.SignEvents.seed
  sign_event-hash i call = refl

  pub seeds-push :
      (r : SignEvent × Option Text) (later : Derived) → (push r later).seeds ≡ r.0 ∷ later.seeds
  unfolding push
  seeds-push (event, none) later = refl
  seeds-push (event, some key) later = refl

  Ascends-mono :
      (low high : ℕ) (es : List SignEvent) → low ≤ high → Ascends high es → Ascends low es
  Ascends-mono low high [] le a = tt
  Ascends-mono low high (e ∷ es) le a = (omega (arith, a.0), a.1)

  pub seeds-skipped :
      (start : ℕ) (action : Json) (actions : List Json)
      → sign_call action ≡ none
      → (derive_from rt ctx start (action ∷ actions)).seeds
        ≡ (derive_from rt ctx (start + 1) actions).seeds
  unfolding derive_from
  seeds-skipped start action actions skipped = rw (skipped, derive_from) refl

  pub seeds-called :
      (start : ℕ) (action : Json) (actions : List Json) (call : Fields)
      → sign_call action ≡ some call
      → (derive_from rt ctx start (action ∷ actions)).seeds
        ≡ (sign_event rt ctx start call).0 ∷ (derive_from rt ctx (start + 1) actions).seeds
  unfolding derive_from
  seeds-called start action actions call calls =
      rw (calls, derive_from) (seeds-push (sign_event rt ctx start call) _)

  pub derive_from-Ascends :
      (start : ℕ) (actions : List Json) → Ascends start (derive_from rt ctx start actions).seeds
  unfolding derive_from
  derive_from-Ascends start [] = tt
  derive_from-Ascends start (action ∷ actions) = elim (Option-cases (sign_call action)) [
    | inl skipped ↦
        rw (seeds-skipped start action actions skipped)
          (Ascends-mono start (start + 1) _ (omega arith) (derive_from-Ascends (start + 1) actions))
    | inr (call, calls) ↦
        rw (seeds-called start action actions call calls, sign_event-index)
          (
            omega arith,
            Ascends-mono _ (start + 1) _ (omega arith) (derive_from-Ascends (start + 1) actions),
          )
  ]

  seed_at-Ascends :
      (low : ℕ) (es : List SignEvent) (i : ℕ) → Ascends low es → i < low → seed_at es i ≡ none
  seed_at-Ascends low [] i a lt = refl
  seed_at-Ascends low (e ∷ es) i a lt =
      ground (arith, seed_at-Ascends (suc e.action_index) es i a.1, a.0)

  called-skipped : (i : ℕ) (action : Json) → sign_call action ≡ none → called i (some action) ≡ none
  called-skipped i action skipped = rw (skipped, called) refl

  called-event :
      (i : ℕ) (action : Json) (call : Fields)
      → sign_call action ≡ some call
      → called i (some action) ≡ some (sign_event rt ctx i call).0
  called-event i action call calls = rw (calls, called) refl

  seed_at-start :
      (start : ℕ) (action : Json) (actions : List Json)
      → seed_at (derive_from rt ctx start (action ∷ actions)).seeds start
        ≡ called start (some action)
  seed_at-start start action actions = elim (Option-cases (sign_call action)) [
    | inl skipped ↦ rw (seeds-skipped start action actions skipped) (
        seed_at-Ascends (start + 1) _ start (derive_from-Ascends (start + 1) actions) (omega arith)
        ∙ sym (called-skipped start action skipped))
    | inr (call, calls) ↦
        rw (seeds-called start action actions call calls)
          (ground (arith, sign_event-index start call, called-event start action call calls))
  ]

  seed_at-later :
      (start : ℕ) (action : Json) (actions : List Json) (k : ℕ)
      → start < k
      → seed_at (derive_from rt ctx start (action ∷ actions)).seeds k
        ≡ seed_at (derive_from rt ctx (start + 1) actions).seeds k
  seed_at-later start action actions k lt = elim (Option-cases (sign_call action)) [
    | inl skipped ↦ rw (seeds-skipped start action actions skipped) refl
    | inr (call, calls) ↦
        rw (seeds-called start action actions call calls)
          (ground (arith, sign_event-index start call))
  ]

  pub seed_at-derive_from :
      (start : ℕ) (actions : List Json) (i k : ℕ)
      → k ≡ start + i
      → seed_at (derive_from rt ctx start actions).seeds k ≡ called k (get_elem? actions i)
  unfolding derive_from
  seed_at-derive_from start [] i k e = refl
  seed_at-derive_from start (action ∷ actions) zero k e =
      subst
        (λ j.
          seed_at (derive_from rt ctx start (action ∷ actions)).seeds j ≡ called j (some action))
        (omega arith) (seed_at-start start action actions)
  seed_at-derive_from start (action ∷ actions) (suc i) k e =
      seed_at-later start action actions k (omega arith)
      ∙ seed_at-derive_from (start + 1) actions i k (omega arith)
