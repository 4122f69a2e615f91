-- ===== src/Concurrency/Finishing.antt =====
-- The end of a pool of concurrency.ts.
use fast_auth_indexer_api.Prelude.{
  ℕ, zero, suc, ◌+◌, ◌*◌, ◌≤◌, ◌<◌, min, max, ◌≡◌, refl, ◌⊎◌, inl, inr, Bool, List, [], ◌∷◌, arith,
  length,
}
use fast_auth_indexer_api.Concurrency.{Pool, Event, Reached, steps}
use fast_auth_indexer_api.Concurrency.Runs.{pool-IsBounded, unfinished-IsEnabled}

module _ {ℓ} {E : Type ℓ} (abort : Bool) (concurrency n : ℕ) where
  -- All runners have returned.
  abbrev pub IsFinished : Pool E → Type 0
  IsFinished s = (s.ready ≡ 0) × (s.in_flight ≡ [])

  work_left : (s : Pool E) → IsFinished s ⊎ ((0 < s.ready) ⊎ (0 < length s.in_flight))
  work_left s = by_parts s.ready s.in_flight
    where
      by_parts :
          (ready : ℕ) (running : List ℕ)
          → ((ready ≡ 0) × (running ≡ [])) ⊎ ((0 < ready) ⊎ (0 < length running))
      by_parts zero [] = inl (refl, refl)
      by_parts zero (i ∷ running) = inr (inr (omega arith))
      by_parts (suc ready) running = inr (inl (omega arith))

  -- The states that a number of events lead to from a state.
  pub data GoesOn (s : Pool E) : ℕ → Pool E → Type ℓ where
    stays : GoesOn s 0 s
    goes : (m : ℕ) (s' s'' : Pool E) → GoesOn s m s' → Event abort n s' s'' → GoesOn s (suc m) s''

  GoesOn-before :
      (s s' : Pool E)
      → Event abort n s s'
      → (m : ℕ) (s'' : Pool E) → GoesOn s' m s''
      → GoesOn s (suc m) s''
  GoesOn-before s s' e _ _ stays = goes 0 s s' stays e
  GoesOn-before s s' e _ _ (goes m t t' g f) = goes (suc m) t t' (GoesOn-before s s' e m t g) f

  -- The pool goes on from a state, after some number of events, to one where all runners have returned,
  -- within the budget of its events.
  abbrev pub Ends : ℕ → Pool E → Type ℓ
  Ends k s =
      (m : ℕ) × ((s' : Pool E) × (GoesOn s m s'
          × (IsFinished s' × (k + m ≤ 3 * n + max 1 (min concurrency n)))))

  Ends-before : (k : ℕ) (s s' : Pool E) → Event abort n s s' → Ends (suc k) s' → Ends k s
  Ends-before k s s' e (m, (s'', (g, (finished, bound)))) =
      (suc m, (s'', (GoesOn-before s s' e m s'' g, (finished, omega (arith, bound)))))

  finishes_within :
      (fuel k : ℕ) (s : Pool E)
      → Reached abort concurrency n k s
      → 3 * n + max 1 (min concurrency n) < k + fuel
      → Ends k s
  finishes_within zero k s r enough =
      let (_, (_, bounded)) = pool-IsBounded abort concurrency n k s r in absurd (omega arith)
  finishes_within (suc fuel) k s r enough = elim (work_left s) [
    | inl finished ↦
        let (_, (_, bounded)) = pool-IsBounded abort concurrency n k s r in
        (0, (s, (stays, (finished, omega (arith, bounded)))))
    | inr left ↦
        let (s', event) = unfinished-IsEnabled abort concurrency n s left in
        Ends-before k s s' event
          (finishes_within fuel (suc k) s' (steps k s s' r event) (omega arith))
  ]

  -- From every state that a pool reaches, whatever has been thrown before, further events lead from that
  -- very state to one where all of its runners have returned, and the events before and after it are
  -- together no more than 3 for each item and one for each runner.
  pub pool_finishes : (k : ℕ) (s : Pool E) → Reached abort concurrency n k s → Ends k s
  pool_finishes k s r = finishes_within (3 * n + max 1 (min concurrency n) + 1) k s r (omega arith)
