-- ===== src/Concurrency/Settling.antt =====
-- `settleAllWithConcurrency` of src/modules/common/concurrency.ts: the pool's worker catches what a task
-- throws and writes how it settled at the index of the task.
use fast_auth_indexer_api.Prelude.{
  ℕ, suc, ◌<◌, ◌≡◌, refl, ap, ◌∙◌, inl, inr, false, Option, none, some, List, [], ◌∷◌, ◌++◌, arith,
  leb, ◌==◌, Bool-cases, length,
}
use fast_auth_indexer_api.Prelude.{
  get_elem?, set, replicate, length-set, length-replicate, get_elem?-set_self, get_elem?-set_ne,
}
use fast_auth_indexer_api.Concurrency.{
  Pool, start, turn, retire, fulfil, has_failed, Reached, starts, steps, turns, fulfils,
}
use fast_auth_indexer_api.Concurrency.Runs.{count, finished-IsComplete}

pub data Settled {ℓ} (A : Type ℓ) (E : Type ℓ) : Type ℓ where
  fulfilled : A → Settled A E
  rejected : E → Settled A E

module _ {ℓ} {A E : Type ℓ} (outcome : ℕ → Settled A E) (concurrency n : ℕ) where
  -- The states of the pool with the array of the results; `none` stands for an empty slot.
  pub data Settling : ℕ → Pool E → List (Option (Settled A E)) → Type ℓ where
    begins : Settling 0 (start concurrency n) (replicate n none)
    claims :
        (k : ℕ) (s : Pool E) (results : List (Option (Settled A E)))
        → Settling k s results
        → 0 < s.ready
        → Settling (suc k) (turn false n s) results
    settles :
        (k : ℕ) (s : Pool E) (results : List (Option (Settled A E))) (before : List ℕ) (i : ℕ)
        (after : List ℕ)
        → Settling k s results
        → s.in_flight ≡ before ++ (i ∷ after)
        → Settling (suc k) (fulfil before i after s) (set results i (some (outcome i)))

  Settling-Reached :
      (k : ℕ) (s : Pool E) (results : List (Option (Settled A E)))
      → Settling k s results
      → Reached false concurrency n k s
  Settling-Reached _ _ _ begins = starts
  Settling-Reached _ _ _ (claims k s results r pos) =
      steps k s _ (Settling-Reached k s results r) (turns pos)
  Settling-Reached _ _ _ (settles k s results before i after r split) =
      steps k s _ (Settling-Reached k s results r) (fulfils before i after split)

  turn-keeps :
      (s : Pool E) → ((turn false n s).failure ≡ s.failure) × ((turn false n s).done ≡ s.done)
  unfolding turn retire
  turn-keeps s = elim (Bool-cases (leb n s.cursor)) [
    | inl used ↦ rw used (refl, refl)
    | inr left ↦ rw left (refl, refl)
  ]

  Settling-well :
      (k : ℕ) (s : Pool E) (results : List (Option (Settled A E)))
      → Settling k s results
      → (has_failed s.failure ≡ false) × (length results ≡ n)
  unfolding start fulfil
  Settling-well _ _ _ begins = (refl, length-replicate n none)
  Settling-well _ _ _ (claims k s results r pos) =
      let (well, size) = Settling-well k s results r in
      (ap has_failed (turn-keeps s).0 ∙ well, size)
  Settling-well _ _ _ (settles k s results before i after r split) =
      let (well, size) = Settling-well k s results r in (well, length-set results i _ ∙ size)

  -- What a task that is done left in its slot.
  Settling-Written :
      (k : ℕ) (s : Pool E) (results : List (Option (Settled A E))) (i : ℕ)
      → Settling k s results
      → i < n
      → 0 < count i s.done
      → get_elem? results i ≡ some (some (outcome i))
  unfolding start fulfil count
  Settling-Written _ _ _ i begins lt done = absurd (omega (arith, done))
  Settling-Written _ _ _ i (claims k s results r pos) lt done =
      Settling-Written k s results i r lt (omega (arith, done, ap (count i) (turn-keeps s).1))
  Settling-Written _ _ _ i (settles k s results before j after r split) lt done =
      elim (Bool-cases (j == i)) [
        | inl here ↦
            let (_, size) = Settling-well k s results r in
            ground
              (arith, here, get_elem?-set_self results i (some (outcome i)) (omega (arith, size)))
        | inr other ↦
            get_elem?-set_ne results (some (outcome j)) (λ e. absurd (ground (arith, other, e)))
            ∙ Settling-Written k s results i r lt (ground (arith, done, other))
      ]

  -- When the pool has come to its end, the result at the index of each task says how that task
  -- settled, whatever the order in which the tasks settled and however many of them threw.
  pub results-IsOrdered :
      (k : ℕ) (s : Pool E) (results : List (Option (Settled A E))) (i : ℕ)
      → Settling k s results
      → s.ready ≡ 0
      → s.in_flight ≡ []
      → i < n
      → get_elem? results i ≡ some (some (outcome i))
  results-IsOrdered k s results i r none_ready none_running lt =
      let (well, _) = Settling-well k s results r in
      let once =
        finished-IsComplete false concurrency n k s i (Settling-Reached k s results r) none_ready
          none_running well lt in
      Settling-Written k s results i r lt (omega (arith, once))
