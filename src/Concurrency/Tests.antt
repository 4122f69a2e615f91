-- ===== src/Concurrency/Tests.antt =====
-- A pool of one runner over one item.
use fast_auth_indexer_api.Prelude.{
  ℕ, ◌+◌, ◌*◌, ◌≤◌, min, max, ◌≡◌, refl, true, none, [], ◌∷◌, arith, ltb, if◌then◌else◌, length,
}
use fast_auth_indexer_api.Concurrency.{
  Pool, effective_concurrency, start, turn, retire, fulfil, turns, fulfils, Reached, starts, steps,
}
use fast_auth_indexer_api.Prelude.{Option, some, get_elem?, List}
use fast_auth_indexer_api.Concurrency.Finishing.{Ends, pool_finishes}
use fast_auth_indexer_api.Concurrency.Settling.{
  Settled, rejected, Settling, begins, claims, settles, results-IsOrdered,
}
use fast_auth_indexer_api.Concurrency.Runs.{count, pool-IsBounded}

abbrev finished : Pool ℕ
finished = record {
  cursor = 2;
  failure = none;
  ready = 0;
  in_flight = [];
  retired = 1;
  done = 0 ∷ [];
}

abbrev claimed : Pool ℕ
claimed = record {
  cursor = 1;
  failure = none;
  ready = 0;
  in_flight = 0 ∷ [];
  retired = 0;
  done = [];
}

abbrev worked : Pool ℕ
worked = record {
  cursor = 1;
  failure = none;
  ready = 1;
  in_flight = [];
  retired = 0;
  done = 0 ∷ [];
}

Reached-claimed : Reached true 4 1 1 claimed
unfolding start effective_concurrency turn
Reached-claimed = steps 0 (start 4 1) claimed starts (turns (omega arith))

Reached-worked : Reached true 4 1 2 worked
unfolding fulfil
Reached-worked = steps 1 claimed worked Reached-claimed (fulfils [] 0 [] refl)

Reached-finished : Reached true 4 1 3 finished
unfolding turn retire
Reached-finished = steps 2 worked finished Reached-worked (turns (omega arith))

pool-IsBounded_example :
    (length claimed.in_flight ≤ max 1 (min 4 1))
    × (((i : ℕ)
          → count i claimed.in_flight + count i claimed.done
            ≡ (if ltb i (min claimed.cursor 1) then 1 else 0))
        × (1 ≤ 3 * 1 + max 1 (min 4 1)))
pool-IsBounded_example = pool-IsBounded true 4 1 1 claimed Reached-claimed

pool_finishes_example : Ends true 4 1 1 claimed
pool_finishes_example = pool_finishes true 4 1 1 claimed Reached-claimed

-- The task throws.
abbrev throwing : ℕ → Settled ℕ ℕ
throwing i = rejected 7

settled : Settling throwing 4 1 3 finished (some (rejected 7) ∷ [])
unfolding start effective_concurrency turn retire fulfil
settled =
    claims 2 worked (some (rejected 7) ∷ [])
      (settles 1 claimed (none ∷ []) [] 0 [] (claims 0 (start 4 1) (none ∷ []) begins (omega arith))
        refl)
      (omega arith)

abbrev one_result : List (Option (Settled ℕ ℕ))
one_result = some (rejected 7) ∷ []

results-IsOrdered_example : get_elem? one_result 0 ≡ some (some (rejected 7))
results-IsOrdered_example =
    results-IsOrdered throwing 4 1 3 finished one_result 0 settled refl refl (omega arith)
