-- ===== src/Concurrency/Runs.antt =====
-- The runs of a pool of concurrency.ts.
use fast_auth_indexer_api.Prelude.{
  ℕ, suc, ◌+◌, ◌-◌, ◌*◌, ◌≤◌, ◌<◌, min, max, ◌≡◌, refl, ap, ◌∙◌, ◌≢◌, ◌⊎◌, inl, inr, Bool, false,
  ◌&&◌, Option, none, some, List, [], ◌∷◌, ◌++◌, arith, ltb, leb, ◌==◌, if◌then◌else◌, Bool-cases,
  length, length-append,
}
use fast_auth_indexer_api.Concurrency.{
  Pool, effective_concurrency, has_failed, first_failure, start, retire, turn, fulfil, reject,
  Event, turns, fulfils, rejects, Reached, starts, steps,
}

unfoldable pub count : ℕ → List ℕ → ℕ
count i [] = 0
count i (j ∷ js) = (if j == i then 1 else 0) + count i js

count-append : (i : ℕ) (xs ys : List ℕ) → count i (xs ++ ys) ≡ count i xs + count i ys
unfolding count
count-append i [] ys = omega arith
count-append i (x ∷ xs) ys = ground (arith, count-append i xs ys)

module _ {ℓ} {E : Type ℓ} (abort : Bool) (concurrency n : ℕ) where
  record IsSound (k : ℕ) (s : Pool E) : Type ℓ where
    -- Each item that the cursor has passed is under way or done, once.
    once :
        (i : ℕ) → count i s.in_flight + count i s.done ≡ (if ltb i (min s.cursor n) then 1 else 0)
    runners : s.ready + length s.in_flight + s.retired ≡ effective_concurrency concurrency n
    -- Without an error, a runner returns when the items are used up.
    exhausted : has_failed s.failure ≡ false → 0 < s.retired → n ≤ s.cursor
    -- What is left to do shrinks with every event.
    measured :
        k + 3 * (n - s.cursor) + s.ready + 2 * length s.in_flight
        ≤ 3 * n + effective_concurrency concurrency n

  start-IsSound : IsSound 0 (start concurrency n)
  unfolding start count
  start-IsSound = record {
    once = λ i. ground arith;
    runners = omega arith;
    exhausted = λ f r. absurd (omega (arith, r));
    measured = omega arith;
  }

  turn-IsSound : (k : ℕ) (s : Pool E) → IsSound k s → 0 < s.ready → IsSound (suc k) (turn abort n s)
  unfolding turn retire count
  turn-IsSound k s i pos = elim (Bool-cases (abort && has_failed s.failure)) [
    | inl stops ↦
        rw (stops, turn)
          (record {
            once = i.once;
            runners = omega (arith, i.runners, pos);
            exhausted = λ f r. absurd (ground (arith, stops, f));
            measured = omega (arith, i.measured, pos);
          })
    | inr goes ↦ elim (Bool-cases (leb n s.cursor)) [
      | inl used ↦
          rw (goes, turn)
            (rw used (record {
              once = λ j. ground (arith, i.once j, used);
              runners = omega (arith, i.runners, pos);
              exhausted = λ f r. ground (arith, used);
              measured = ground (arith, i.measured, pos);
            }))
      | inr left ↦
          rw (goes, turn)
            (rw left (record {
              once = λ j. ground (arith, i.once j, left);
              runners = omega (arith, i.runners, pos);
              exhausted = λ f r. ground (arith, i.exhausted f r, left);
              measured = ground (arith, i.measured, pos, left);
            }))
    ]
  ]

  fulfil-IsSound :
      (k : ℕ) (s : Pool E) (before : List ℕ) (item : ℕ) (after : List ℕ)
      → IsSound k s
      → s.in_flight ≡ before ++ (item ∷ after)
      → IsSound (suc k) (fulfil before item after s)
  unfolding fulfil count
  fulfil-IsSound k s before item after i split =
      let size = ap length split ∙ length-append before (item ∷ after) in
      let size' = length-append before after in
      record {
        once = λ j. ground (
          arith,
          i.once j,
          ap (count j) split,
          count-append j before (item ∷ after),
          count-append j before after,
        );
        runners = ground (arith, i.runners, size, size');
        exhausted = i.exhausted;
        measured = ground (arith, i.measured, size, size');
      }

  reject-IsSound :
      (k : ℕ) (s : Pool E) (before : List ℕ) (item : ℕ) (after : List ℕ) (e : E)
      → IsSound k s
      → s.in_flight ≡ before ++ (item ∷ after)
      → IsSound (suc k) (reject before item after e s)
  unfolding reject count
  reject-IsSound k s before item after e i split =
      let size = ap length split ∙ length-append before (item ∷ after) in
      let size' = length-append before after in
      record {
        once = λ j. ground (
          arith,
          i.once j,
          ap (count j) split,
          count-append j before (item ∷ after),
          count-append j before after,
        );
        runners = ground (arith, i.runners, size, size');
        exhausted = λ f r. absurd (noted s.failure f);
        measured = ground (arith, i.measured, size, size');
      }
    where
      noted : (old : Option E) → has_failed (first_failure old e) ≢ false
      noted none f = cc
      noted (some e') f = cc

  Reached-IsSound : (k : ℕ) (s : Pool E) → Reached abort concurrency n k s → IsSound k s
  Reached-IsSound k s starts = start-IsSound
  Reached-IsSound k s (steps k0 s0 _ r (turns pos)) =
      turn-IsSound k0 s0 (Reached-IsSound k0 s0 r) pos
  Reached-IsSound k s (steps k0 s0 _ r (fulfils before i after split)) =
      fulfil-IsSound k0 s0 before i after (Reached-IsSound k0 s0 r) split
  Reached-IsSound k s (steps k0 s0 _ r (rejects before i after e split)) =
      reject-IsSound k0 s0 before i after e (Reached-IsSound k0 s0 r) split

  -- However the workers settle, with errors or without: at most as many items as the concurrency
  -- allows are under way, each item below the cursor has been claimed exactly once and no other has,
  -- and the number of events is bounded, so the pool comes to an end.
  pub pool-IsBounded :
      (k : ℕ) (s : Pool E)
      → Reached abort concurrency n k s
      → (length s.in_flight ≤ max 1 (min concurrency n))
        × (((i : ℕ)
              → count i s.in_flight + count i s.done ≡ (if ltb i (min s.cursor n) then 1 else 0))
            × (k ≤ 3 * n + max 1 (min concurrency n)))
  unfolding effective_concurrency
  pool-IsBounded k s r =
      let i = Reached-IsSound k s r in
      (omega (arith, i.runners), (i.once, omega (arith, i.measured)))

  -- When all the runners have returned and no worker has thrown, each of the items has been worked on
  -- exactly once.
  pub finished-IsComplete :
      (k : ℕ) (s : Pool E) (i : ℕ)
      → Reached abort concurrency n k s
      → s.ready ≡ 0
      → s.in_flight ≡ []
      → has_failed s.failure ≡ false
      → i < n
      → count i s.done ≡ 1
  unfolding effective_concurrency count
  finished-IsComplete k s i r none_ready none_running well below =
      let sound = Reached-IsSound k s r in
      let used = sound.exhausted well (ground (arith, sound.runners, none_ready, none_running)) in
      ground (arith, sound.once i, none_running, used, below)

  -- As long as a runner has not returned, something can still happen: the pool is never stuck.
  pub unfinished-IsEnabled :
      (s : Pool E) → (0 < s.ready) ⊎ (0 < length s.in_flight) → (s' : Pool E) × Event abort n s s'
  unfinished-IsEnabled s (inl pos) = (turn abort n s, turns pos)
  unfinished-IsEnabled s (inr pos) =
      let (i, (after, split)) = nonempty-split s.in_flight pos in
      (fulfil [] i after s, fulfils [] i after split)
    where
      nonempty-split :
          (xs : List ℕ) → 0 < length xs → (i : ℕ) × ((after : List ℕ) × (xs ≡ [] ++ (i ∷ after)))
      nonempty-split [] p = absurd (omega arith)
      nonempty-split (x ∷ xs) p = (x, (xs, refl))
