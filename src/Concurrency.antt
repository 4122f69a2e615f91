-- ===== src/Concurrency.antt =====
-- src/modules/common/concurrency.ts: the pool of runners that pull items off a shared cursor.
-- `runWithConcurrency` and `runWithConcurrencyAbortOnError` differ in the test that a runner makes
-- before it claims an item: the latter stops once an error is noted. A runner runs without a break
-- from one `await` to the next, so its turn is one step; the workers settle in any order.
pub mod Runs
pub mod Finishing
pub mod Settling
pub mod Tests
use fast_auth_indexer_api.Prelude.{
  ℕ, suc, ◌+◌, ◌-◌, ◌<◌, min, max, ◌≡◌, Bool, true, false, ◌&&◌, Option, none, some, List, [], ◌∷◌,
  ◌++◌, leb, if◌then◌else◌,
}

-- The shared variables, and where the runners are: at the top of their loop, awaiting the worker of
-- an item, or returned. `done` are the items whose worker has settled, with or without an error.
pub record Pool {ℓ} (E : Type ℓ) : Type ℓ where
  pub cursor : ℕ
  pub failure : Option E
  pub ready : ℕ
  pub in_flight : List ℕ
  pub retired : ℕ
  pub done : List ℕ

-- `Math.max(1, Math.min(concurrency, items.length))`
unfoldable pub effective_concurrency : ℕ → ℕ → ℕ
effective_concurrency concurrency n = max 1 (min concurrency n)

abbrev pub has_failed {ℓ} : {E : Type ℓ} → Option E → Bool
has_failed none = false
has_failed (some e) = true

-- `if (failure === null) failure = error`
abbrev pub first_failure {ℓ} : {E : Type ℓ} → Option E → E → Option E
first_failure none e = some e
first_failure (some e') e = some e'

module _ {ℓ} {E : Type ℓ} where
  unfoldable pub start : ℕ → ℕ → Pool E
  unfolding effective_concurrency
  start concurrency n = record {
    cursor = 0;
    failure = none;
    ready = effective_concurrency concurrency n;
    in_flight = [];
    retired = 0;
    done = [];
  }

  unfoldable pub retire : Pool E → Pool E
  retire s = record s { ready = s.ready - 1; retired = s.retired + 1 }

  -- A runner at the top of its loop: it returns, or claims the next item and calls its worker.
  unfoldable pub turn : Bool → ℕ → Pool E → Pool E
  unfolding retire
  turn abort n s =
      if abort && has_failed s.failure
      then retire s
      else if leb n s.cursor
      then retire (record s { cursor = s.cursor + 1 })
      else record s {
        cursor = s.cursor + 1;
        ready = s.ready - 1;
        in_flight = s.cursor ∷ s.in_flight;
      }

  -- The worker of the item between these others ends well.
  unfoldable pub fulfil : List ℕ → ℕ → List ℕ → Pool E → Pool E
  fulfil before i after s = record s {
    ready = s.ready + 1;
    in_flight = before ++ after;
    done = i ∷ s.done;
  }

  -- The worker throws: the error is noted if it is the first, and the runner returns.
  unfoldable pub reject : List ℕ → ℕ → List ℕ → E → Pool E → Pool E
  reject before i after e s = record s {
    failure = first_failure s.failure e;
    in_flight = before ++ after;
    retired = s.retired + 1;
    done = i ∷ s.done;
  }

  -- What may happen next.
  pub data Event (abort : Bool) (n : ℕ) (s : Pool E) : Pool E → Type ℓ where
    turns : 0 < s.ready → Event abort n s (turn abort n s)
    fulfils :
        (before : List ℕ) (i : ℕ) (after : List ℕ)
        → s.in_flight ≡ before ++ (i ∷ after)
        → Event abort n s (fulfil before i after s)
    rejects :
        (before : List ℕ) (i : ℕ) (after : List ℕ) (e : E)
        → s.in_flight ≡ before ++ (i ∷ after)
        → Event abort n s (reject before i after e s)

  -- The states after a number of events.
  pub data Reached (abort : Bool) (concurrency n : ℕ) : ℕ → Pool E → Type ℓ where
    starts : Reached abort concurrency n 0 (start concurrency n)
    steps :
        (k : ℕ) (s s' : Pool E)
        → Reached abort concurrency n k s
        → Event abort n s s'
        → Reached abort concurrency n (suc k) s'
