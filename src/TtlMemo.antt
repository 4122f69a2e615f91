-- ===== src/TtlMemo.antt =====
-- src/modules/common/ttl-memo.ts: a single-flight cache. A call of the factory is a number, and
-- settles at some later time; the clock is read at each event.
pub mod Freshness
pub mod Tests
use fast_auth_indexer_api.Prelude.{
  ℕ, ◌+◌, ◌≡◌, Bool, false, Option, none, some, List, [], ◌∷◌, ◌++◌, ltb, ◌==◌, if◌then◌else◌,
}

-- `cached`
pub record Cached {ℓ} (A : Type ℓ) : Type ℓ where
  pub expires_at : ℕ
  pub value : A

pub record Memo {ℓ} (A : Type ℓ) : Type ℓ where
  pub in_flight : Option ℕ
  pub cached : Option (Cached A)

-- What a caller is handed: the value, or a promise, and whether the factory was called for it.
pub data Answer {ℓ} (A : Type ℓ) : Type ℓ where
  resolved : A → Answer A
  shares : ℕ → Answer A
  calls : ℕ → Answer A

-- `this.inFlight === promise`
abbrev pub is_call : Option ℕ → ℕ → Bool
is_call none call = false
is_call (some c) call = c == call

-- The memo, the number of the next call, the calls that have not settled, and the values that the
-- factory resolved to, each with its time, the newest first.
pub record World {ℓ} (A : Type ℓ) : Type ℓ where
  pub memo : Memo A
  pub next : ℕ
  pub running : List ℕ
  pub log : List (ℕ × A)

module _ {ℓ} {A : Type ℓ} where
  unfoldable pub fresh_value : ℕ → Option (Cached A) → Option A
  fresh_value now none = none
  fresh_value now (some c) = if ltb now c.expires_at then some c.value else none

  unfoldable pub join : ℕ → Option ℕ → Memo A → Answer A × Memo A
  join call (some running) m = (shares running, m)
  join call none m = (calls call, record m { in_flight = some call })

  -- `get` at a time, with the number that the next call of the factory has.
  unfoldable pub get : ℕ → ℕ → Memo A → Answer A × Memo A
  unfolding fresh_value join
  get now call m = elim (fresh_value now m.cached) [
    | some value ↦ (resolved value, m)
    | none ↦ join call m.in_flight m
  ]

  unfoldable pub fulfil : ℕ → ℕ → ℕ → A → Memo A → Memo A
  fulfil ttl_ms now call value m =
      if is_call m.in_flight call
      then record {
        in_flight = none;
        cached = some (record { expires_at = now + ttl_ms; value = value });
      }
      else m

  unfoldable pub reject : ℕ → Memo A → Memo A
  reject call m = if is_call m.in_flight call then record m { in_flight = none } else m

  abbrev pub called : Answer A → ℕ → List ℕ → List ℕ
  called (calls call) next running = call ∷ running
  called _ next running = running

  pub data Event (ttl_ms : ℕ) (w : World A) : World A → Type ℓ where
    gets :
        (now : ℕ)
        → Event ttl_ms w (record {
          memo = (get now w.next w.memo).1;
          next = w.next + 1;
          running = called (get now w.next w.memo).0 w.next w.running;
          log = w.log;
        })
    fulfils :
        (now : ℕ) (before : List ℕ) (call : ℕ) (after : List ℕ) (value : A)
        → w.running ≡ before ++ (call ∷ after)
        → Event ttl_ms w (record {
          memo = fulfil ttl_ms now call value w.memo;
          next = w.next;
          running = before ++ after;
          log = (now, value) ∷ w.log;
        })
    rejects :
        (before : List ℕ) (call : ℕ) (after : List ℕ)
        → w.running ≡ before ++ (call ∷ after)
        → Event ttl_ms w (record {
          memo = reject call w.memo;
          next = w.next;
          running = before ++ after;
          log = w.log;
        })

  pub data Reached (ttl_ms : ℕ) : World A → Type ℓ where
    starts : Reached ttl_ms (record {
      memo = record { in_flight = none; cached = none };
      next = 0;
      running = [];
      log = [];
    })
    steps : (w w' : World A) → Reached ttl_ms w → Event ttl_ms w w' → Reached ttl_ms w'
