-- ===== src/Rpc/Slots.antt =====
-- `acquireRequestSlot` of src/modules/common/near-rpc/near-rpc.service.ts: the cap on the rate of the
-- requests. Times are in a unit that the interval is a multiple of; an interval of 0 disables the cap.
use fast_auth_indexer_api.Prelude.{
  ℕ, ◌+◌, ◌-◌, ◌≤◌, ◌<◌, max, ◌&&◌, List, [], ◌∷◌, arith, ltb, leb, ◌==◌, if◌then◌else◌,
}

-- The slot that a caller gets, and the next free one.
unfoldable pub acquire_request_slot : ℕ → ℕ → ℕ → ℕ × ℕ
acquire_request_slot interval now next_request_slot =
    if interval == 0
    then (now, next_request_slot)
    else let slot = max now next_request_slot in (slot, slot + interval)

-- The slots of a sequence of callers, each at the time of its call.
unfoldable pub acquired : ℕ → ℕ → List ℕ → List ℕ
unfolding acquire_request_slot
acquired interval next_request_slot [] = []
acquired interval next_request_slot (now ∷ times) =
    let (slot, next) = acquire_request_slot interval now next_request_slot in
    slot ∷ acquired interval next times

-- The intervals of the slots that are in the window of a length from a time on, summed up.
unfoldable pub spent : ℕ → ℕ → ℕ → List ℕ → ℕ
spent interval from window [] = 0
spent interval from window (slot ∷ slots) =
    (if leb from slot && ltb slot (from + window) then interval else 0)
    + spent interval from window slots

spent-acquired :
    (interval from window next : ℕ) (times : List ℕ)
    → 0 < interval
    → spent interval from window (acquired interval next times)
      ≤ from + window + interval - max next from
unfolding spent acquired acquire_request_slot
spent-acquired interval from window next [] pos = omega arith
spent-acquired interval from window next (now ∷ times) pos =
    let ih = spent-acquired interval from window (max now next + interval) times pos in
    ground (arith, ih, pos)

-- Whenever the callers come, the requests that start in any window of time take no more than the window
-- and one interval: there is at most one request per interval, and one more.
pub acquired-IsCapped :
    (interval from window next : ℕ) (times : List ℕ)
    → 0 < interval
    → spent interval from window (acquired interval next times) ≤ window + interval
acquired-IsCapped interval from window next times pos =
    let most = spent-acquired interval from window next times pos in omega (arith, most)
