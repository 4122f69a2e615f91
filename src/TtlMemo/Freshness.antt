-- ===== src/TtlMemo/Freshness.antt =====
-- The calls of ttl-memo.ts that are under way, and the age of what is served.
use fast_auth_indexer_api.Prelude.{
  ℕ, ◌+◌, ◌≡◌, Option, none, some, List, [], ◌∷◌, ltb, if◌then◌else◌,
}
use fast_auth_indexer_api.TtlMemo.{Cached, World}

-- The calls that have not settled are the one in the slot, if any.
abbrev pub in_slot : Option ℕ → List ℕ
in_slot none = []
in_slot (some call) = call ∷ []

module _ {ℓ} {A : Type ℓ} (ttl_ms : ℕ) where
  -- The cache holds what the factory resolved to last, and expires after the TTL from then.
  data IsLast : Option (Cached A) → List (ℕ × A) → Type ℓ where
    nothing : IsLast none []
    newest :
        (now : ℕ) (value : A) (log : List (ℕ × A))
        → IsLast (some (record { expires_at = now + ttl_ms; value = value })) ((now, value) ∷ log)

  record IsSound (w : World A) : Type ℓ where
    single : w.running ≡ in_slot w.memo.in_flight
    last : IsLast w.memo.cached w.log

  -- What a caller at a time is to be served from the cache: the value that resolved last, for the TTL.
  abbrev pub last_value : ℕ → List (ℕ × A) → Option A
  last_value now [] = none
  last_value now ((at, value) ∷ older) = if ltb now (at + ttl_ms) then some value else none
