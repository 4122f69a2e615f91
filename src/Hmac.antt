-- ===== src/Hmac.antt =====
-- src/modules/indexer-trigger/hmac.guard.ts: the guard of `POST /api/indexers/run`. The digest
-- HMAC-SHA256 is given; `Buffer.from(s, "hex")` reads pairs of hexadecimal digits up to the first
-- that is none. Timestamps with a sign or a fraction are not read (see Prelude/Decimal.antt).
pub mod Hex
pub mod Decision
pub mod Tests
use fast_auth_indexer_api.Prelude.{
  ℕ, ◌+◌, ◌-◌, ◌*◌, Bool, true, false, not, ◌&&◌, ◌||◌, Option, none, some, List, [], ◌∷◌, ◌++◌,
  ltb, ◌==◌, if◌then◌else◌, Text, eq_text, to_lower_case, trim, has, number,
}
use fast_auth_indexer_api.Hmac.Hex.{from_hex, to_hex}

abbrev pub timestamp_skew_window_ms : ℕ
timestamp_skew_window_ms = 5 * 60 * 1000

pub record Config : Type 0 where
  pub cron_secret : Option Text
  pub allowed_ips : List Text

-- The headers that the guard reads, the peer's address, and the path.
pub record Request : Type 0 where
  pub x_forwarded_for : Option Text
  pub remote_address : Option Text
  pub x_timestamp : Option Text
  pub x_signature : Option Text
  pub path : Text

pub data Verdict : Type 0 where
  accepted unauthorized forbidden_ip replay : Verdict

-- `header ?? ""`
abbrev pub or_empty : Option Text → Text
or_empty none = []
or_empty (some value) = value

-- `split(",")[0]`
unfoldable pub before_comma : Text → Text
before_comma [] = []
before_comma (c ∷ s) = if c == 44 then [] else c ∷ before_comma s

unfoldable pub source_ip : Request → Text
unfolding before_comma
source_ip req = elim req.x_forwarded_for [
  | some ips ↦ trim (before_comma ips)
  | none ↦ or_empty req.remote_address
]

abbrev pub is_empty : List Text → Bool
is_empty [] = true
is_empty (t ∷ ts) = false

-- `allowedIps.length > 0` and the address is not among them.
unfoldable pub is_forbidden : Config → Request → Bool
unfolding source_ip
is_forbidden config req =
    not (is_empty config.allowed_ips) && not (has config.allowed_ips (source_ip req))

-- `!Number.isFinite(ts) || Math.abs(Date.now() - ts) > TIMESTAMP_SKEW_WINDOW_MS`
unfoldable pub is_replay : ℕ → Option ℕ → Bool
is_replay now none = true
is_replay now (some ts) =
    ltb timestamp_skew_window_ms (now - ts) || ltb timestamp_skew_window_ms (ts - now)

-- `timingSafeEqual` of the two buffers, which have the same length.
unfoldable pub same_bytes : List ℕ → List ℕ → Bool
same_bytes sig expected = eq_text sig expected

module _ (hmac_sha256 : Text → Text → List ℕ) where
  unfoldable pub is_signed : Text → Request → Bool
  unfolding same_bytes to_hex from_hex
  is_signed secret req =
      let expected = to_hex (hmac_sha256 secret (or_empty req.x_timestamp ++ (58 ∷ req.path))) in
      same_bytes (from_hex (to_lower_case (or_empty req.x_signature))) (from_hex expected)

  unfoldable pub decide : Config → ℕ → Request → Option Text → Verdict
  unfolding is_forbidden is_replay is_signed
  decide config now req none = unauthorized
  decide config now req (some []) = unauthorized
  decide config now req (some (c ∷ secret)) =
      if is_forbidden config req
      then forbidden_ip
      else if is_replay now (number (or_empty req.x_timestamp))
      then replay
      else if is_signed (c ∷ secret) req
      then accepted
      else unauthorized

  unfoldable pub can_activate : Config → ℕ → Request → Verdict
  unfolding decide
  can_activate config now req = decide config now req config.cron_secret
