-- ===== src/Hmac/Decision.antt =====
-- Which requests the guard lets pass.
use fast_auth_indexer_api.Prelude.{
  ℕ, ◌+◌, ◌≤◌, ◌≡◌, refl, ap, ◌∙◌, ◌≢◌, ◌↔◌, inl, inr, true, false, Option, none, some, List, [],
  ◌∷◌, ◌++◌, arith, Option-cases, Text, eq_text_iff, to_lower_case, number,
}
use fast_auth_indexer_api.Hmac.Hex.{from_hex, to_hex, AllBytes, from_hex-to_hex}
use fast_auth_indexer_api.Hmac.{
  timestamp_skew_window_ms, Config, Request, accepted, or_empty, is_forbidden, is_replay,
  same_bytes, is_signed, decide, can_activate,
}

from_hex-own : (bytes : List ℕ) → AllBytes bytes → from_hex (to_hex bytes) ≡ bytes
unfolding from_hex
from_hex-own bytes all = ap from_hex (append_nil (to_hex bytes)) ∙ from_hex-to_hex bytes [] all refl
  where
    append_nil : (s : Text) → s ≡ s ++ []
    append_nil [] = refl
    append_nil (c ∷ s) = ap (λ t. c ∷ t) (append_nil s)

module _ (hmac_sha256 : Text → Text → List ℕ) where
  -- The message that is signed.
  abbrev signed_message : Request → Text
  signed_message req = or_empty req.x_timestamp ++ (58 ∷ req.path)

  is_signed_iff :
      (secret : Text) (req : Request)
      → AllBytes (hmac_sha256 secret (signed_message req))
      → (is_signed hmac_sha256 secret req ≡ true) ↔ (
          from_hex (to_lower_case (or_empty req.x_signature))
          ≡ hmac_sha256 secret (signed_message req))
  unfolding is_signed same_bytes
  is_signed_iff secret req all =
      let same = from_hex-own (hmac_sha256 secret (signed_message req)) all in
      rw same (
        eq_text_iff (from_hex (to_lower_case (or_empty req.x_signature)))
          (hmac_sha256 secret (signed_message req)))

  -- The secret is set, the address is allowed, the timestamp is a number within five minutes of the
  -- clock on either side, and the signature decodes to the digest of the timestamp and the path.
  pub record IsAuthentic (config : Config) (now : ℕ) (req : Request) : Type 0 where
    pub secret : Text
    pub configured : (config.cron_secret ≡ some secret) × (secret ≢ [])
    pub allowed : is_forbidden config req ≡ false
    pub timestamp : ℕ
    pub stamped : number (or_empty req.x_timestamp) ≡ some timestamp
    pub recent :
        (now ≤ timestamp + timestamp_skew_window_ms) × (timestamp ≤ now + timestamp_skew_window_ms)
    pub signed :
        from_hex (to_lower_case (or_empty req.x_signature))
        ≡ hmac_sha256 secret (signed_message req)

  decide-IsAuthentic :
      (config : Config) (now : ℕ) (req : Request) (secret : Option Text)
      → ((k m : Text) → AllBytes (hmac_sha256 k m))
      → config.cron_secret ≡ secret
      → decide hmac_sha256 config now req secret ≡ accepted
      → IsAuthentic config now req
  unfolding decide is_replay
  decide-IsAuthentic config now req none all same p = cc
  decide-IsAuthentic config now req (some []) all same p = cc
  decide-IsAuthentic config now req (some (c ∷ secret)) all same p =
      elim (Option-cases (number (or_empty req.x_timestamp))) [
        | inl none_given ↦ absurd (ground (arith, p, none_given))
        | inr (ts, given) ↦ record {
          secret = c ∷ secret;
          configured = (same, λ e. cc);
          allowed = ground (arith, p, given);
          timestamp = ts;
          stamped = given;
          recent = (ground (arith, p, given), ground (arith, p, given));
          signed =
              (is_signed_iff (c ∷ secret) req (all (c ∷ secret) (signed_message req))).0
                (ground (arith, p, given));
        }
      ]

  -- A request that the guard accepts is authentic, when the digest is made of bytes.
  pub can_activate-IsAuthentic :
      (config : Config) (now : ℕ) (req : Request)
      → ((k m : Text) → AllBytes (hmac_sha256 k m))
      → can_activate hmac_sha256 config now req ≡ accepted
      → IsAuthentic config now req
  unfolding can_activate
  can_activate-IsAuthentic config now req all p =
      decide-IsAuthentic config now req config.cron_secret all refl p

  -- The converse holds, and what follows the digest in the signature does not matter: a signature that
  -- goes on after the digits of the digest with a text that does not start with two more digits is
  -- accepted.
  pub can_activate-tail :
      (config : Config) (now : ℕ) (req : Request) (c : ℕ) (secret tail : Text)
      → config.cron_secret ≡ some (c ∷ secret)
      → is_forbidden config req ≡ false
      → is_replay now (number (or_empty req.x_timestamp)) ≡ false
      → AllBytes (hmac_sha256 (c ∷ secret) (signed_message req))
      → to_lower_case (or_empty req.x_signature)
        ≡ to_hex (hmac_sha256 (c ∷ secret) (signed_message req)) ++ tail
      → from_hex tail ≡ []
      → can_activate hmac_sha256 config now req ≡ accepted
  unfolding can_activate decide
  can_activate-tail config now req c secret tail set allowed recent all written stops =
      let digest = hmac_sha256 (c ∷ secret) (signed_message req) in
      let read = ap from_hex written ∙ from_hex-to_hex digest tail all stops in
      let signed = (is_signed_iff (c ∷ secret) req all).1 read in
      rw (set, can_activate) (ground (arith, allowed, recent, signed))
