-- ===== src/Hmac/Tests.antt =====
-- A request that is signed with a two-byte digest.
use fast_auth_indexer_api.Prelude.{
  ℕ, ◌≡◌, refl, none, some, List, [], ◌∷◌, arith, Text, codes, to_lower_case, trim, has, number,
}
use fast_auth_indexer_api.Hmac.Hex.{AllBytes, from_hex, to_hex}
use fast_auth_indexer_api.Hmac.{Config, Request, accepted, is_forbidden, is_replay, can_activate}
use fast_auth_indexer_api.Hmac.Decision.{IsAuthentic, can_activate-IsAuthentic, can_activate-tail}

abbrev sample_digest : Text → Text → List ℕ
sample_digest secret message = 171 ∷ 205 ∷ []

abbrev sample_config : Config
sample_config = record { cron_secret = some (codes "secret"); allowed_ips = codes "10.0.0.1" ∷ [] }

abbrev sample_request : Text → Request
sample_request signature = record {
  x_forwarded_for = some (codes "10.0.0.1, 10.0.0.9");
  remote_address = none;
  x_timestamp = some (codes "1000");
  x_signature = some signature;
  path = codes "/api/indexers/run";
}

all_bytes : (k m : Text) → AllBytes (sample_digest k m)
unfolding AllBytes
all_bytes k m = (omega arith, (omega arith, tt))

can_activate-IsAuthentic_example :
    IsAuthentic sample_digest sample_config 2000 (sample_request (codes "ABCD"))
unfolding can_activate has trim number to_lower_case
can_activate-IsAuthentic_example =
    can_activate-IsAuthentic sample_digest sample_config 2000 (sample_request (codes "ABCD"))
      all_bytes refl

can_activate-tail_example :
    can_activate sample_digest sample_config 2000 (sample_request (codes "abcdxyz")) ≡ accepted
unfolding is_forbidden has trim number to_lower_case is_replay to_hex from_hex
can_activate-tail_example =
    can_activate-tail sample_digest sample_config 2000 (sample_request (codes "abcdxyz")) 115
      (codes "ecret") (codes "xyz") refl refl refl (all_bytes [] []) refl refl
