-- ===== src/NearBlock/Tests.antt =====
-- A pool of three endpoints, two of which have dropped the block.
use fast_auth_indexer_api.Prelude.{
  ℕ, ◌+◌, ◌-◌, ◌*◌, ◌≡◌, refl, true, List, [], ◌∷◌, arith, if◌then◌else◌, Text, codes, eq_text, add,
  to_lower_case, trim, starts_with, includes, has, print,
}
use fast_auth_indexer_api.Prelude.Int.{ℤ, pos}
use fast_auth_indexer_api.Rpc.{Endpoint, Options, create, default_options}
use fast_auth_indexer_api.Rpc.Request.{
  Exhausted, Reply, rpc_error, timeout, World, Outcome, Service, request,
}
use fast_auth_indexer_api.Rpc.Request.Laws.{urls}
use fast_auth_indexer_api.Rpc.Request.Trail.{call_trail, IsRecorded, IsTold}
use fast_auth_indexer_api.Rpc.Request.Failures.{IsSound, request-IsSound}
use fast_auth_indexer_api.NearBlock.{
  exhausted, is_skippable_missing_height_error, fetch_block_by_height,
}
use fast_auth_indexer_api.NearBlock.Agreement.{IsAgreed, fetch_block_by_height-IsAgreed}

abbrev sample_urls : List Text
sample_urls = codes "a" ∷ codes "b" ∷ codes "c" ∷ []

abbrev sample_world : World ℕ
sample_world = record {
  reply = λ attempt url.
      if eq_text url (codes "c") then timeout else rpc_error 200 (codes "UNKNOWN_BLOCK");
  pick_time = λ attempt. 1000 * attempt;
  fail_time = λ attempt. 1000 * attempt + 1;
}

abbrev sample_service : Service
sample_service = record { endpoints = create sample_urls []; outcomes = [] }

abbrev two_attempts : Options
two_attempts = record {
  max_failures = 3;
  blacklist_duration_ms = 60_000;
  max_attempts = 2;
  base_delay_ms = 300;
}

request-IsSound_example :
    let us = urls sample_service.endpoints in
    let t =
      call_trail two_attempts (codes "final-block") (codes "aborted") sample_world sample_service in
    let (result, after) =
      request two_attempts (codes "final-block") (codes "aborted") sample_world sample_service in
    IsSound two_attempts (codes "final-block") (codes "aborted") sample_world us result
    × ((urls after.endpoints ≡ us)
        × (IsRecorded two_attempts (codes "final-block") (codes "aborted") sample_world us 1 t
            × IsTold two_attempts (codes "final-block") (codes "aborted") t result))
unfolding create fast_auth_indexer_api.Rpc.unique_urls eq_text trim add
request-IsSound_example =
    request-IsSound two_attempts (codes "final-block") (codes "aborted") sample_world sample_service
      (omega arith)

thrown_of : Outcome ℕ → Exhausted
thrown_of (Outcome.exhausted e) = e
thrown_of (Outcome.served a) = record {
  message = [];
  unknown_block_endpoints = [];
  healthy_endpoint_count = 0;
  total_attempts = 0;
  contacted_endpoint_count = 0;
}

abbrev sample_thrown : Exhausted
sample_thrown =
    thrown_of (fetch_block_by_height two_attempts (codes "aborted") 7 sample_world sample_service).0

fetch_block_by_height-IsAgreed_example :
    (is_skippable_missing_height_error (exhausted sample_thrown) ≡ true)
    × IsAgreed two_attempts (codes "aborted") 7 sample_world sample_service sample_thrown
unfolding thrown_of create fast_auth_indexer_api.Rpc.unique_urls eq_text trim add
    fetch_block_by_height request fast_auth_indexer_api.Rpc.Request.attempts
    fast_auth_indexer_api.Rpc.Request.describe fast_auth_indexer_api.Rpc.Request.url_at
    fast_auth_indexer_api.Rpc.Request.pick fast_auth_indexer_api.Rpc.pick_next_endpoint
    fast_auth_indexer_api.Prelude.Int.◌+ℤ◌ fast_auth_indexer_api.Rpc.Request.fail
    fast_auth_indexer_api.Rpc.Request.update_at fast_auth_indexer_api.Rpc.handle_failure
    fast_auth_indexer_api.Rpc.is_rate_limit includes to_lower_case
    fast_auth_indexer_api.Rpc.Request.rpc_snippet fast_auth_indexer_api.Rpc.is_server_error
    fast_auth_indexer_api.Rpc.is_connection_error fast_auth_indexer_api.Prelude.Int.◌-ℤ◌
    fast_auth_indexer_api.NearBlock.is_unfetchable_everywhere_error
    fast_auth_indexer_api.NearBlock.is_reported_missing_everywhere print has starts_with
    fast_auth_indexer_api.Rpc.Request.give_up fast_auth_indexer_api.Rpc.Request.message_of
    fast_auth_indexer_api.Rpc.Request.record_outcome fast_auth_indexer_api.Rpc.Request.rpc_message
    fast_auth_indexer_api.Rpc.Request.snippet fast_auth_indexer_api.Rpc.Request.thrown_message
    fast_auth_indexer_api.Rpc.Request.unknown_failure fast_auth_indexer_api.Rpc.add_weights
    fast_auth_indexer_api.Rpc.any_available fast_auth_indexer_api.Rpc.clear_expired_blacklists
    fast_auth_indexer_api.Rpc.get_available_endpoints
    fast_auth_indexer_api.Rpc.is_unknown_block_message fast_auth_indexer_api.Rpc.reset_all_endpoints
fetch_block_by_height-IsAgreed_example =
    fetch_block_by_height-IsAgreed two_attempts (codes "aborted") 7 sample_world sample_service
      sample_thrown (omega arith) refl refl
