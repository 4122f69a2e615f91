-- ===== src/HttpPool/Tests.antt =====
-- A pool of two providers, the first of which is blacklisted.
use fast_auth_indexer_api.Prelude.{◌≡◌, true, false, none, some, [], ◌∷◌, arith, codes}
use fast_auth_indexer_api.Prelude.{get_elem?}
use fast_auth_indexer_api.HttpPool.{HttpEndpoint, HttpPool, get_current}
use fast_auth_indexer_api.HttpPool.Availability.{get_current-IsOpen}

abbrev sample_pool : HttpPool
sample_pool = record {
  endpoints =
      record {
        url_template = codes "a";
        failures = 3;
        last_failure = some 10;
        is_blacklisted = true;
      }
      ∷ record {
        url_template = codes "b";
        failures = 0;
        last_failure = none;
        is_blacklisted = false;
      }
      ∷ [];
  current_index = 1;
}

get_current-IsOpen_example :
    (e : HttpEndpoint) × ((get_elem?
          (get_current 1000 20 sample_pool).1.endpoints
          (get_current 1000 20 sample_pool).0
        ≡ some e)
      × (e.is_blacklisted ≡ false))
get_current-IsOpen_example = get_current-IsOpen 1000 20 sample_pool (omega arith)
