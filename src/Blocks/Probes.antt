-- ===== src/Blocks/Probes.antt =====
-- `probePubKeys` and `probeAccounts` of src/modules/near-ingest/near-ingest.service.ts: which candidates of
-- a block the database knows, answered from the cache of the cycle where it can be.
use fast_auth_indexer_api.Prelude.{
  Bool, false, Option, none, some, List, [], ◌∷◌, ltb, if◌then◌else◌, length, Text, has,
}
use fast_auth_indexer_api.Tables.{find, contains, put}

unfoldable pub unchecked : List (Text × Bool) → List Text → List Text
unfolding contains
unchecked cache [] = []
unchecked cache (c ∷ candidates) =
    let later = unchecked cache candidates in if contains cache c then later else c ∷ later

unfoldable pub mark : List Text → List Text → List (Text × Bool) → List (Text × Bool)
unfolding put
mark found [] cache = cache
mark found (c ∷ candidates) cache = mark found candidates (put c (has found c) cache)

unfoldable pub is_known : List (Text × Bool) → Text → Bool
unfolding find
is_known cache c = elim (find cache c) [ none ↦ false | some checked ↦ checked ]

unfoldable pub known_of : List (Text × Bool) → List Text → List Text
unfolding is_known
known_of cache [] = []
known_of cache (c ∷ candidates) =
    let later = known_of cache candidates in if is_known cache c then c ∷ later else later

-- What the query answers, `none` where it throws: the candidates count as unknown then.
unfoldable pub found_or_none : Option (List Text) → List Text
found_or_none none = []
found_or_none (some found) = found

-- The cache after a probe, where `query` answers the candidates that are asked for.
unfoldable pub probed :
    (List Text → Option (List Text)) → List Text → List (Text × Bool) → List (Text × Bool)
unfolding unchecked mark found_or_none
probed query candidates cache =
    let unknown = unchecked cache candidates in mark (found_or_none (query unknown)) unknown cache

-- Whether the database is asked.
unfoldable pub asks : List Text → List (Text × Bool) → Bool
unfolding unchecked
asks candidates cache = ltb 0 (length (unchecked cache candidates))
