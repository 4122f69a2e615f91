-- ===== src/PublicKeys/Tests.antt =====
-- Tests of public-key-accounts.service.ts and pubkey-lookup.service.ts: two events of one key, the second
-- without its stored key, and the writes and the lookup of a key with two accounts.
use fast_auth_indexer_api.Prelude.{
  ℕ, ◌+◌, ◌≡◌, refl, ◌&&◌, ◌||◌, Option, none, some, List, [], ◌∷◌, map, length, Text, codes,
  IsDistinct, to_lower_case, trim, includes, has, number, print,
}
use fast_auth_indexer_api.Tables.{find, contains}
use fast_auth_indexer_api.PublicKeys.{EventRow, PubkeyMeta, Derived, build_latest_event_by_key}
use fast_auth_indexer_api.PublicKeys.Links.{
  Pair, candidate_pairs, count_pairs, nothing_counted, link_key, is_new_link,
}
use fast_auth_indexer_api.PublicKeys.Laws.{last_event, build_latest_event_by_key-IsLast}
use fast_auth_indexer_api.PublicKeys.Rows.{
  named, LinkTable, AccountRow, AccountTable, new_link_rows, persist_accounts, persist_links,
  persist_links_and_accounts, new_account_rows, new_link_row,
}
use fast_auth_indexer_api.PublicKeys.Persisting.{has_pair, contains-persist_links}
use fast_auth_indexer_api.PublicKeys.KeyCounts.{
  key_total, key_total-persist_accounts, keyed_cons, keyed_nil,
}
use fast_auth_indexer_api.Json.{Json, string, object, array, Fields, end, field}
use fast_auth_indexer_api.Blocks.Probing.{AllNormal}
use fast_auth_indexer_api.Prelude.{IsSubset}
use fast_auth_indexer_api.PublicKeys.Lookup.{
  is_likely_near_account_id, extract_accounts_from_payload, fetch_accounts_for_public_key,
}
use fast_auth_indexer_api.PublicKeys.Mentioned.{
  normal_form, mentioned, fetch_accounts_for_public_key-IsExact,
}
use fast_auth_indexer_api.Checkpoints.{empty, get}
use fast_auth_indexer_api.ContractState.{Dates}
use fast_auth_indexer_api.PublicKeys.OrphanRetry.{Store, OrphanRep, maybe_run_orphan_retry}

abbrev event_row : ℕ → Option Text → EventRow
event_row id key = record {
  id = id;
  user_derived_public_key = key;
  user_key_path = some (codes "path");
  user_domain_id = some 1;
  fast_auth_contract_id = codes "fast-auth.near";
  block_timestamp = 1000 + id;
}

abbrev two_events : List EventRow
two_events = event_row 7 (some (codes " k1")) ∷ event_row 8 none ∷ []

abbrev derived_keys : Derived
derived_keys = (8, codes "k1") ∷ []

build_latest_event_by_key-IsLast_example :
    find (build_latest_event_by_key two_events derived_keys) (codes "k1")
    ≡ last_event derived_keys two_events (codes "k1")
build_latest_event_by_key-IsLast_example =
    build_latest_event_by_key-IsLast two_events derived_keys (codes "k1")

abbrev sample_meta : PubkeyMeta
sample_meta = record {
  event_id = 8;
  block_timestamp = 1008;
  key_path = none;
  predecessor_id = codes "fast-auth.near";
  domain_id = none;
}

abbrev sample_pairs : List Pair
sample_pairs = candidate_pairs (
    record {
      public_key = codes "k1";
      meta = sample_meta;
      accounts = codes "alice.near" ∷ codes "bob.near" ∷ [];
    }
    ∷ [])

abbrev sample_account : AccountRow
sample_account = record {
  account_type = named;
  first_seen_at = 900;
  last_seen_at = 950;
  public_key_count = 2;
  first_source_event_id = 3;
  last_source_event_id = 5;
  created_at = 900;
  updated_at = 950;
}

abbrev sample_accounts : AccountTable
sample_accounts = (codes "bob.near", sample_account) ∷ []

abbrev sample_links : LinkTable
sample_links =
    new_link_rows 900 []
      (record { public_key = codes "k1"; account_id = codes "bob.near"; meta = sample_meta } ∷ [])

abbrev linked : List Text
linked = codes "k1::bob.near" ∷ []

key_total-persist_accounts_example :
    let t = count_pairs linked sample_pairs nothing_counted in
    key_total (persist_accounts 1100 t sample_accounts) ≡ key_total sample_accounts + t.new_links
unfolding contains
key_total-persist_accounts_example =
    key_total-persist_accounts 1100 linked sample_pairs sample_accounts (keyed_cons refl keyed_nil)

contains-persist_links_example :
    contains (persist_links 1100 linked sample_pairs sample_links) (codes "k1::alice.near") ≡ (
      has_pair sample_pairs (codes "k1::alice.near")
      || contains sample_links (codes "k1::alice.near"))
unfolding contains has new_link_rows new_link_row is_new_link link_key
contains-persist_links_example =
    contains-persist_links 1100 linked sample_pairs sample_links (λ key h. h)
      (codes "k1::alice.near")

-- One account is new, and one key of the other had its link.
accounts_persisted :
    (persist_links_and_accounts 1100 linked two_events
      (record {
        public_key = codes "k1";
        meta = sample_meta;
        accounts = codes "alice.near" ∷ codes "bob.near" ∷ [];
      }
        ∷ [])
      sample_links
      sample_accounts).0
    ≡ record { linked_rows = 2; new_links = 1; accounts_created = 1; touched_accounts = 2 }
unfolding persist_links_and_accounts new_account_rows
accounts_persisted = refl

abbrev payload : Json
payload = object (
    field (codes "accounts")
      (array (
        field (codes "0") (object (field (codes "id") (string (codes " Alice.near ")) end))
          (field (codes "1") (object (field (codes "id") (string (codes "alice.near")) end)) end)))
      end)

fetch_accounts_for_public_key-IsExact_example :
    let ids = fetch_accounts_for_public_key (some payload) in
    IsDistinct ids
    × (AllNormal ids
        × (IsSubset ids (map normal_form (mentioned payload))
            × ((id : Text)
                → has ids id ≡ (
                    has (map normal_form (extract_accounts_from_payload payload)) id
                    && is_likely_near_account_id id))))
fetch_accounts_for_public_key-IsExact_example = fetch_accounts_for_public_key-IsExact payload

accounts_fetched : fetch_accounts_for_public_key (some payload) ≡ codes "alice.near" ∷ []
unfolding fetch_accounts_for_public_key fast_auth_indexer_api.Json.member
    fast_auth_indexer_api.Json.items_of fast_auth_indexer_api.Json.as_string to_lower_case trim
    includes
accounts_fetched = refl

-- The clock's texts are its decimal numbers.
abbrev print_dates : Dates
print_dates = record { to_iso_string = print; parse = number }

abbrev one_store : Store
one_store = record { links = sample_links; accounts = sample_accounts; checkpoints = empty }

abbrev two_accounts : Text → List Text
two_accounts key = codes "alice.near" ∷ codes "bob.near" ∷ []

abbrev one_rep : List OrphanRep
one_rep = record { public_key = codes "k2"; meta = sample_meta } ∷ []

-- The key has two links now, and one of its accounts is new.
orphan_retried :
    length
      (maybe_run_orphan_retry print_dates two_accounts 2_000_000 2_000_005 one_rep
        one_store).1.links
    ≡ 3
unfolding maybe_run_orphan_retry new_link_rows contains get is_new_link has
orphan_retried = refl
