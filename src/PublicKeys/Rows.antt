-- ===== src/PublicKeys/Rows.antt =====
-- The statements of `persistLinksAndAccounts` of
-- src/modules/public-key-accounts/public-key-accounts.service.ts, over the tables of the links and of the
-- accounts, and `classifyAccountType` of pubkey-helpers.ts. The set of the existing links is that of the
-- query. Where two pairs of a batch have the same key, the database takes one of them for its update.
use fast_auth_indexer_api.Prelude.{
  ℕ, ◌+◌, Bool, true, ◌&&◌, ◌||◌, Option, none, some, List, [], ◌∷◌, ◌++◌, leb, ◌==◌, if◌then◌else◌,
  length, Text, eq_text, add,
}
use fast_auth_indexer_api.Tables.{find, contains, insert_rows}
use fast_auth_indexer_api.PublicKeys.{EventRow}
use fast_auth_indexer_api.PublicKeys.Links.{
  LookupRow, Pair, candidate_pairs, link_key, Aggregate, Tally, is_new_link, count_pairs,
  nothing_counted, owners_from, event_ids_from, stamp_pairs,
}

pub data AccountType : Type 0 where
  implicit named : AccountType

abbrev pub is_lower_hex : ℕ → Bool
is_lower_hex c = (leb 48 c && leb c 57) || (leb 97 c && leb c 102)

abbrev pub all_lower_hex : Text → Bool
all_lower_hex [] = true
all_lower_hex (c ∷ cs) = is_lower_hex c && all_lower_hex cs

-- `/^[0-9a-f]{64}$/`
unfoldable pub classify_account_type : Text → AccountType
classify_account_type account_id =
    if (length account_id == 64) && all_lower_hex account_id then implicit else named

pub record LinkRow : Type 0 where
  pub key_path : Option Text
  pub predecessor_id : Text
  pub domain_id : Option ℕ
  pub first_seen_at : ℕ
  pub last_seen_at : ℕ
  pub last_source_event_id : ℕ
  pub created_at : ℕ
  pub updated_at : ℕ

pub record AccountRow : Type 0 where
  pub account_type : AccountType
  pub first_seen_at : ℕ
  pub last_seen_at : ℕ
  pub public_key_count : ℕ
  pub first_source_event_id : ℕ
  pub last_source_event_id : ℕ
  pub created_at : ℕ
  pub updated_at : ℕ

abbrev pub LinkTable : Type 0
LinkTable = List (Text × LinkRow)

abbrev pub AccountTable : Type 0
AccountTable = List (Text × AccountRow)

unfoldable pub new_link_row : ℕ → Pair → Text × LinkRow
unfolding link_key
new_link_row now p = (
  link_key p,
  record {
    key_path = p.meta.key_path;
    predecessor_id = p.meta.predecessor_id;
    domain_id = p.meta.domain_id;
    first_seen_at = p.meta.block_timestamp;
    last_seen_at = p.meta.block_timestamp;
    last_source_event_id = p.meta.event_id;
    created_at = now;
    updated_at = now;
  },
)

-- `newLinkRows`
unfoldable pub new_link_rows : ℕ → List Text → List Pair → LinkTable
unfolding new_link_row is_new_link
new_link_rows now existing [] = []
new_link_rows now existing (p ∷ pairs) =
    let later = new_link_rows now existing pairs in
    if is_new_link existing p then new_link_row now p ∷ later else later

-- The pair of a row, if it is touched.
unfoldable pub pair_at : List Pair → Text → Option Pair
unfolding link_key
pair_at [] key = none
pair_at (p ∷ pairs) key =
    let later = pair_at pairs key in if eq_text (link_key p) key then some p else later

unfoldable pub touch_link : ℕ → Option Pair → LinkRow → LinkRow
touch_link now none row = row
touch_link now (some p) row = record {
  key_path = row.key_path;
  predecessor_id = row.predecessor_id;
  domain_id = row.domain_id;
  first_seen_at = row.first_seen_at;
  last_seen_at = p.meta.block_timestamp;
  last_source_event_id = p.meta.event_id;
  created_at = row.created_at;
  updated_at = now;
}

unfoldable pub touch_links : ℕ → List Pair → LinkTable → LinkTable
unfolding touch_link pair_at
touch_links now pairs [] = []
touch_links now pairs ((key, row) ∷ links) =
    (key, touch_link now (pair_at pairs key) row) ∷ touch_links now pairs links

unfoldable pub new_account_row : ℕ → Text → Aggregate → AccountRow
unfolding classify_account_type
new_account_row now account_id agg = record {
  account_type = classify_account_type account_id;
  first_seen_at = agg.first_seen_at;
  last_seen_at = agg.last_seen_at;
  public_key_count = agg.new_link_count;
  first_source_event_id = agg.last_source_event_id;
  last_source_event_id = agg.last_source_event_id;
  created_at = now;
  updated_at = now;
}

-- `newAccountRows`, against the accounts in the table.
unfoldable pub new_account_rows : ℕ → AccountTable → List (Text × Aggregate) → AccountTable
unfolding new_account_row contains
new_account_rows now accounts [] = []
new_account_rows now accounts ((account_id, agg) ∷ aggregates) =
    let later = new_account_rows now accounts aggregates in
    if contains accounts account_id
    then later
    else (account_id, new_account_row now account_id agg) ∷ later

unfoldable pub update_account : ℕ → Option Aggregate → AccountRow → AccountRow
update_account now none row = row
update_account now (some agg) row = record {
  account_type = row.account_type;
  first_seen_at = row.first_seen_at;
  last_seen_at = agg.last_seen_at;
  public_key_count = row.public_key_count + agg.new_link_count;
  first_source_event_id = row.first_source_event_id;
  last_source_event_id = agg.last_source_event_id;
  created_at = row.created_at;
  updated_at = now;
}

-- `existingAccountUpdates` and their statement.
unfoldable pub update_accounts : ℕ → List (Text × Aggregate) → AccountTable → AccountTable
unfolding update_account find
update_accounts now aggregates [] = []
update_accounts now aggregates ((account_id, row) ∷ accounts) =
    (account_id, update_account now (find aggregates account_id) row)
    ∷ update_accounts now aggregates accounts

pub record PersistStats : Type 0 where
  pub linked_rows : ℕ
  pub new_links : ℕ
  pub accounts_created : ℕ
  pub touched_accounts : ℕ

unfoldable pub candidate_account_ids : List Pair → List Text → List Text
unfolding add
candidate_account_ids [] ids = ids
candidate_account_ids (p ∷ pairs) ids = candidate_account_ids pairs (add p.account_id ids)

-- The links after the run, with the pairs of the batch.
unfoldable pub persist_links : ℕ → List Text → List Pair → LinkTable → LinkTable
unfolding new_link_rows insert_rows touch_links
persist_links now existing pairs links =
    touch_links now pairs (insert_rows (new_link_rows now existing pairs) links)

-- The accounts after the run: the new ones are the rows behind the existing ones, which alone are updated.
unfoldable pub persist_accounts : ℕ → Tally → AccountTable → AccountTable
unfolding new_account_rows update_accounts
persist_accounts now t accounts =
    update_accounts now t.aggregates accounts ++ new_account_rows now accounts t.aggregates

-- What the statements leave: the two tables, and the values of the update that stamps the sign events
-- with their accounts.
pub record Persisted : Type 0 where
  pub links : LinkTable
  pub accounts : AccountTable
  pub stamps : List (ℕ × Text)

unfoldable pub persist_links_and_accounts :
    ℕ
    → List Text
    → List EventRow
    → List LookupRow
    → LinkTable
    → AccountTable
    → PersistStats × Persisted
unfolding candidate_pairs count_pairs persist_links persist_accounts candidate_account_ids
    owners_from event_ids_from stamp_pairs
persist_links_and_accounts now existing events rows links accounts =
    let pairs = candidate_pairs rows in
    let t = count_pairs existing pairs nothing_counted in
    (
      record {
        linked_rows = t.linked_rows;
        new_links = t.new_links;
        accounts_created = length (new_account_rows now accounts t.aggregates);
        touched_accounts = length (candidate_account_ids pairs []);
      },
      record {
        links = persist_links now existing pairs links;
        accounts = persist_accounts now t accounts;
        stamps = stamp_pairs (event_ids_from (owners_from pairs []) events []);
      },
    )
