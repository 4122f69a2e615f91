-- ===== src/PublicKeys/Links.antt =====
-- `persistLinksAndAccounts` of src/modules/public-key-accounts/public-key-accounts.service.ts: the rows and
-- the values of its statements, from the links and the accounts that the tables have.
use fast_auth_indexer_api.Prelude.{
  ℕ, ◌+◌, Bool, true, false, not, Option, none, some, List, [], ◌∷◌, ◌++◌, ltb, if◌then◌else◌, Text,
  codes, has, ◌>>=◌,
}
use fast_auth_indexer_api.NearBlock.{non_empty}
use fast_auth_indexer_api.Tables.{find, put}
use fast_auth_indexer_api.PublicKeys.{EventRow, PubkeyMeta}

pub record LookupRow : Type 0 where
  pub public_key : Text
  pub meta : PubkeyMeta
  pub accounts : List Text

pub record Pair : Type 0 where
  pub public_key : Text
  pub account_id : Text
  pub meta : PubkeyMeta

unfoldable pub pairs_of : Text → PubkeyMeta → List Text → List Pair
pairs_of public_key meta [] = []
pairs_of public_key meta (account_id ∷ accounts) =
    (record { public_key = public_key; account_id = account_id; meta = meta })
    ∷ pairs_of public_key meta accounts

unfoldable pub candidate_pairs : List LookupRow → List Pair
unfolding pairs_of
candidate_pairs [] = []
candidate_pairs (row ∷ rows) = pairs_of row.public_key row.meta row.accounts ++ candidate_pairs rows

-- `${publicKey}::${accountId}`
unfoldable pub link_key : Pair → Text
link_key p = p.public_key ++ codes "::" ++ p.account_id

pub record Aggregate : Type 0 where
  pub first_seen_at : ℕ
  pub last_seen_at : ℕ
  pub last_source_event_id : ℕ
  pub new_link_count : ℕ

abbrev pub one_if : Bool → ℕ
one_if true = 1
one_if false = 0

unfoldable pub first_aggregate : Bool → PubkeyMeta → Aggregate
first_aggregate is_new meta = record {
  first_seen_at = meta.block_timestamp;
  last_seen_at = meta.block_timestamp;
  last_source_event_id = meta.event_id;
  new_link_count = one_if is_new;
}

unfoldable pub grow : Bool → PubkeyMeta → Aggregate → Aggregate
grow is_new meta agg = record {
  first_seen_at =
      if ltb meta.block_timestamp agg.first_seen_at
      then meta.block_timestamp
      else agg.first_seen_at;
  last_seen_at =
      if ltb agg.last_seen_at meta.block_timestamp then meta.block_timestamp else agg.last_seen_at;
  last_source_event_id =
      if ltb agg.last_source_event_id meta.event_id
      then meta.event_id
      else agg.last_source_event_id;
  new_link_count = agg.new_link_count + one_if is_new;
}

unfoldable pub next_aggregate : Bool → PubkeyMeta → Option Aggregate → Aggregate
unfolding first_aggregate grow
next_aggregate is_new meta none = first_aggregate is_new meta
next_aggregate is_new meta (some agg) = grow is_new meta agg

-- `accountAggregates`, `linkedRows` and `newLinks`
pub record Tally : Type 0 where
  pub aggregates : List (Text × Aggregate)
  pub linked_rows : ℕ
  pub new_links : ℕ

module _ (existing_link_set : List Text) where
  unfoldable pub is_new_link : Pair → Bool
  unfolding link_key
  is_new_link p = not (has existing_link_set (link_key p))

  -- One round of the loop over the pairs.
  unfoldable pub count_pair : Pair → Tally → Tally
  unfolding is_new_link next_aggregate put find
  count_pair p t = record {
    aggregates =
        put p.account_id (next_aggregate (is_new_link p) p.meta (find t.aggregates p.account_id))
          t.aggregates;
    linked_rows = t.linked_rows + 1;
    new_links = t.new_links + one_if (is_new_link p);
  }

  unfoldable pub count_pairs : List Pair → Tally → Tally
  unfolding count_pair
  count_pairs [] t = t
  count_pairs (p ∷ pairs) t = count_pairs pairs (count_pair p t)

abbrev pub nothing_counted : Tally
nothing_counted = record { aggregates = []; linked_rows = 0; new_links = 0 }

-- `ownerByPublicKey`: the account that was seen last, the first of those seen at the same time.
pub record Owner : Type 0 where
  pub account_id : Text
  pub last_seen_at : ℕ

unfoldable pub replaces : PubkeyMeta → Option Owner → Bool
replaces meta none = true
replaces meta (some current) = ltb current.last_seen_at meta.block_timestamp

unfoldable pub owners_from : List Pair → List (Text × Owner) → List (Text × Owner)
unfolding replaces find put
owners_from [] owners = owners
owners_from (p ∷ pairs) owners = owners_from pairs (
    if replaces p.meta (find owners p.public_key)
    then put p.public_key
        (record { account_id = p.account_id; last_seen_at = p.meta.block_timestamp }) owners
    else owners)

-- An event of the batch whose stored key has an owner, with the account that it is stamped with.
unfoldable pub stamp_of : List (Text × Owner) → EventRow → Option (ℕ × Text)
stamp_of owners e = do
  key ← non_empty e.user_derived_public_key
  owner ← find owners key
  some (e.id, owner.account_id)

-- `eventIdsByAccount`, in the order of the accounts' first events.
unfoldable pub event_ids_from :
    List (Text × Owner) → List EventRow → List (Text × List ℕ) → List (Text × List ℕ)
unfolding stamp_of find put
event_ids_from owners [] ids = ids
event_ids_from owners (e ∷ events) ids = elim (stamp_of owners e) [
  | none ↦ event_ids_from owners events ids
  | some (id, account_id) ↦
      event_ids_from owners events (put account_id (listed (find ids account_id) ++ (id ∷ [])) ids)
]
  where
    listed : Option (List ℕ) → List ℕ
    listed none = []
    listed (some list) = list

unfoldable pub stamps_of : Text → List ℕ → List (ℕ × Text)
stamps_of account_id [] = []
stamps_of account_id (id ∷ ids) = (id, account_id) ∷ stamps_of account_id ids

unfoldable pub stamp_pairs : List (Text × List ℕ) → List (ℕ × Text)
unfolding stamps_of
stamp_pairs [] = []
stamp_pairs ((account_id, ids) ∷ event_ids) = stamps_of account_id ids ++ stamp_pairs event_ids
