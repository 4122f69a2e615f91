-- ===== src/PublicKeys/OrphanRetry.antt =====
-- `maybeRunOrphanRetry` of src/modules/public-key-accounts/public-key-accounts.service.ts. The events that
-- the query answers, one of each key that no account is known for, are an argument, and so are the
-- accounts that the lookup answers for each key. The statements of the database succeed.
use fast_auth_indexer_api.Prelude.{
  ℕ, ◌+◌, ◌*◌, ◌≡◌, ◌⊎◌, Bool, true, false, ◌||◌, Option, none, some, List, [], ◌∷◌, ◌++◌, ltb,
  if◌then◌else◌, length, Text, eq_text, add,
}
use fast_auth_indexer_api.Checkpoints.{Checkpoints, get, set, fastauth_orphan_retry_last_run_at}
use fast_auth_indexer_api.ContractState.{Dates, last_run_ms}
use fast_auth_indexer_api.Tables.{contains, insert_rows}
use fast_auth_indexer_api.PublicKeys.{PubkeyMeta}
use fast_auth_indexer_api.PublicKeys.Links.{Pair, pairs_of}
use fast_auth_indexer_api.PublicKeys.Rows.{
  LinkTable, AccountTable, AccountRow, new_link_row, classify_account_type,
}
use fast_auth_indexer_api.PublicKeys.Persisting.{has_pair}

abbrev orphan_retry_min_interval_ms : ℕ
orphan_retry_min_interval_ms = 20 * 60 * 1000

pub record OrphanRep : Type 0 where
  pub public_key : Text
  pub meta : PubkeyMeta

pub record RetryStats : Type 0 where
  pub attempted : ℕ
  pub resolved : ℕ

pub record Store : Type 0 where
  pub links : LinkTable
  pub accounts : AccountTable
  pub checkpoints : Checkpoints

-- A last run that is not a time never throttles.
unfoldable pub is_recent : Option ℕ → ℕ → Bool
is_recent none now = false
is_recent (some last) now = ltb now (last + orphan_retry_min_interval_ms)

-- `resolvedRows`
unfoldable pub resolved_rows : (Text → List Text) → List OrphanRep → List Pair
unfolding pairs_of
resolved_rows accounts_of [] = []
resolved_rows accounts_of (rep ∷ reps) =
    pairs_of rep.public_key rep.meta (accounts_of rep.public_key) ++ resolved_rows accounts_of reps

unfoldable pub link_rows : ℕ → List Pair → LinkTable
unfolding new_link_row
link_rows insert_ts [] = []
link_rows insert_ts (p ∷ pairs) = new_link_row insert_ts p ∷ link_rows insert_ts pairs

unfoldable pub orphan_account_row : ℕ → Pair → AccountRow
unfolding classify_account_type
orphan_account_row insert_ts sample = record {
  account_type = classify_account_type sample.account_id;
  first_seen_at = sample.meta.block_timestamp;
  last_seen_at = sample.meta.block_timestamp;
  public_key_count = 1;
  first_source_event_id = sample.meta.event_id;
  last_source_event_id = sample.meta.event_id;
  created_at = insert_ts;
  updated_at = insert_ts;
}

-- A row for each account that is not in the table, from the first pair with it.
unfoldable pub orphan_account_rows : ℕ → List Pair → List (Text × AccountRow)
unfolding orphan_account_row
orphan_account_rows insert_ts [] = []
orphan_account_rows insert_ts (p ∷ pairs) =
    (p.account_id, orphan_account_row insert_ts p) ∷ orphan_account_rows insert_ts pairs

unfoldable pub resolved_keys : List Pair → List Text → List Text
unfolding add
resolved_keys [] keys = keys
resolved_keys (p ∷ pairs) keys = resolved_keys pairs (add p.public_key keys)

-- The inserts of a retry and the time of it. Of the rows of an account only the first is inserted.
unfoldable pub retry_orphans : Dates → ℕ → ℕ → List Pair → Store → Store
unfolding link_rows orphan_account_rows insert_rows set
retry_orphans dates now insert_ts pairs s = record {
  links = insert_rows (link_rows insert_ts pairs) s.links;
  accounts = insert_rows (orphan_account_rows insert_ts pairs) s.accounts;
  checkpoints = set fastauth_orphan_retry_last_run_at (dates.to_iso_string now) s.checkpoints;
}

unfoldable pub maybe_run_orphan_retry :
    Dates → (Text → List Text) → ℕ → ℕ → List OrphanRep → Store → RetryStats × Store
unfolding is_recent last_run_ms retry_orphans resolved_rows resolved_keys
maybe_run_orphan_retry dates accounts_of now insert_ts reps s =
    let pairs = resolved_rows accounts_of reps in
    if is_recent (last_run_ms dates (get fastauth_orphan_retry_last_run_at s.checkpoints)) now
    then (record { attempted = 0; resolved = 0 }, s)
    else (
      record { attempted = length reps; resolved = length (resolved_keys pairs []) },
      retry_orphans dates now insert_ts pairs s,
    )

abbrev has_account : List Pair → Text → Bool
has_account [] id = false
has_account (p ∷ pairs) id = eq_text p.account_id id || has_account pairs id

-- What a retry that is due leaves: the links and the accounts of all resolved pairs beside those that were
-- there, and its time.
unfoldable pub IsHealed : Dates → ℕ → List Pair → Store → Store → Type 0
IsHealed dates now pairs s after =
    ((key : Text) → contains after.links key ≡ (has_pair pairs key || contains s.links key))
    × (((id : Text) → contains after.accounts id ≡ (has_account pairs id || contains s.accounts id))
        × (get fastauth_orphan_retry_last_run_at after.checkpoints
            ≡ some (dates.to_iso_string now)))

unfoldable pub RetryCases :
    Dates → (Text → List Text) → ℕ → List OrphanRep → Store → RetryStats × Store → Type 0
unfolding IsHealed
RetryCases dates accounts_of now reps s (stats, after) =
    let recent =
      is_recent (last_run_ms dates (get fastauth_orphan_retry_last_run_at s.checkpoints)) now in
    ((recent ≡ true) × ((stats.attempted ≡ 0) × (after ≡ s)))
    ⊎ ((recent ≡ false)
        × ((stats.attempted ≡ length reps)
            × IsHealed dates now (resolved_rows accounts_of reps) s after))
