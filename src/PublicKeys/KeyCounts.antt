-- ===== src/PublicKeys/KeyCounts.antt =====
-- The key counts of the accounts in persistLinksAndAccounts of public-key-accounts.service.ts.
use fast_auth_indexer_api.Prelude.{
  ℕ, ◌+◌, ◌≡◌, refl, sym, ap, ◌∙◌, inl, inr, true, false, Option, none, some, List, [], ◌∷◌, ◌++◌,
  arith, if◌then◌else◌, Bool-cases, Text, eq_text, eq_text_iff,
}
use fast_auth_indexer_api.Tables.{find, put, contains, contains-put}
use fast_auth_indexer_api.PublicKeys.Links.{
  Pair, Aggregate, Tally, is_new_link, count_pair, count_pairs, next_aggregate, nothing_counted,
}
use fast_auth_indexer_api.PublicKeys.Laws.{new_link_total, count_of, count_pairs-IsCounted}
use fast_auth_indexer_api.PublicKeys.Rows.{
  AccountTable, AccountRow, new_account_row, new_account_rows, update_account, update_accounts,
  persist_accounts,
}

abbrev Aggregates : Type 0
Aggregates = List (Text × Aggregate)

-- Each key has one row.
pub data IsKeyed {ℓ} {A : Type ℓ} : List (Text × A) → Type ℓ where
  keyed_nil : IsKeyed []
  keyed_cons :
      {k : Text} {v : A} {rows : List (Text × A)}
      → contains rows k ≡ false
      → IsKeyed rows
      → IsKeyed ((k, v) ∷ rows)

put-IsKeyed {ℓ} :
    {A : Type ℓ} (k : Text) (v : A) (rows : List (Text × A)) → IsKeyed rows → IsKeyed (put k v rows)
unfolding put contains
put-IsKeyed k v [] d = keyed_cons refl keyed_nil
put-IsKeyed k v ((j, w) ∷ rows) (keyed_cons new d) = elim (Bool-cases (eq_text j k)) [
  | inl same ↦ rw same (keyed_cons (ap (contains rows) (sym ((eq_text_iff j k).0 same)) ∙ new) d)
  | inr other ↦ rw other (
      keyed_cons (ground (arith, contains-put k j v rows, eq_text_iff k j, eq_text_iff j k))
        (put-IsKeyed k v rows d))
]

count_pairs-IsKeyed :
    (existing : List Text) (pairs : List Pair) (t : Tally)
    → IsKeyed t.aggregates
    → IsKeyed (count_pairs existing pairs t).aggregates
unfolding count_pairs count_pair
count_pairs-IsKeyed existing [] t d = d
count_pairs-IsKeyed existing (p ∷ pairs) t d =
    count_pairs-IsKeyed existing pairs (count_pair existing p t) (
      put-IsKeyed p.account_id
        (next_aggregate (is_new_link existing p) p.meta (find t.aggregates p.account_id))
        t.aggregates d)

abbrev pub key_total : AccountTable → ℕ
key_total [] = 0
key_total ((id, row) ∷ accounts) = row.public_key_count + key_total accounts

key_total-append : (xs ys : AccountTable) → key_total (xs ++ ys) ≡ key_total xs + key_total ys
key_total-append [] ys = omega arith
key_total-append ((id, row) ∷ xs) ys = omega (arith, key_total-append xs ys)

-- The new links of the accounts that are in the table, and of those that are not.
abbrev known : Aggregates → AccountTable → ℕ
known aggs [] = 0
known aggs ((id, row) ∷ accounts) = count_of (find aggs id) + known aggs accounts

unfoldable pub unknown : AccountTable → Aggregates → ℕ
unknown accounts [] = 0
unknown accounts ((id, agg) ∷ aggs) =
    (if contains accounts id then 0 else agg.new_link_count) + unknown accounts aggs

public_key_count-update_account :
    (now : ℕ) (agg : Option Aggregate) (row : AccountRow)
    → (update_account now agg row).public_key_count ≡ row.public_key_count + count_of agg
unfolding update_account
public_key_count-update_account now none row = omega arith
public_key_count-update_account now (some agg) row = refl

key_total-update_accounts :
    (now : ℕ) (aggs : Aggregates) (accounts : AccountTable)
    → key_total (update_accounts now aggs accounts) ≡ key_total accounts + known aggs accounts
unfolding update_accounts
key_total-update_accounts now aggs [] = refl
key_total-update_accounts now aggs ((id, row) ∷ accounts) = omega (
  arith,
  public_key_count-update_account now (find aggs id) row,
  key_total-update_accounts now aggs accounts,
)

key_total-new_account_rows :
    (now : ℕ) (accounts : AccountTable) (aggs : Aggregates)
    → key_total (new_account_rows now accounts aggs) ≡ unknown accounts aggs
unfolding new_account_rows unknown new_account_row
key_total-new_account_rows now accounts [] = refl
key_total-new_account_rows now accounts ((id, agg) ∷ aggs) =
    ground (arith, key_total-new_account_rows now accounts aggs)

find-absent :
    (aggs : Aggregates) (id : Text) → contains aggs id ≡ false → count_of (find aggs id) ≡ 0
unfolding find contains
find-absent [] id n = refl
find-absent ((j, a) ∷ aggs) id n = ground (arith, find-absent aggs id)

contains-eq :
    (accounts : AccountTable) (j id : Text)
    → eq_text j id ≡ true
    → contains accounts j ≡ contains accounts id
contains-eq accounts j id e = ap (contains accounts) ((eq_text_iff j id).0 e)

unknown-cons :
    (id : Text) (row : AccountRow) (accounts : AccountTable) (aggs : Aggregates)
    → IsKeyed aggs
    → contains accounts id ≡ false
    → unknown ((id, row) ∷ accounts) aggs + count_of (find aggs id) ≡ unknown accounts aggs
unfolding unknown contains find
unknown-cons id row accounts [] d n = refl
unknown-cons id row accounts ((j, a) ∷ aggs) (keyed_cons new d) n = ground (
  arith,
  unknown-cons id row accounts aggs d n,
  eq_text_iff j id,
  eq_text_iff id j,
  contains-eq accounts j id,
  find-absent aggs id,
  ap (contains aggs),
)

unknown-nil : (aggs : Aggregates) → unknown [] aggs ≡ new_link_total aggs
unfolding unknown contains
unknown-nil [] = refl
unknown-nil ((id, agg) ∷ aggs) = omega (arith, unknown-nil aggs)

known-unknown :
    (aggs : Aggregates) (accounts : AccountTable)
    → IsKeyed aggs
    → IsKeyed accounts
    → known aggs accounts + unknown accounts aggs ≡ new_link_total aggs
known-unknown aggs [] d keyed_nil = omega (arith, unknown-nil aggs)
known-unknown aggs ((id, row) ∷ accounts) d (keyed_cons new rest) =
    omega (arith, known-unknown aggs accounts d rest, unknown-cons id row accounts aggs d new)

-- When each account has one row, the key counts of all accounts grow together by the number of new links.
pub key_total-persist_accounts :
    (now : ℕ) (existing : List Text) (pairs : List Pair) (accounts : AccountTable)
    → IsKeyed accounts
    → let t = count_pairs existing pairs nothing_counted in
      key_total (persist_accounts now t accounts) ≡ key_total accounts + t.new_links
unfolding persist_accounts
key_total-persist_accounts now existing pairs accounts k =
    let t = count_pairs existing pairs nothing_counted in
    key_total-append (update_accounts now t.aggregates accounts)
      (new_account_rows now accounts t.aggregates)
    ∙ omega (
      arith,
      key_total-update_accounts now t.aggregates accounts,
      key_total-new_account_rows now accounts t.aggregates,
      known-unknown t.aggregates accounts
          (count_pairs-IsKeyed existing pairs nothing_counted keyed_nil) k,
      (count_pairs-IsCounted existing pairs).0,
    )
