-- ===== src/PublicKeys/Persisting.antt =====
-- What persistLinksAndAccounts of public-key-accounts.service.ts leaves in the two tables.
use fast_auth_indexer_api.Prelude.{
  ℕ, ◌≡◌, refl, ap, ◌∙◌, Bool, true, false, not, ◌&&◌, ◌||◌, List, [], ◌∷◌, arith, Text, eq_text,
  eq_text_iff, has,
}
use fast_auth_indexer_api.Tables.{contains, insert_rows, contains-insert_rows}
use fast_auth_indexer_api.PublicKeys.Links.{Pair, link_key, is_new_link}
use fast_auth_indexer_api.PublicKeys.Rows.{
  LinkTable, new_link_row, new_link_rows, touch_links, persist_links,
}

abbrev pub has_pair : List Pair → Text → Bool
has_pair [] key = false
has_pair (p ∷ pairs) key = eq_text (link_key p) key || has_pair pairs key

contains-touch_links :
    (now : ℕ) (pairs : List Pair) (links : LinkTable) (key : Text)
    → contains (touch_links now pairs links) key ≡ contains links key
unfolding touch_links contains
contains-touch_links now pairs [] key = refl
contains-touch_links now pairs ((j, row) ∷ links) key =
    ap (λ b. eq_text j key || b) (contains-touch_links now pairs links key)

contains-new_link_rows :
    (now : ℕ) (existing : List Text) (pairs : List Pair) (key : Text)
    → contains (new_link_rows now existing pairs) key
      ≡ (has_pair pairs key && not (has existing key))
unfolding new_link_rows contains is_new_link new_link_row
contains-new_link_rows now existing [] key = refl
contains-new_link_rows now existing (p ∷ pairs) key =
    ground (arith, contains-new_link_rows now existing pairs key, eq_text_iff (link_key p) key)

-- When the links that the query found are in the table, the table has afterwards the links that it had and
-- those of the candidate pairs, and no others.
pub contains-persist_links :
    (now : ℕ) (existing : List Text) (pairs : List Pair) (links : LinkTable)
    → ((key : Text) → has existing key ≡ true → contains links key ≡ true)
    → (key : Text)
    → contains (persist_links now existing pairs links) key
      ≡ (has_pair pairs key || contains links key)
unfolding persist_links
contains-persist_links now existing pairs links found key =
    let new = new_link_rows now existing pairs in
    contains-touch_links now pairs (insert_rows new links) key
    ∙ contains-insert_rows new links key
    ∙ ground (arith, contains-new_link_rows now existing pairs key, found key)
