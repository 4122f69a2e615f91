-- ===== src/PublicKeys/Lookup.antt =====
-- src/modules/public-key-accounts/pubkey-lookup.service.ts and pubkey-helpers.ts: the accounts in an answer of
-- FastNEAR. The answer of the pool is an argument, `none` where the call throws.
use fast_auth_indexer_api.Prelude.{set_of}
use fast_auth_indexer_api.Prelude.{
  ℕ, Bool, true, false, ◌&&◌, ◌||◌, Option, none, some, List, [], ◌∷◌, map, leb, ◌==◌,
  if◌then◌else◌, length, Text, codes, to_lower_case, trim, includes,
}
use fast_auth_indexer_api.Json.{Json, null, string, array, object, items_of, member, as_string}
use fast_auth_indexer_api.Conversion.{ends_with}
use fast_auth_indexer_api.NearBlock.{non_empty}
use fast_auth_indexer_api.PublicKeys.Rows.{all_lower_hex}

-- `[a-z0-9._-]`
abbrev is_account_code : ℕ → Bool
is_account_code c =
    (leb b'a' c && leb c b'z')
    || ((leb b'0' c && leb c b'9') || (c == b'.' || (c == b'_' || c == b'-')))

abbrev all_account_codes : Text → Bool
all_account_codes [] = true
all_account_codes (c ∷ s) = is_account_code c && all_account_codes s

-- `/^[a-z0-9._-]+$/`
abbrev is_account_text : Text → Bool
is_account_text [] = false
is_account_text (c ∷ s) = all_account_codes (c ∷ s)

unfoldable pub is_likely_normalized : Text → Bool
unfolding ends_with
is_likely_normalized normalized =
    is_account_text normalized
    && ((includes normalized (codes ".") || ends_with normalized (codes "near"))
        || ((length normalized == 64) && all_lower_hex normalized))

unfoldable pub is_likely_near_account_id : Text → Bool
unfolding is_likely_normalized
is_likely_near_account_id value = is_likely_normalized (to_lower_case (trim value))

unfoldable pub strings_of : List Json → List Text
strings_of [] = []
strings_of (string s ∷ items) = s ∷ strings_of items
strings_of (_ ∷ items) = strings_of items

-- `a ?? b` on members, which are absent or null where the next one is read.
unfoldable pub or_next : Option Json → Option Json → Option Json
or_next none next = next
or_next (some null) next = next
or_next (some value) next = some value

-- The account of an object, if it is a text that is not empty.
unfoldable pub row_account : Json → Option Text
unfolding or_next
row_account row = non_empty (
    as_string (
      or_next (member (codes "account_id") row)
        (or_next (member (codes "accountId") row) (member (codes "id") row))))

unfoldable pub from_objects : List Json → List Text
unfolding row_account
from_objects [] = []
from_objects (row ∷ items) = elim (row_account row) [
  | none ↦ from_objects items
  | some account_id ↦ account_id ∷ from_objects items
]

-- What one candidate gives: its texts, or else the accounts of its objects.
unfoldable pub candidate_accounts : Option Json → List Text
unfolding strings_of from_objects
candidate_accounts (some (array fields)) = first (strings_of (items_of fields))
  where
    first : List Text → List Text
    first [] = from_objects (items_of fields)
    first (s ∷ strings) = s ∷ strings
candidate_accounts _ = []

abbrev or_later : List Text → List Text → List Text
or_later [] later = later
or_later (id ∷ ids) later = id ∷ ids

unfoldable pub first_candidate : Json → List Text → List Text
unfolding candidate_accounts
first_candidate payload [] = []
first_candidate payload (name ∷ names) =
    or_later (candidate_accounts (member name payload)) (first_candidate payload names)

abbrev candidate_names : List Text
candidate_names =
    codes "account_ids"
    ∷ codes "accountIds"
    ∷ codes "accounts"
    ∷ codes "data"
    ∷ codes "result"
    ∷ codes "items"
    ∷ []

unfoldable pub extract_accounts_from_payload : Json → List Text
unfolding strings_of first_candidate
extract_accounts_from_payload (array fields) = strings_of (items_of fields)
extract_accounts_from_payload (object fields) = first_candidate (object fields) candidate_names
extract_accounts_from_payload _ = []

unfoldable pub normalized : Text → Text
normalized account_id = to_lower_case (trim account_id)

unfoldable pub likely_accounts : List Text → List Text
unfolding is_likely_near_account_id
likely_accounts [] = []
likely_accounts (id ∷ ids) =
    let later = likely_accounts ids in if is_likely_near_account_id id then id ∷ later else later

unfoldable pub fetch_accounts_for_public_key : Option Json → List Text
unfolding extract_accounts_from_payload likely_accounts set_of normalized
fetch_accounts_for_public_key none = []
fetch_accounts_for_public_key (some payload) =
    set_of (likely_accounts (map normalized (extract_accounts_from_payload payload))) []
