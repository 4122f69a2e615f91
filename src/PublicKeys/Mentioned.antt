-- ===== src/PublicKeys/Mentioned.antt =====
-- What the accounts of pubkey-lookup.service.ts come from: the texts that a payload mentions.
use fast_auth_indexer_api.Prelude.{
  ◌≡◌, refl, ap, ◌∙◌, ◌⊎◌, inl, inr, true, ◌&&◌, Option, none, some, List, [], ◌∷◌, ◌++◌, map,
  arith, Bool-cases, Option-cases, Text, codes, eq_text, eq_text_iff, eq_text_refl, add, has-append,
  IsDistinct, IsSubset, to_lower_case, trim, has,
}
use fast_auth_indexer_api.Prelude.{
  set_of, set_of-IsDistinct, has-set_of, normal_form-idempotent, has-append,
}
use mathlib.Core.Path.{subst}
use fast_auth_indexer_api.Json.{
  Json, null, boolean, numeral, string, array, object, items_of, member, as_string,
}
use fast_auth_indexer_api.NearBlock.{non_empty}
use fast_auth_indexer_api.Blocks.Probing.{AllNormal}
use fast_auth_indexer_api.PublicKeys.Lookup.{
  is_likely_near_account_id, strings_of, or_next, row_account, from_objects, candidate_accounts,
  first_candidate, extract_accounts_from_payload, normalized, likely_accounts,
  fetch_accounts_for_public_key,
}

-- Trimmed, and in lower case.
abbrev pub normal_form : Text → Text
normal_form s = to_lower_case (trim s)

abbrev pub text_of : Option Json → List Text
text_of (some (string s)) = s ∷ []
text_of _ = []

-- An item mentions itself, if it is a text, and the texts of its three fields.
unfoldable pub item_texts : List Json → List Text
item_texts [] = []
item_texts (item ∷ items) =
    text_of (some item)
    ++ (text_of (member (codes "account_id") item)
        ++ (text_of (member (codes "accountId") item)
            ++ (text_of (member (codes "id") item) ++ item_texts items)))

unfoldable pub value_texts : Option Json → List Text
unfolding item_texts
value_texts (some (array fields)) = item_texts (items_of fields)
value_texts _ = []

unfoldable pub field_texts : Json → List Text → List Text
unfolding value_texts
field_texts payload [] = []
field_texts payload (name ∷ names) = value_texts (member name payload) ++ field_texts payload names

abbrev account_fields : List Text
account_fields =
    codes "account_ids"
    ∷ codes "accountIds"
    ∷ codes "accounts"
    ∷ codes "data"
    ∷ codes "result"
    ∷ codes "items"
    ∷ []

-- All texts in a payload where an account may stand, in an array or in the six fields of an object.
unfoldable pub mentioned : Json → List Text
unfolding item_texts field_texts
mentioned (array fields) = item_texts (items_of fields)
mentioned (object fields) = field_texts (object fields) account_fields
mentioned _ = []

has-left : (xs ys : List Text) (a : Text) → has xs a ≡ true → has (xs ++ ys) a ≡ true
has-left xs ys a h = ground (arith, has-append xs ys a)

has-right : (xs ys : List Text) (a : Text) → has ys a ≡ true → has (xs ++ ys) a ≡ true
has-right xs ys a h = ground (arith, has-append xs ys a)

strings_of-cons :
    (item : Json) (items : List Json)
    → strings_of (item ∷ items) ≡ text_of (some item) ++ strings_of items
unfolding strings_of
strings_of-cons null items = refl
strings_of-cons (boolean b) items = refl
strings_of-cons (numeral n) items = refl
strings_of-cons (string s) items = refl
strings_of-cons (array fields) items = refl
strings_of-cons (object fields) items = refl

-- The texts of the fields of an item, and those of the items after it.
abbrev row_texts : Json → List Text → List Text
row_texts item later =
    text_of (member (codes "account_id") item)
    ++ (text_of (member (codes "accountId") item) ++ (text_of (member (codes "id") item) ++ later))

later_IsSubset : (item : Json) (later : List Text) → IsSubset later (row_texts item later)
later_IsSubset item later a h = has-right (text_of (member (codes "account_id") item)) _ a (
    has-right (text_of (member (codes "accountId") item)) _ a
      (has-right (text_of (member (codes "id") item)) later a h))

strings_of-mentioned : (items : List Json) → IsSubset (strings_of items) (item_texts items)
unfolding strings_of item_texts has
strings_of-mentioned [] a h = cc
strings_of-mentioned (item ∷ items) a h =
    let here = text_of (some item) in
    let later = strings_of items in
    elim (Bool-cases (has here a)) [
      | inl own ↦ has-left here _ a own
      | inr other ↦ has-right here _ a (
          later_IsSubset item (item_texts items) a (
            strings_of-mentioned items a (
              ground (
                arith,
                other,
                has-append here later a,
                subst (λ ts. has ts a ≡ true) (strings_of-cons item items) h,
              ))))
    ]

or_next-mentioned :
    (first next : Option Json)
    → IsSubset (text_of (or_next first next)) (text_of first ++ text_of next)
unfolding or_next has
or_next-mentioned none next a h = h
or_next-mentioned (some null) next a h = h
or_next-mentioned (some (boolean b)) next a h = cc
or_next-mentioned (some (numeral n)) next a h = cc
or_next-mentioned (some (string s)) next a h = has-left (s ∷ []) (text_of next) a h
or_next-mentioned (some (array fields)) next a h = cc
or_next-mentioned (some (object fields)) next a h = cc

as_string-mentioned :
    (value : Option Json) (a : Text)
    → non_empty (as_string value) ≡ some a
    → has (text_of value) a ≡ true
unfolding as_string has
as_string-mentioned none a h = cc
as_string-mentioned (some null) a h = cc
as_string-mentioned (some (boolean b)) a h = cc
as_string-mentioned (some (numeral n)) a h = cc
as_string-mentioned (some (string [])) a h = cc
as_string-mentioned (some (string (c ∷ s))) a h = ground (arith, eq_text_iff (c ∷ s) a)
as_string-mentioned (some (array fields)) a h = cc
as_string-mentioned (some (object fields)) a h = cc

row_account-mentioned :
    (row : Json) (later : List Text) (a : Text)
    → row_account row ≡ some a
    → has (row_texts row later) a ≡ true
unfolding row_account
row_account-mentioned row later a h =
    let x = member (codes "account_id") row in
    let y = member (codes "accountId") row in
    let z = member (codes "id") row in
    let found = as_string-mentioned (or_next x (or_next y z)) a h in
    ground (
      arith,
      or_next-mentioned x (or_next y z) a found,
      or_next-mentioned y z a,
      has-append (text_of x) (text_of (or_next y z)) a,
      has-append (text_of y) (text_of z) a,
      has-append (text_of x) (text_of y ++ (text_of z ++ later)) a,
      has-append (text_of y) (text_of z ++ later) a,
      has-append (text_of z) later a,
    )

from_objects-mentioned : (items : List Json) → IsSubset (from_objects items) (item_texts items)
unfolding from_objects item_texts has
from_objects-mentioned [] a h = cc
from_objects-mentioned (row ∷ items) a h =
    has-right (text_of (some row)) _ a (elim (Option-cases (row_account row)) [
      | inl nothing ↦
          later_IsSubset row (item_texts items) a
            (from_objects-mentioned items a (ground (arith, nothing, h)))
      | inr (own, named) ↦ elim (Bool-cases (eq_text own a)) [
        | inl same ↦
            row_account-mentioned row (item_texts items) a
              (named ∙ ap some ((eq_text_iff own a).0 same))
        | inr other ↦
            later_IsSubset row (item_texts items) a
              (from_objects-mentioned items a (ground (arith, named, other, h)))
      ]
    ])

list_cases : (xs : List Text) → (xs ≡ []) ⊎ ((x : Text) × ((ys : List Text) × (xs ≡ x ∷ ys)))
list_cases [] = inl refl
list_cases (x ∷ xs) = inr (x, (xs, refl))

candidate_accounts-mentioned :
    (value : Option Json) → IsSubset (candidate_accounts value) (value_texts value)
unfolding candidate_accounts value_texts has
candidate_accounts-mentioned none a h = cc
candidate_accounts-mentioned (some null) a h = cc
candidate_accounts-mentioned (some (boolean b)) a h = cc
candidate_accounts-mentioned (some (numeral n)) a h = cc
candidate_accounts-mentioned (some (string s)) a h = cc
candidate_accounts-mentioned (some (array fields)) a h =
    let items = items_of fields in
    elim (list_cases (strings_of items)) [
      | inl none_there ↦ from_objects-mentioned items a (ground (arith, none_there, h))
      | inr (x, (xs, texts)) ↦ strings_of-mentioned items a (ground (arith, texts, h))
    ]
candidate_accounts-mentioned (some (object fields)) a h = cc

first_candidate-mentioned :
    (payload : Json) (names : List Text)
    → IsSubset (first_candidate payload names) (field_texts payload names)
unfolding first_candidate field_texts has
first_candidate-mentioned payload [] a h = cc
first_candidate-mentioned payload (name ∷ names) a h =
    let own = candidate_accounts (member name payload) in
    elim (list_cases own) [
      | inl nothing ↦
          has-right (value_texts (member name payload)) _ a
            (first_candidate-mentioned payload names a (ground (arith, nothing, h)))
      | inr (x, (xs, there)) ↦
          has-left (value_texts (member name payload)) _ a
            (candidate_accounts-mentioned (member name payload) a (ground (arith, there, h)))
    ]

extract-mentioned :
    (payload : Json) → IsSubset (extract_accounts_from_payload payload) (mentioned payload)
unfolding extract_accounts_from_payload mentioned has
extract-mentioned null a h = cc
extract-mentioned (boolean b) a h = cc
extract-mentioned (numeral n) a h = cc
extract-mentioned (string s) a h = cc
extract-mentioned (array fields) a h = strings_of-mentioned (items_of fields) a h
extract-mentioned (object fields) a h = first_candidate-mentioned (object fields) account_fields a h

has-likely_accounts :
    (ids : List Text) (id : Text)
    → has (likely_accounts ids) id ≡ (has ids id && is_likely_near_account_id id)
unfolding likely_accounts has
has-likely_accounts [] id = refl
has-likely_accounts (i ∷ ids) id =
    ground (arith, has-likely_accounts ids id, eq_text_iff i id, ap is_likely_near_account_id)

AllNormal-append : (xs ys : List Text) → AllNormal xs → AllNormal ys → AllNormal (xs ++ ys)
AllNormal-append [] ys h k = k
AllNormal-append (x ∷ xs) ys h k = (h.0, AllNormal-append xs ys h.1 k)

add-AllNormal :
    (id : Text) (ids : List Text)
    → to_lower_case (trim id) ≡ id
    → AllNormal ids
    → AllNormal (add id ids)
unfolding add
add-AllNormal id ids e h = elim (Bool-cases (has ids id)) [
  | inl old ↦ rw old h
  | inr new ↦ rw new (AllNormal-append ids (id ∷ []) h (e, tt))
]

set_of-AllNormal :
    (ids seen : List Text) → AllNormal ids → AllNormal seen → AllNormal (set_of ids seen)
unfolding set_of
set_of-AllNormal [] seen h k = k
set_of-AllNormal (id ∷ ids) seen h k =
    set_of-AllNormal ids (add id seen) h.1 (add-AllNormal id seen h.0 k)

likely_accounts-AllNormal : (ids : List Text) → AllNormal ids → AllNormal (likely_accounts ids)
unfolding likely_accounts
likely_accounts-AllNormal [] h = tt
likely_accounts-AllNormal (id ∷ ids) h = elim (Bool-cases (is_likely_near_account_id id)) [
  | inl likely ↦ rw likely (h.0, likely_accounts-AllNormal ids h.1)
  | inr other ↦ rw other (likely_accounts-AllNormal ids h.1)
]

map-AllNormal : (ids : List Text) → AllNormal (map normal_form ids)
map-AllNormal [] = tt
map-AllNormal (id ∷ ids) = (normal_form-idempotent id, map-AllNormal ids)

has-map :
    (ys : List Text) (x : Text) → has ys x ≡ true → has (map normal_form ys) (normal_form x) ≡ true
unfolding has
has-map [] x h = cc
has-map (y ∷ ys) x h = elim (Bool-cases (eq_text y x)) [
  | inl same ↦ ground (
    arith,
    eq_text_iff (normal_form y) (normal_form x),
    ap normal_form ((eq_text_iff y x).0 same),
  )
  | inr other ↦ ground (arith, has-map ys x (ground (arith, other, h)))
]

map-IsSubset :
    (xs ys : List Text) → IsSubset xs ys → IsSubset (map normal_form xs) (map normal_form ys)
unfolding has
map-IsSubset [] ys sub a h = cc
map-IsSubset (x ∷ xs) ys sub a h = elim (Bool-cases (eq_text (normal_form x) a)) [
  | inl same ↦
      subst (λ t. has (map normal_form ys) t ≡ true) ((eq_text_iff (normal_form x) a).0 same)
        (has-map ys x (sub x (ground (arith, eq_text_refl x))))
  | inr other ↦ map-IsSubset xs ys (λ t k. sub t (ground (arith, k))) a (ground (arith, other, h))
]

-- The accounts of a public key are distinct, trimmed and in lower case. Each of them is the normal form
-- of a text that the payload mentions where an account may stand; and they are the normal forms of all
-- extracted texts that are likely accounts.
pub fetch_accounts_for_public_key-IsExact :
    (payload : Json)
    → let ids = fetch_accounts_for_public_key (some payload) in
      IsDistinct ids
      × (AllNormal ids
          × (IsSubset ids (map normal_form (mentioned payload))
              × ((id : Text)
                  → has ids id ≡ (
                      has (map normal_form (extract_accounts_from_payload payload)) id
                      && is_likely_near_account_id id))))
unfolding fetch_accounts_for_public_key normalized has
fetch_accounts_for_public_key-IsExact payload =
    let texts = extract_accounts_from_payload payload in
    let found = map normal_form texts in
    let exact : (id : Text)
        → has (set_of (likely_accounts found) []) id
          ≡ (has found id && is_likely_near_account_id id) =
      λ id. has-set_of (likely_accounts found) [] id ∙ has-likely_accounts found id in
    (
      set_of-IsDistinct (likely_accounts found) [] tt,
      (
        set_of-AllNormal (likely_accounts found) []
            (likely_accounts-AllNormal found (map-AllNormal texts)) tt,
        (
          λ id h.
              map-IsSubset texts (mentioned payload) (extract-mentioned payload) id
                (ground (arith, exact id, h)),
          exact,
        ),
      ),
    )
