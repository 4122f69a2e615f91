-- ===== src/Blocks/Probing.antt =====
-- What the probes of near-ingest.service.ts know, when their queries are answered.
use fast_auth_indexer_api.Prelude.{
  ◌≡◌, refl, inl, inr, Bool, true, not, ◌&&◌, ◌||◌, Option, some, List, [], ◌∷◌, arith, Bool-cases,
  Text, eq_text, eq_text_iff, eq_text_refl, to_lower_case, trim, has,
}
use fast_auth_indexer_api.Tables.{find, contains, put, contains-put}
use fast_auth_indexer_api.Blocks.Probes.{unchecked, mark, is_known, known_of, found_or_none, probed}
use fast_auth_indexer_api.Blocks.Store.{any_of, normalized_all}

-- What the cache says of a candidate is what the table says.
abbrev pub Agrees : List Text → List (Text × Bool) → Type 0
Agrees table [] = Unit
Agrees table ((c, b) ∷ cache) = (b ≡ has table c) × Agrees table cache

put-Agrees :
    (table : List Text) (c : Text) (b : Bool) (cache : List (Text × Bool))
    → b ≡ has table c
    → Agrees table cache
    → Agrees table (put c b cache)
unfolding put
put-Agrees table c b [] e a = (e, tt)
put-Agrees table c b ((d, v) ∷ cache) e a = elim (Bool-cases (eq_text d c)) [
  | inl same ↦ rw same (e, a.1)
  | inr other ↦ rw other (a.0, put-Agrees table c b cache e a.1)
]

find-Agrees :
    (table : List Text) (c : Text) (cache : List (Text × Bool))
    → Agrees table cache
    → contains cache c ≡ true
    → find cache c ≡ some (has table c)
unfolding find contains
find-Agrees table c [] a m = cc
find-Agrees table c ((d, v) ∷ cache) a m = elim (Bool-cases (eq_text d c)) [
  | inl same ↦ rw same (ground (arith, eq_text_iff d c, a.0))
  | inr other ↦ rw other (find-Agrees table c cache a.1 (ground arith))
]

is_known-Agrees :
    (table : List Text) (c : Text) (cache : List (Text × Bool))
    → Agrees table cache
    → contains cache c ≡ true
    → is_known cache c ≡ has table c
unfolding is_known
is_known-Agrees table c cache a m = rw (find-Agrees table c cache a m, is_known) refl

mark-Agrees :
    (table found unknown : List Text) (cache : List (Text × Bool))
    → ((c : Text) → has unknown c ≡ true → has found c ≡ has table c)
    → Agrees table cache
    → Agrees table (mark found unknown cache)
unfolding mark has
mark-Agrees table found [] cache right a = a
mark-Agrees table found (c ∷ unknown) cache right a =
    mark-Agrees table found unknown _ (λ d m. right d (ground arith))
      (put-Agrees table c (has found c) cache (right c (ground (arith, eq_text_refl c))) a)

contains-mark :
    (found unknown : List Text) (cache : List (Text × Bool)) (c : Text)
    → contains (mark found unknown cache) c ≡ (contains cache c || has unknown c)
unfolding mark has
contains-mark found [] cache c = ground arith
contains-mark found (d ∷ unknown) cache c = ground (
  arith,
  contains-mark found unknown (put d (has found d) cache) c,
  contains-put d c (has found d) cache,
)

has-unchecked :
    (cache : List (Text × Bool)) (candidates : List Text) (c : Text)
    → has (unchecked cache candidates) c ≡ (has candidates c && not (contains cache c))
unfolding unchecked has
has-unchecked cache [] c = ground arith
has-unchecked cache (d ∷ candidates) c =
    ground (arith, has-unchecked cache candidates c, eq_text_iff d c)

has-known_of :
    (cache : List (Text × Bool)) (candidates : List Text) (c : Text)
    → has (known_of cache candidates) c ≡ (has candidates c && is_known cache c)
unfolding known_of has
has-known_of cache [] c = ground arith
has-known_of cache (d ∷ candidates) c =
    ground (arith, has-known_of cache candidates c, eq_text_iff d c)

pub has-any_of :
    (table asked : List Text) (c : Text) → has (any_of table asked) c ≡ (has table c && has asked c)
unfolding any_of has
has-any_of [] asked c = ground arith
has-any_of (d ∷ table) asked c = ground (arith, has-any_of table asked c, eq_text_iff d c)

-- The ids of the table are trimmed and in lower case.
abbrev pub AllNormal : List Text → Type 0
AllNormal [] = Unit
AllNormal (id ∷ ids) = (to_lower_case (trim id) ≡ id) × AllNormal ids

pub normalized_all-AllNormal :
    (table asked : List Text)
    → AllNormal table
    → normalized_all (any_of table asked) ≡ any_of table asked
unfolding normalized_all any_of
normalized_all-AllNormal [] asked n = refl
normalized_all-AllNormal (id ∷ ids) asked n = elim (Bool-cases (has asked id)) [
  | inl kept ↦ rw kept (ground (arith, normalized_all-AllNormal ids asked n.1, n.0))
  | inr gone ↦ rw gone (normalized_all-AllNormal ids asked n.1)
]

module _ (table candidates : List Text) (query : List Text → Option (List Text))
    (cache : List (Text × Bool)) where
  pub probed-Agrees :
      query (unchecked cache candidates) ≡ some (any_of table (unchecked cache candidates))
      → Agrees table cache
      → Agrees table (probed query candidates cache)
  unfolding probed found_or_none
  probed-Agrees answered a =
      let unknown = unchecked cache candidates in
      rw answered (
        mark-Agrees table (any_of table unknown) unknown cache
          (λ c m. ground (arith, has-any_of table unknown c)) a)

  -- A probe whose query is answered finds the candidates that the table has, from a cache that agrees
  -- with the table.
  pub has-probed :
      (c : Text)
      → query (unchecked cache candidates) ≡ some (any_of table (unchecked cache candidates))
      → Agrees table cache
      → has (known_of (probed query candidates cache) candidates) c
        ≡ (has candidates c && has table c)
  unfolding probed
  has-probed c answered a =
      let unknown = unchecked cache candidates in
      let after = probed query candidates cache in
      elim (Bool-cases (has candidates c)) [
        | inl asked ↦ ground (
          arith,
          has-known_of after candidates c,
          is_known-Agrees table c after (probed-Agrees answered a),
          contains-mark (found_or_none (query unknown)) unknown cache c,
          has-unchecked cache candidates c,
        )
        | inr out ↦ ground (arith, has-known_of after candidates c)
      ]
