-- ===== src/Tables.antt =====
-- Keyed rows: a `Map` of src/modules/near-ingest/near-ingest.service.ts, in the order of insertion, and a
-- database table with a unique key. They are lists of pairs.
use fast_auth_indexer_api.Prelude.{
  ◌≡◌, refl, inl, inr, Bool, false, ◌||◌, Option, none, some, List, [], ◌∷◌, ◌++◌, arith,
  if◌then◌else◌, Bool-cases, Text, eq_text, eq_text_iff, eq_text_refl,
}

module _ {ℓ} {A : Type ℓ} where
  unfoldable pub find : List (Text × A) → Text → Option A
  find [] k = none
  find ((j, v) ∷ rows) k = if eq_text j k then some v else find rows k

  unfoldable pub contains : List (Text × A) → Text → Bool
  contains [] k = false
  contains ((j, v) ∷ rows) k = eq_text j k || contains rows k

  -- `map.set(k, v)`
  unfoldable pub put : Text → A → List (Text × A) → List (Text × A)
  put k v [] = (k, v) ∷ []
  put k v ((j, w) ∷ rows) =
      let later = put k v rows in if eq_text j k then (k, v) ∷ rows else (j, w) ∷ later

  -- A row is inserted, or ignored where the key is taken.
  unfoldable pub insert_row : Text × A → List (Text × A) → List (Text × A)
  unfolding contains
  insert_row (k, v) rows = if contains rows k then rows else rows ++ (k, v) ∷ []

  unfoldable pub insert_rows : List (Text × A) → List (Text × A) → List (Text × A)
  unfolding insert_row
  insert_rows [] rows = rows
  insert_rows (new ∷ more) rows = insert_rows more (insert_row new rows)

  pub contains-put :
      (k j : Text) (v : A) (rows : List (Text × A))
      → contains (put k v rows) j ≡ (eq_text k j || contains rows j)
  unfolding put contains
  contains-put k j v [] = ground arith
  contains-put k j v ((i, w) ∷ rows) = ground (arith, contains-put k j v rows, eq_text_iff i k)

  contains-append :
      (xs ys : List (Text × A)) (k : Text)
      → contains (xs ++ ys) k ≡ (contains xs k || contains ys k)
  unfolding contains
  contains-append [] ys k = refl
  contains-append ((i, w) ∷ xs) ys k = ground (arith, contains-append xs ys k)

  contains-insert_row :
      (k j : Text) (v : A) (rows : List (Text × A))
      → contains (insert_row (k, v) rows) j ≡ (eq_text k j || contains rows j)
  unfolding insert_row contains
  contains-insert_row k j v rows = elim (Bool-cases (contains rows k)) [
    | inl taken ↦ rw taken (ground (arith, eq_text_iff k j))
    | inr new ↦ rw new (ground (arith, contains-append rows ((k, v) ∷ []) j))
  ]

  pub contains-insert_rows :
      (new rows : List (Text × A)) (k : Text)
      → contains (insert_rows new rows) k ≡ (contains new k || contains rows k)
  unfolding insert_rows contains
  contains-insert_rows [] rows k = refl
  contains-insert_rows ((j, v) ∷ new) rows k =
      ground
        (arith, contains-insert_rows new (insert_row (j, v) rows) k, contains-insert_row j k v rows)

  -- The row that a table has for a key is never replaced.
  find-append :
      (xs ys : List (Text × A)) (k : Text) (v : A) → find xs k ≡ some v → find (xs ++ ys) k ≡ some v
  unfolding find
  find-append [] ys k v f = cc
  find-append ((i, w) ∷ xs) ys k v f = ground (arith, find-append xs ys k v)

  find-insert_row :
      (new : Text × A) (rows : List (Text × A)) (k : Text) (v : A)
      → find rows k ≡ some v
      → find (insert_row new rows) k ≡ some v
  unfolding insert_row
  find-insert_row (j, w) rows k v f = ground (arith, find-append rows ((j, w) ∷ []) k v)

  pub find-insert_rows :
      (new rows : List (Text × A)) (k : Text) (v : A)
      → find rows k ≡ some v
      → find (insert_rows new rows) k ≡ some v
  unfolding insert_rows
  find-insert_rows [] rows k v f = f
  find-insert_rows (n ∷ new) rows k v f =
      find-insert_rows new (insert_row n rows) k v (find-insert_row n rows k v f)

  find-put_self : (k : Text) (v : A) (rows : List (Text × A)) → find (put k v rows) k ≡ some v
  unfolding put find
  find-put_self k v [] = ground (arith, eq_text_refl k)
  find-put_self k v ((i, w) ∷ rows) = ground (arith, find-put_self k v rows, eq_text_refl k)

  find-put_ne :
      (k j : Text) (v : A) (rows : List (Text × A))
      → eq_text k j ≡ false
      → find (put k v rows) j ≡ find rows j
  unfolding put find
  find-put_ne k j v [] n = ground arith
  find-put_ne k j v ((i, w) ∷ rows) n = ground (arith, find-put_ne k j v rows n, eq_text_iff i k)

  pub find-put :
      (k j : Text) (v : A) (rows : List (Text × A))
      → find (put k v rows) j ≡ (if eq_text k j then some v else find rows j)
  find-put k j v rows = elim (Bool-cases (eq_text k j)) [
    | inl same ↦ ground (arith, find-put_self k v rows, eq_text_iff k j)
    | inr other ↦ ground (arith, find-put_ne k j v rows)
  ]
