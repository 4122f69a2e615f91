-- ===== src/Blocks/Exactness.antt =====
-- The classification of near-ingest.service.ts with the accounts that a probe has found, beside the one
-- with the whole table of accounts.
use fast_auth_indexer_api.Prelude.{
  ℕ, ◌≡◌, refl, ap, ◌∙◌, inl, inr, true, Option, none, some, List, [], ◌∷◌, ◌++◌, arith,
  if◌then◌else◌, Option-cases, Text, eq_text_refl, to_lower_case, trim, has,
}
use mathlib.Core.Path.{subst}
use fast_auth_indexer_api.Json.{Json}
use fast_auth_indexer_api.NearBlock.{ChunkTransaction, non_empty}
use fast_auth_indexer_api.Conversion.{Runtime}
use fast_auth_indexer_api.Conversion.Delegate.{DelegateActionInfo, extract_delegate_action_info}
use fast_auth_indexer_api.Health.{in_set}
use fast_auth_indexer_api.SignEvents.{normalized_id}
use fast_auth_indexer_api.Blocks.Rows.{ComputedTxValue, Found}
use fast_auth_indexer_api.Blocks.Stored.{keys_of, block_keys}
use fast_auth_indexer_api.Blocks.Accounts.{
  as_list, delegate_id, account_ids, extract_delegate_action_info-trims,
}
use fast_auth_indexer_api.Blocks.{
  put_direct, put_meta, path_3, is_user_delegate, meta_user_row, meta_row, classify_transaction,
  classify_transactions, classify_chunks,
}

-- Two sets have the same of some ids.
abbrev pub SameOn : List Text → List Text → List Text → Type 0
SameOn [] xs ys = Unit
SameOn (id ∷ ids) xs ys = (has xs id ≡ has ys id) × SameOn ids xs ys

SameOn-append :
    (ids more xs ys : List Text) → SameOn (ids ++ more) xs ys → SameOn ids xs ys × SameOn more xs ys
SameOn-append [] more xs ys s = (tt, s)
SameOn-append (id ∷ ids) more xs ys s =
    let (first, later) = SameOn-append ids more xs ys s.1 in ((s.0, first), later)

pub SameOn-of_has :
    (ids xs ys : List Text)
    → ((id : Text) → has ids id ≡ true → has xs id ≡ has ys id)
    → SameOn ids xs ys
unfolding has
SameOn-of_has [] xs ys h = tt
SameOn-of_has (id ∷ ids) xs ys h =
    (h id (ground (arith, eq_text_refl id)), SameOn-of_has ids xs ys λ j m. h j (ground arith))

in_set-same :
    (id : Text) (xs ys : List Text)
    → has xs id ≡ has ys id
    → in_set xs (some id) ≡ in_set ys (some id)
unfolding in_set
in_set-same [] xs ys h = refl
in_set-same (c ∷ id) xs ys h = h

signer-same :
    (signer : Option Text) (xs ys : List Text)
    → SameOn (as_list (normalized_id (non_empty signer))) xs ys
    → in_set xs (normalized_id signer) ≡ in_set ys (normalized_id signer)
unfolding normalized_id in_set trim to_lower_case
signer-same none xs ys s = refl
signer-same (some []) xs ys s = refl
signer-same (some (c ∷ id)) xs ys s = in_set-same (to_lower_case (trim (c ∷ id))) xs ys s.0

module _ (rt : Runtime) (contracts : List Text) (value : List Json → Text → ComputedTxValue)
    (now height : ℕ) (at : Option ℕ) where
  delegate-same :
      (info : DelegateActionInfo) (sender : Text) (xs ys : List Text)
      → info.inner_signer_id ≡ sender
      → trim sender ≡ sender
      → SameOn (as_list (normalized_id (non_empty (some sender)))) xs ys
      → is_user_delegate rt contracts value now height at xs info
        ≡ is_user_delegate rt contracts value now height at ys info
  unfolding is_user_delegate normalized_id to_lower_case
  delegate-same info [] xs ys e t s = rw e refl
  delegate-same info (c ∷ sender) xs ys e t s = rw e (ground (arith, s.0, ap to_lower_case t))

  meta_user_row-same :
      (tx : ChunkTransaction) (xs ys : List Text)
      → SameOn (as_list (delegate_id (extract_delegate_action_info tx.actions))) xs ys
      → meta_user_row rt contracts value now height at xs tx
        ≡ meta_user_row rt contracts value now height at ys tx
  unfolding meta_user_row
  meta_user_row-same tx xs ys s = elim (Option-cases (extract_delegate_action_info tx.actions)) [
    | inl none_found ↦ rw (none_found, meta_user_row) refl
    | inr (info, found) ↦
        let same : SameOn (as_list (delegate_id (some info))) xs ys =
          subst (λ o. SameOn (as_list (delegate_id o)) xs ys) found s in
        let trims = extract_delegate_action_info-trims tx.actions info found in
        rw (found, meta_user_row)
          (ap (λ b. if b then some (meta_row rt contracts value now height at tx info) else none)
            (delegate-same info info.inner_signer_id xs ys refl trims same))
  ]

  path_3-same :
      (tx : ChunkTransaction) (hash : Text) (f : Found) (xs ys : List Text)
      → SameOn (account_ids tx) xs ys
      → path_3 rt contracts value now height at xs tx hash f
        ≡ path_3 rt contracts value now height at ys tx hash f
  unfolding path_3 account_ids put_meta put_direct
  path_3-same tx hash f xs ys s =
      let (signer, delegate) =
        SameOn-append (as_list (normalized_id (non_empty tx.signer_id))) _ xs ys s in
      ground (arith, signer-same tx.signer_id xs ys signer, meta_user_row-same tx xs ys delegate)

  classify_transaction-same :
      (tx : ChunkTransaction) (f : Found) (xs ys : List Text)
      → SameOn (account_ids tx) xs ys
      → classify_transaction rt contracts value now height at xs tx f
        ≡ classify_transaction rt contracts value now height at ys tx f
  unfolding classify_transaction
  classify_transaction-same tx f xs ys s = elim (Option-cases (non_empty tx.hash)) [
    | inl nameless ↦ rw (nameless, classify_transaction) refl
    | inr (hash, named) ↦ rw (named, classify_transaction) (path_3-same tx hash _ xs ys s)
  ]

  classify_transactions-same :
      (txs : List ChunkTransaction) (f : Found) (xs ys : List Text)
      → SameOn (keys_of account_ids txs) xs ys
      → classify_transactions rt contracts value now height at xs txs f
        ≡ classify_transactions rt contracts value now height at ys txs f
  unfolding classify_transactions keys_of
  classify_transactions-same [] f xs ys s = refl
  classify_transactions-same (tx ∷ txs) f xs ys s =
      let (first, later) = SameOn-append (account_ids tx) _ xs ys s in
      ap (classify_transactions rt contracts value now height at xs txs)
        (classify_transaction-same tx f xs ys first)
      ∙ classify_transactions-same txs _ xs ys later

  -- Sets of accounts that have the same of the accounts that a block names classify it alike.
  pub classify_chunks-same :
      (chunks : List (List ChunkTransaction)) (f : Found) (xs ys : List Text)
      → SameOn (block_keys account_ids chunks) xs ys
      → classify_chunks rt contracts value now height at xs chunks f
        ≡ classify_chunks rt contracts value now height at ys chunks f
  unfolding classify_chunks block_keys
  classify_chunks-same [] f xs ys s = refl
  classify_chunks-same (txs ∷ chunks) f xs ys s =
      let (first, later) = SameOn-append (keys_of account_ids txs) _ xs ys s in
      ap (classify_chunks rt contracts value now height at xs chunks)
        (classify_transactions-same txs f xs ys first)
      ∙ classify_chunks-same chunks _ xs ys later
