-- ===== src/Health/UserRunLaws.antt =====
-- What a run of user-health.service.ts asks for, counts and stores.
use fast_auth_indexer_api.Prelude.{
  ℕ, suc, ◌+◌, ◌≤◌, ◌≡◌, refl, ap, ◌∙◌, Bool, false, ◌||◌, List, [], ◌∷◌, ◌++◌, arith, length, Text,
  eq_text, eq_text_iff,
}
use fast_auth_indexer_api.Prelude.{take, length-take}
use fast_auth_indexer_api.Json.{Json}
use fast_auth_indexer_api.Health.{TxStatus}
use fast_auth_indexer_api.Health.Generic.{
  GenericOutcome, succeeded, failure, pending, GenericClassification,
}
use fast_auth_indexer_api.Health.UserRuns.{
  discover_limit, retry_limit, UserTransaction, UserHealthTx, is_pending, has_row, unclassified,
  by_height_desc, candidates, discovered, insert_or_ignore, Discovered, tally, Retried, tally_retry,
  due_rows, by_attempt_asc, pending_rows, update, classified, classify_all, run_discovery_pass,
  retry_all, run_retry_pass,
}

abbrev pub discovered_total : Discovered → ℕ
discovered_total stats = stats.ok + (stats.failed + stats.still_pending)

abbrev pub retried_total : Retried → ℕ
retried_total stats = stats.resolved + stats.still_pending

take_le {ℓ} : {A : Type ℓ} (n : ℕ) (xs : List A) → length (take n xs) ≤ n
take_le n xs = omega (arith, length-take n xs)

tally-total :
    (outcome : GenericOutcome) (stats : Discovered)
    → discovered_total (tally outcome stats) ≡ suc (discovered_total stats)
unfolding tally
tally-total succeeded stats = omega arith
tally-total failure stats = omega arith
tally-total pending stats = omega arith

tally_retry-total :
    (outcome : GenericOutcome) (stats : Retried)
    → retried_total (tally_retry outcome stats) ≡ suc (retried_total stats)
unfolding tally_retry is_pending
tally_retry-total succeeded stats = omega arith
tally_retry-total failure stats = omega arith
tally_retry-total pending stats = omega arith

has_row-append_one :
    (rows : List UserHealthTx) (new : UserHealthTx) (hash : Text)
    → has_row (rows ++ new ∷ []) hash ≡ (has_row rows hash || eq_text new.tx_hash hash)
unfolding has_row
has_row-append_one [] new hash = ground arith
has_row-append_one (row ∷ rows) new hash = ground (arith, has_row-append_one rows new hash)

has_row-insert :
    (new rows : List UserHealthTx) (hash : Text)
    → has_row (insert_or_ignore new rows) hash ≡ (has_row new hash || has_row rows hash)
unfolding insert_or_ignore has_row
has_row-insert [] rows hash = ground arith
has_row-insert (n ∷ new) rows hash = ground (
  arith,
  has_row-insert new rows hash,
  has_row-insert new (rows ++ n ∷ []) hash,
  has_row-append_one rows n hash,
  eq_text_iff n.tx_hash hash,
)

has_row-update :
    (now : ℕ) (c : GenericClassification) (read : UserHealthTx) (rows : List UserHealthTx)
    (hash : Text)
    → has_row (update now c read rows) hash ≡ has_row rows hash
unfolding update has_row
has_row-update now c read [] hash = refl
has_row-update now c read (row ∷ rows) hash = ground (arith, has_row-update now c read rows hash)

unfoldable pub has_tx : List UserTransaction → Text → Bool
has_tx [] hash = false
has_tx (tx ∷ txs) hash = eq_text tx.tx_hash hash || has_tx txs hash

module _ (stringify : Json → Text) (answer : Text → Text → TxStatus) where
  classify_all-total :
      (now : ℕ) (txs : List UserTransaction)
      → discovered_total (classify_all stringify answer now txs).0 ≡ length txs
  unfolding classify_all
  classify_all-total now [] = refl
  classify_all-total now (tx ∷ txs) = omega (
    arith,
    tally-total (classified stringify answer tx.tx_hash tx.signer_account_id).outcome
        (classify_all stringify answer now txs).0,
    classify_all-total now txs,
  )

  retry_all-total :
      (now : ℕ) (reads rows : List UserHealthTx)
      → retried_total (retry_all stringify answer now reads rows).0 ≡ length reads
  unfolding retry_all
  retry_all-total now [] rows = refl
  retry_all-total now (read ∷ reads) rows =
      let c = classified stringify answer read.tx_hash read.signer_id in
      omega (
        arith,
        tally_retry-total c.outcome
            (retry_all stringify answer now reads (update now c read rows)).0,
        retry_all-total now reads (update now c read rows),
      )

  has_row-retry_all :
      (now : ℕ) (reads rows : List UserHealthTx) (hash : Text)
      → has_row (retry_all stringify answer now reads rows).1 hash ≡ has_row rows hash
  unfolding retry_all
  has_row-retry_all now [] rows hash = refl
  has_row-retry_all now (read ∷ reads) rows hash =
      let c = classified stringify answer read.tx_hash read.signer_id in
      has_row-retry_all now reads (update now c read rows) hash
      ∙ has_row-update now c read rows hash

  has_row-classify_all :
      (now : ℕ) (txs : List UserTransaction) (hash : Text)
      → has_row (classify_all stringify answer now txs).1 hash ≡ has_tx txs hash
  unfolding classify_all has_row discovered has_tx
  has_row-classify_all now [] hash = refl
  has_row-classify_all now (tx ∷ txs) hash = ground (arith, has_row-classify_all now txs hash)

  -- A discovery pass asks for 50 transactions at most and a retry pass for 25 at most; each that is
  -- asked for is counted in exactly one of the pass's statistics.
  pub run-IsCounted :
      (cutoff now queried later : ℕ) (txs : List UserTransaction) (rows : List UserHealthTx)
      → let d = run_discovery_pass stringify answer cutoff now txs rows in
        let r = run_retry_pass stringify answer queried later d.1 in
        ((discovered_total d.0 ≡ length (candidates cutoff rows txs))
          × (discovered_total d.0 ≤ discover_limit))
        × ((retried_total r.0 ≡ length (pending_rows queried d.1))
            × (retried_total r.0 ≤ retry_limit))
  unfolding run_discovery_pass run_retry_pass candidates pending_rows
  run-IsCounted cutoff now queried later txs rows =
      let asked = candidates cutoff rows txs in
      let d = run_discovery_pass stringify answer cutoff now txs rows in
      let reads = pending_rows queried d.1 in
      let first = classify_all-total now asked in
      let second = retry_all-total later reads d.1 in
      (
        (
          first,
          omega (
            arith,
            first,
            take_le discover_limit (by_height_desc (unclassified cutoff rows txs)),
          ),
        ),
        (
          second,
          omega (arith, second, take_le retry_limit (by_attempt_asc (due_rows queried d.1))),
        ),
      )

  -- After a run, the transactions that have a row are those that had one and those that the discovery
  -- pass has asked for: however the calls answer, no row is lost and none of those asked for is missed.
  pub has_row-run :
      (cutoff now queried later : ℕ) (txs : List UserTransaction) (rows : List UserHealthTx)
      (hash : Text)
      → let d = run_discovery_pass stringify answer cutoff now txs rows in
        has_row (run_retry_pass stringify answer queried later d.1).1 hash
        ≡ (has_tx (candidates cutoff rows txs) hash || has_row rows hash)
  unfolding run_discovery_pass run_retry_pass
  has_row-run cutoff now queried later txs rows hash =
      let asked = candidates cutoff rows txs in
      let new = (classify_all stringify answer now asked).1 in
      has_row-retry_all later (pending_rows queried (insert_or_ignore new rows)) _ hash
      ∙ has_row-insert new rows hash
      ∙ ap (λ b. b || has_row rows hash) (has_row-classify_all now asked hash)
