-- ===== src/Health/UserRunTests.antt =====
-- A run of user-health.service.ts over two transactions of which one has a row.
use fast_auth_indexer_api.Prelude.{
  ◌≤◌, ◌≡◌, ◌||◌, List, [], ◌∷◌, if◌then◌else◌, length, Text, codes, eq_text,
}
use fast_auth_indexer_api.Json.{Json, null}
use fast_auth_indexer_api.Health.{TxStatus, failed, answered}
use fast_auth_indexer_api.Health.UserRuns.{
  discover_limit, retry_limit, UserTransaction, UserHealthTx, discovered, has_row, candidates,
  pending_rows, classified, run_discovery_pass, run_retry_pass,
}
use fast_auth_indexer_api.Health.UserRunLaws.{
  discovered_total, retried_total, has_tx, run-IsCounted, has_row-run,
}

abbrev no_json : Json → Text
no_json value = []

-- The call for `b` fails.
abbrev answers : Text → Text → TxStatus
answers hash signer =
    if eq_text hash (codes "b") then failed (codes "timeout") else answered [] null

abbrev tx_of : Text → UserTransaction
tx_of hash = record {
  tx_hash = hash;
  signer_account_id = codes "alice.near";
  block_height = 7;
  block_timestamp = 90_000_000;
}

abbrev user_txs : List UserTransaction
user_txs = tx_of (codes "a") ∷ tx_of (codes "b") ∷ []

abbrev pending_rows_before : List UserHealthTx
pending_rows_before =
    discovered 1 (classified no_json answers (codes "b") (codes "alice.near")) (tx_of (codes "b"))
    ∷ []

run-IsCounted_example :
    let d = run_discovery_pass no_json answers 5 1_000_000 user_txs pending_rows_before in
    let r = run_retry_pass no_json answers 1_000_000 1_000_100 d.1 in
    ((discovered_total d.0 ≡ length (candidates 5 pending_rows_before user_txs))
      × (discovered_total d.0 ≤ discover_limit))
    × ((retried_total r.0 ≡ length (pending_rows 1_000_000 d.1))
        × (retried_total r.0 ≤ retry_limit))
run-IsCounted_example =
    run-IsCounted no_json answers 5 1_000_000 1_000_000 1_000_100 user_txs pending_rows_before

has_row-run_example :
    let d = run_discovery_pass no_json answers 5 1_000_000 user_txs pending_rows_before in
    has_row (run_retry_pass no_json answers 1_000_000 1_000_100 d.1).1 (codes "a") ≡ (
      has_tx (candidates 5 pending_rows_before user_txs) (codes "a")
      || has_row pending_rows_before (codes "a"))
has_row-run_example =
    has_row-run no_json answers 5 1_000_000 1_000_000 1_000_100 user_txs pending_rows_before
      (codes "a")
