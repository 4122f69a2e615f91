-- ===== src/ContractState/Tests.antt =====
-- Tests of the snapshots of the FastAuth contracts.
use fast_auth_indexer_api.Prelude.{
  ℕ, ◌≡◌, refl, ◌≢◌, none, some, [], ◌∷◌, Text, number, print, number-print, print-ne-nil,
}
use fast_auth_indexer_api.Conversion.{Runtime}
use fast_auth_indexer_api.Checkpoints.{empty}
use fast_auth_indexer_api.ContractState.{Answers, Collector, Dates, last_run_ms}
use fast_auth_indexer_api.ContractState.Laws.{IsSpaced, runs, runs-IsSpaced}

abbrev plain_runtime : Runtime
plain_runtime = record {
  parse = λ s. none;
  stringify = λ value. [];
  from_base64 = λ s. s;
  from_utf8 = λ bytes. bytes;
  to_number = λ value. none;
  hostname = λ s. none;
  sha256 = λ s. s;
}

-- Every request throws.
abbrev rpc_down : Answers
rpc_down = record {
  view_account = λ account. none;
  view_access_key_list = λ account. none;
  call_function = λ account method. none;
}

-- Dates are printed in milliseconds.
abbrev decimal_dates : Dates
decimal_dates = record { to_iso_string = print; parse = number }

abbrev no_snapshots : Collector
no_snapshots = record { snapshots = []; checkpoints = empty }

last_run_ms-number :
    (s : Text) (n : ℕ) → number s ≡ some n → s ≢ [] → last_run_ms decimal_dates (some s) ≡ some n
unfolding last_run_ms
last_run_ms-number [] n e ne = absurd (ne refl)
last_run_ms-number (c ∷ s) n e ne = e

reads_back : (n : ℕ) → last_run_ms decimal_dates (some (print n)) ≡ some n
reads_back n = last_run_ms-number (print n) n (number-print n) (print-ne-nil n)

runs-IsSpaced_example :
    IsSpaced plain_runtime decimal_dates
      (runs plain_runtime decimal_dates
        ((1_000_000, rpc_down) ∷ (1_100_000, rpc_down) ∷ (1_300_000, rpc_down) ∷ [])
        []
        no_snapshots).0
runs-IsSpaced_example =
    runs-IsSpaced plain_runtime decimal_dates reads_back
      ((1_000_000, rpc_down) ∷ (1_100_000, rpc_down) ∷ (1_300_000, rpc_down) ∷ []) no_snapshots
