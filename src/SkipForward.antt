-- ===== src/SkipForward.antt =====
-- src/modules/ops/skip-forward.service.ts, and the boot guard of src/modules/ops that calls it. The
-- state is the checkpoint table and the ledger of missing ranges; what the RPC pool answers is given.
-- The id of the ledger row, which the database makes up, is left out of the summary.
pub mod Laws
pub mod Tests
use fast_auth_indexer_api.Prelude.{
  ℕ, ◌+◌, ◌-◌, ◌/◌, Bool, true, false, not, ◌||◌, Option, none, some, ltb, leb, if◌then◌else◌, Text,
  codes, number, print,
}
use fast_auth_indexer_api.Prelude.Int.{sub_ℕ, ℤ}
use fast_auth_indexer_api.BlockTime.{lag_blocks}
use fast_auth_indexer_api.Checkpoints.{
  Key, near_last_final_block_height, near_last_final_block_hash, near_last_scanned_height,
  near_chain_head_height, near_chain_head_hash, Checkpoints, get, set, delete,
}
use fast_auth_indexer_api.Ledger.{Ledger, skip_forward, record_skipped_range}
use fast_auth_indexer_api.NearBlock.{
  Block, Failure, other, is_skippable_missing_height_error, non_empty,
}
use fast_auth_indexer_api.Ingest.{Try, returned, threw, non_zero}

abbrev pub default_skip_hours_back : ℕ
default_skip_hours_back = 12

abbrev pub default_max_lag_hours : ℕ
default_max_lag_hours = 30

pub record Summary : Type 0 where
  pub current_scanned_height : ℕ
  pub latest_height : ℕ
  pub latest_hash : Text
  pub hours_back : ℕ
  pub lag_blocks : ℕ
  pub skip_target : ℤ
  pub gap_start : ℕ
  pub gap_end : ℤ
  pub gap_size : ℤ
  pub confirmed : Bool

pub record Ops : Type 0 where
  pub checkpoints : Checkpoints
  pub ledger : Ledger

-- What the pool answers to one call for the final block, and to the calls by height.
pub record Answers : Type 0 where
  pub final_block : Try Block
  pub by_height : ℕ → Try Block

-- `scannedRaw ? Number(scannedRaw) : null`
unfoldable pub scanned_height : Checkpoints → Option ℕ
unfolding get
scanned_height s = elim (non_empty (get near_last_scanned_height s)) [
  | none ↦ none
  | some raw ↦ number raw
]

-- The hash of the block, if it was fetched and has one.
unfoldable pub fetched_hash : Try Block → Option Text
fetched_hash (threw e) = none
fetched_hash (returned b) = non_empty b.hash

unfoldable pub write_hash : Option Text → Checkpoints → Checkpoints
unfolding set delete
write_hash none s = delete near_last_final_block_hash s
write_hash (some hash) s = set near_last_final_block_hash hash s

unfoldable pub write_checkpoints : ℕ → ℕ → Text → Option Text → Checkpoints → Checkpoints
unfolding set write_hash
write_checkpoints scanned latest_height latest_hash hash s = write_hash hash (
    set near_chain_head_hash latest_hash (
      set near_chain_head_height (print latest_height) (
        set near_last_final_block_height (print scanned)
          (set near_last_scanned_height (print scanned) s))))

abbrev pub summary_of : ℕ → ℕ → ℕ → Text → Bool → Summary
summary_of hours scanned latest_height latest_hash confirm = record {
  current_scanned_height = scanned;
  latest_height = latest_height;
  latest_hash = latest_hash;
  hours_back = hours;
  lag_blocks = lag_blocks hours;
  skip_target = sub_ℕ latest_height (lag_blocks hours);
  gap_start = scanned + 1;
  gap_end = sub_ℕ latest_height (lag_blocks hours + 1);
  gap_size = sub_ℕ latest_height (lag_blocks hours + 1 + scanned);
  confirmed = confirm;
}

-- `gapSize <= 0`
unfoldable pub has_no_gap : ℕ → ℕ → ℕ → Bool
has_no_gap hours scanned latest_height = leb latest_height (lag_blocks hours + 1 + scanned)

unfoldable pub skip : ℕ → ℕ → ℕ → Text → Answers → ℕ → Ops → Ops
unfolding write_checkpoints record_skipped_range fetched_hash
skip hours scanned latest_height latest_hash answers now o =
    let new_scanned = latest_height - lag_blocks hours - 1 in
    record {
      checkpoints =
          write_checkpoints new_scanned latest_height latest_hash
            (fetched_hash (answers.by_height new_scanned)) o.checkpoints;
      ledger = record_skipped_range (scanned + 1) new_scanned (skip_forward hours) now o.ledger;
    }

unfoldable pub run_from :
    Bool → ℕ → ℕ → Option ℕ → Option Text → Answers → ℕ → Ops → Try Summary × Ops
unfolding skip has_no_gap
run_from confirm hours scanned (some latest_height) (some latest_hash) answers now o = (
  returned (summary_of hours scanned latest_height latest_hash confirm),
  if has_no_gap hours scanned latest_height || not confirm
      then o
      else skip hours scanned latest_height latest_hash answers now o,
)
run_from confirm hours scanned _ _ answers now o =
    (threw (other (codes "NEAR response did not include a final block height/hash.")), o)

unfoldable pub run : Bool → ℕ → Answers → ℕ → Ops → Try Summary × Ops
unfolding run_from scanned_height
run confirm hours answers now o = elim (scanned_height o.checkpoints) [
  | none ↦ (
    threw (
        other (
          codes
            "Missing near_last_scanned_height checkpoint. Cannot skip forward without knowing where we are.")),
    o,
  )
  | some scanned ↦ elim answers.final_block [
    | threw e ↦ (threw e, o)
    | returned latest ↦
        run_from confirm hours scanned (non_zero latest.height) (non_empty latest.hash) answers now
          o
  ]
]

-- The probe of the next height: only a height that is missing everywhere lets the reset go on.
unfoldable pub probe_fails : Try Block → Bool
probe_fails (returned b) = false
probe_fails (threw e) = is_skippable_missing_height_error e

-- The decision of `autoSkipIfStranded`, once the heights are known.
unfoldable pub is_stranded : ℕ → ℕ → ℕ → ℕ → Answers → Bool
unfolding probe_fails
is_stranded hours max_lag_hours scanned latest_height answers =
    if ltb latest_height (scanned + lag_blocks hours)
    then false
    else leb (scanned + lag_blocks max_lag_hours) latest_height
      || probe_fails (answers.by_height (scanned + 1))

-- `again` are the answers to the calls of the run that follows.
unfoldable pub skip_if : Bool → ℕ → Answers → ℕ → Ops → Try (Option Summary) × Ops
unfolding run
skip_if false hours again now o = (returned none, o)
skip_if true hours again now o =
    let (result, o') = run true hours again now o in
    elim result [ threw e ↦ (threw e, o') | returned s ↦ (returned (some s), o') ]

unfoldable pub auto_skip_if_stranded :
    ℕ → ℕ → Answers → Answers → ℕ → Ops → Try (Option Summary) × Ops
unfolding scanned_height skip_if is_stranded
auto_skip_if_stranded hours max_lag_hours answers again now o =
    elim (scanned_height o.checkpoints) [
      | none ↦ (returned none, o)
      | some scanned ↦ elim answers.final_block [
        | threw e ↦ (threw e, o)
        | returned latest ↦ elim (non_zero latest.height) [
          | none ↦ (returned none, o)
          | some latest_height ↦
              skip_if (is_stranded hours max_lag_hours scanned latest_height answers) hours again
                now o
        ]
      ]
    ]

-- `onModuleInit` of the boot guard: a failure is logged, never thrown.
unfoldable pub on_module_init : Answers → Answers → ℕ → Ops → Ops
unfolding auto_skip_if_stranded
on_module_init answers again now o =
    (auto_skip_if_stranded 12 default_max_lag_hours answers again now o).1
