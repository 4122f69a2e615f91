-- ===== src/SkipForward/Laws.antt =====
-- What a skip of skip-forward.service.ts leaves behind.
use fast_auth_indexer_api.Prelude.{
  ℕ, ◌+◌, ◌-◌, ◌≤◌, ◌≡◌, refl, ◌≢◌, inl, inr, Bool, true, false, not, ◌||◌, Option, none, some,
  List, [], ◌∷◌, arith, Bool-cases, Option-cases, Text, print, number-print, print-ne-nil,
}
use fast_auth_indexer_api.Prelude.{dec_lt}
use fast_auth_indexer_api.BlockTime.{lag_blocks}
use fast_auth_indexer_api.Checkpoints.{near_last_scanned_height, Checkpoints, get, set, delete}
use fast_auth_indexer_api.Ledger.{skip_forward}
use fast_auth_indexer_api.Ledger.Laws.{ledgered-record}
use fast_auth_indexer_api.NearBlock.{non_empty}
use fast_auth_indexer_api.Ingest.{near_backfill_start_height, Try-cases, non_zero}
use fast_auth_indexer_api.Ingest.Run.Coverage.{IsCovered, IsScanned}
use fast_auth_indexer_api.SkipForward.{
  Ops, Answers, scanned_height, write_hash, write_checkpoints, has_no_gap, skip, run_from, run,
  skip_if, auto_skip_if_stranded, on_module_init,
}

scanned-write_checkpoints :
    (scanned latest_height : ℕ) (latest_hash : Text) (hash : Option Text) (s : Checkpoints)
    → get near_last_scanned_height (write_checkpoints scanned latest_height latest_hash hash s)
      ≡ some (print scanned)
unfolding get set delete write_hash write_checkpoints
scanned-write_checkpoints scanned latest_height latest_hash none s = refl
scanned-write_checkpoints scanned latest_height latest_hash (some hash) s = refl

non_empty-full : (t : Text) → t ≢ [] → non_empty (some t) ≡ some t
non_empty-full [] full = absurd (full refl)
non_empty-full (c ∷ t) full = refl

-- The scanned height that the code reads is the one that is stored, when there is one.
scanned_height-IsScanned :
    (s : Checkpoints) (read stored : ℕ)
    → scanned_height s ≡ some read
    → IsScanned s stored
    → (read ≡ stored) × (near_backfill_start_height ≤ stored + 1)
unfolding scanned_height
scanned_height-IsScanned s read stored p (inl (same, le)) = (
  ground (arith, same, non_empty-full (print stored) (print-ne-nil stored), number-print stored, p),
  le,
)
scanned_height-IsScanned s read stored p (inr (missing, first)) =
    absurd (ground (arith, missing, p))

module _ (origin : ℕ) (done : List ℕ) where
  abbrev IsKept : Ops → Type 0
  IsKept o = IsCovered origin done o.checkpoints o.ledger

  skip-IsKept :
      (hours scanned latest_height : ℕ) (latest_hash : Text) (answers : Answers) (now : ℕ) (o : Ops)
      (k : IsKept o)
      → scanned_height o.checkpoints ≡ some scanned
      → has_no_gap hours scanned latest_height ≡ false
      → IsKept (skip hours scanned latest_height latest_hash answers now o)
  unfolding skip has_no_gap
  skip-IsKept hours scanned latest_height latest_hash answers now o k p gap =
      let new_scanned = latest_height - lag_blocks hours - 1 in
      let (same, above) = scanned_height-IsScanned o.checkpoints scanned k.scanned p k.stored in
      let in_ledger =
        λ (h : ℕ). ledgered-record (scanned + 1) new_scanned (skip_forward hours) now o.ledger h in
      record {
        scanned = new_scanned;
        stored = inl (
          scanned-write_checkpoints new_scanned latest_height latest_hash _ o.checkpoints,
          ground (arith, gap, same, above),
        );
        accounted = λ h lo hi. elim (dec_lt k.scanned h) [
          | no old ↦ elim (k.accounted h lo (omega arith)) [
            | inl d ↦ inl d
            | inr l ↦ inr (ground (arith, in_ledger h, l))
          ]
          | yes new ↦ inr (ground (arith, in_ledger h, same, new, hi))
        ];
      }

  run_from-IsKept :
      (confirm : Bool) (hours scanned : ℕ) (height : Option ℕ) (hash : Option Text)
      (answers : Answers) (now : ℕ) (o : Ops)
      → IsKept o
      → scanned_height o.checkpoints ≡ some scanned
      → IsKept (run_from confirm hours scanned height hash answers now o).1
  unfolding run_from
  run_from-IsKept confirm hours scanned (some latest_height) (some latest_hash) answers now o k p =
      elim (Bool-cases (has_no_gap hours scanned latest_height || not confirm)) [
        | inl stays ↦ rw stays k
        | inr skips ↦ rw skips (
            skip-IsKept hours scanned latest_height latest_hash answers now o k p
              (ground (arith, skips)))
      ]
  run_from-IsKept confirm hours scanned none hash answers now o k p = k
  run_from-IsKept confirm hours scanned (some latest_height) none answers now o k p = k

  -- Whatever the pool answers: if every height from the origin up to the scanned height was indexed,
  -- found skipped, or ledgered, then this is so after a run, up to the new scanned height.
  pub run-IsCovered :
      (confirm : Bool) (hours : ℕ) (answers : Answers) (now : ℕ) (o : Ops)
      → IsCovered origin done o.checkpoints o.ledger
      → IsCovered origin done
          (run confirm hours answers now o).1.checkpoints
          (run confirm hours answers now o).1.ledger
  unfolding run
  run-IsCovered confirm hours answers now o k = elim (Option-cases (scanned_height o.checkpoints)) [
    | inl missing ↦ rw (missing, run) k
    | inr (scanned, p) ↦ elim (Try-cases answers.final_block) [
      | inr (e, t) ↦ rw (p, run) (rw t k)
      | inl (latest, t) ↦
          rw (p, run) (rw t (run_from-IsKept confirm hours scanned _ _ answers now o k p))
    ]
  ]

  skip_if-IsKept :
      (b : Bool) (hours : ℕ) (again : Answers) (now : ℕ) (o : Ops)
      → IsKept o
      → IsKept (skip_if b hours again now o).1
  unfolding skip_if
  skip_if-IsKept false hours again now o k = k
  skip_if-IsKept true hours again now o k =
      let kept = run-IsCovered true hours again now o k in
      elim (Try-cases (run true hours again now o).0) [
        | inl (s, t) ↦ rw (t, skip_if) kept
        | inr (e, t) ↦ rw (t, skip_if) kept
      ]

  -- The boot guard loses no height either, whatever it decides.
  pub on_module_init-IsCovered :
      (answers again : Answers) (now : ℕ) (o : Ops)
      → IsCovered origin done o.checkpoints o.ledger
      → IsCovered origin done
          (on_module_init answers again now o).checkpoints
          (on_module_init answers again now o).ledger
  unfolding on_module_init auto_skip_if_stranded
  on_module_init-IsCovered answers again now o k =
      elim (Option-cases (scanned_height o.checkpoints)) [
        | inl missing ↦ rw (missing, on_module_init, auto_skip_if_stranded) k
        | inr (scanned, p) ↦ elim (Try-cases answers.final_block) [
          | inr (e, t) ↦ rw (p, on_module_init, auto_skip_if_stranded) (rw t k)
          | inl (latest, t) ↦ elim (Option-cases (non_zero latest.height)) [
            | inl no_height ↦ rw (p, on_module_init, auto_skip_if_stranded) (rw t (rw no_height k))
            | inr (latest_height, q) ↦
                rw (p, on_module_init, auto_skip_if_stranded)
                  (rw t (rw q (skip_if-IsKept _ 12 again now o k)))
          ]
        ]
      ]
